-- ===== src/Metrics/Buckets.antt =====
-- server/internal/metrics/metrics.go: what the buckets of a histogram count.
use bumshi.Common.{
  ℕ, ◌+◌, ◌%◌, ◌^◌, Bool, true, false, none, List, [], ◌∷◌, map, ◌≡◌, refl, ap, ◌∙◌, arith, Bytes,
  length, if◌then◌else◌,
}
use bumshi.Metrics.{Floats, HistogramChild, count_in, zeros, histogram_or_new, observe_child}

module _ (fl : Floats) where
  -- How many of the measurements are at most a bound.
  unfoldable pub tally : List fl.Float → fl.Float → ℕ
  tally [] ub = 0
  tally (v ∷ vs) ub = (if fl.le_float v ub then 1 else 0) + tally vs ub

  -- The measurements one after the other, the last one first in the list.
  unfoldable pub observe_all : List fl.Float → List fl.Float → HistogramChild fl → HistogramChild fl
  unfolding observe_child
  observe_all buckets [] c = c
  observe_all buckets (v ∷ vs) c = observe_child fl buckets v (observe_all buckets vs c)

  one_more :
      (b : Bool) (n : ℕ)
      → (if b then (n % 2 ^ 64 + 1) % 2 ^ 64 else n % 2 ^ 64) ≡ ((if b then 1 else 0) + n) % 2 ^ 64
  one_more true n = omega arith
  one_more false n = omega arith

  count_in-tally :
      (buckets : List fl.Float) (v : fl.Float) (vs : List fl.Float)
      → count_in fl v buckets (map (λ ub. tally vs ub % 2 ^ 64) buckets)
        ≡ map (λ ub. tally (v ∷ vs) ub % 2 ^ 64) buckets
  unfolding count_in tally
  count_in-tally [] v vs = refl
  count_in-tally (ub ∷ buckets) v vs =
      ap (λ n. n ∷ count_in fl v buckets (map (λ ub. tally vs ub % 2 ^ 64) buckets))
        (one_more (fl.le_float v ub) (tally vs ub))
      ∙ ap (λ r. tally (v ∷ vs) ub % 2 ^ 64 ∷ r) (count_in-tally buckets v vs)

  zeros-tally :
      (buckets : List fl.Float) → zeros fl buckets ≡ map (λ ub. tally [] ub % 2 ^ 64) buckets
  unfolding zeros tally
  zeros-tally [] = refl
  zeros-tally (ub ∷ buckets) = ap (λ r. 0 ∷ r) (zeros-tally buckets)

  counts-observe_all :
      (buckets : List fl.Float) (labels : List Bytes) (vs : List fl.Float)
      → (observe_all buckets vs (histogram_or_new fl none buckets labels)).counts
        ≡ map (λ ub. tally vs ub % 2 ^ 64) buckets
  unfolding observe_all histogram_or_new
  counts-observe_all buckets labels [] = zeros-tally buckets
  counts-observe_all buckets labels (v ∷ vs) =
      ap (count_in fl v buckets) (counts-observe_all buckets labels vs)
      ∙ count_in-tally buckets v vs

  count-observe_all :
      (buckets : List fl.Float) (labels : List Bytes) (vs : List fl.Float)
      → (observe_all buckets vs (histogram_or_new fl none buckets labels)).count
        ≡ length vs % 2 ^ 64
  unfolding observe_all histogram_or_new
  count-observe_all buckets labels [] = refl
  count-observe_all buckets labels (v ∷ vs) =
      let before = count-observe_all buckets labels vs in omega (arith, before)

-- After any measurements the count of each bucket is the number of those that are at most its bound, and
-- the count of all is how many there were, both up to the wrap-around at 64 bits.
pub observe_all_lem :
    (fl : Floats) (buckets : List fl.Float) (labels : List Bytes) (vs : List fl.Float)
    → ((observe_all fl buckets vs (histogram_or_new fl none buckets labels)).counts
        ≡ map (λ ub. tally fl vs ub % 2 ^ 64) buckets)
      × ((observe_all fl buckets vs (histogram_or_new fl none buckets labels)).count
          ≡ length vs % 2 ^ 64)
observe_all_lem fl buckets labels vs =
    (counts-observe_all fl buckets labels vs, count-observe_all fl buckets labels vs)
