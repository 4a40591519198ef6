-- ===== src/Metrics/Examples.antt =====
-- The theorems on metrics at concrete measurements: the floats are whole numbers here.
use bumshi.Common.{
  ℕ, ◌+◌, ◌-◌, ◌%◌, ◌^◌, false, none, some, List, [], ◌∷◌, ◌++◌, map, ◌≡◌, refl, codes, length, leb,
  Lacks,
}
use bumshi.Strings.{itoa}
use bumshi.Metrics.{
  Floats, Vec, counter, escape_label_value, histogram_or_new, inc_counter, add_counter, write_to,
}
use bumshi.Metrics.Buckets.{tally, observe_all, observe_all_lem}
use bumshi.Metrics.Labels.{read_value, read_value-escape_label_value}

abbrev whole_numbers : Floats
whole_numbers = record {
  Float = ℕ;
  zero_float = 0;
  one_float = 1;
  add_float = λ a b. a + b;
  sub_float = λ a b. a - b;
  le_float = leb;
  is_negative = λ a. false;
  format_float = itoa;
}

abbrev requests : Vec whole_numbers
requests = record {
  name = codes "requests";
  help = codes "Requests.";
  labels = codes "code" ∷ [];
  values = [];
}

rendered :
    write_to whole_numbers (
      counter (
        inc_counter whole_numbers
          (inc_counter whole_numbers requests (codes "200" ∷ []))
          (codes "200" ∷ [])))
    ≡ codes "# HELP requests Requests."
      ++ (b'\n'
          ∷ (codes "# TYPE requests counter"
              ++ (b'\n' ∷ (codes "requests{code=\"200\"} 2" ++ b'\n' ∷ []))))
unfolding write_to add_counter
rendered = refl

read_value-escape_label_value_example :
    (read_value false (escape_label_value (codes "a\"b\\") ++ b'"' ∷ codes "}")
      ≡ some (codes "a\"b\\", codes "}"))
    × Lacks b'\n' (escape_label_value (codes "a\"b\\"))
read_value-escape_label_value_example = read_value-escape_label_value (codes "a\"b\\") (codes "}")

abbrev bounds : List ℕ
bounds = 1 ∷ 5 ∷ []

abbrev measured : List ℕ
measured = 3 ∷ 7 ∷ 0 ∷ []

observe_all_lem_example :
    ((observe_all whole_numbers bounds measured
        (histogram_or_new whole_numbers none bounds [])).counts
      ≡ map (λ ub. tally whole_numbers measured ub % 2 ^ 64) bounds)
    × ((observe_all whole_numbers bounds measured
          (histogram_or_new whole_numbers none bounds [])).count
        ≡ length measured % 2 ^ 64)
observe_all_lem_example = observe_all_lem whole_numbers bounds [] measured
