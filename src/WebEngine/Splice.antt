-- ===== src/WebEngine/Splice.antt =====
-- server/internal/webengine/webengine.go: `Inject` puts the bootstrap in one place and changes nothing else.
use bumshi.Common.{
  ℕ, ◌+◌, ◌<◌, false, true, Option, some, ◌∷◌, ◌++◌, ◌≡◌, ◌⊎◌, inl, inr, refl, sym, ap, ◌∙◌, arith,
  Bytes, length, take, drop, Lacks, Option-cases, length-take, take-append-drop,
}
use bumshi.Strings.{index_byte}
use bumshi.Strings.Laws.{index_byte-drop, index_byte-take, index_byte-none, index_byte-lt}
use bumshi.WebEngine.{
  HeadSearch, at_offset, no_head, panics, out_of_fuel, head_open_tag, build_bootstrap, splice,
  inject_at, inject,
}
use bumshi.WebEngine.Heads.{head_at, IsFirst, head_on-IsFirst}

-- The bootstrap stands behind the first ">" from the offset on, or in front when there is none.
abbrev pub IsBehind : Bytes → Bytes → Option Bytes → ℕ → Type 0
IsBehind body bootstrap out i =
    ((tag : Bytes) × (r : Bytes) × (drop i body ≡ tag ++ b'>' ∷ r)
      × Lacks b'>' tag
      × (out ≡ some (splice body (i + length tag + 1) bootstrap)))
    ⊎ (Lacks b'>' (drop i body) × (out ≡ some (bootstrap ++ body)))

-- What `Inject` gives, by where the first head tag is.
abbrev pub IsInjected : Bytes → Bytes → Bytes → Option Bytes → Type 0
IsInjected lower body bootstrap out =
    ((i : ℕ) × (head_at lower body i ≡ true)
      × ((j : ℕ) → j < i → head_at lower body j ≡ false)
      × IsBehind body bootstrap out i)
    ⊎ (((j : ℕ) → head_at lower body j ≡ false) × (out ≡ some (bootstrap ++ body)))

inject_at-IsBehind :
    (body bootstrap : Bytes) (i : ℕ)
    → IsBehind body bootstrap (inject_at body bootstrap (at_offset i)) i
unfolding inject_at
inject_at-IsBehind body bootstrap i = elim (Option-cases (index_byte (drop i body) b'>')) [
  | inl e ↦ inr (index_byte-none (drop i body) b'>' e, (rw (e, inject_at) refl))
  | inr (gt, e) ↦
      let (r, front) = index_byte-drop (drop i body) b'>' e in
      let size = length-take gt (drop i body) in
      let inner = index_byte-lt (drop i body) b'>' e in
      let same : i + gt + 1 ≡ i + length (take gt (drop i body)) + 1 = omega (arith, size, inner) in
      inl (
        take gt (drop i body),
        r,
        sym (take-append-drop gt (drop i body)) ∙ ap (λ t. take gt (drop i body) ++ t) front,
        index_byte-take (drop i body) b'>' e,
        (rw (e, inject_at) (ap (λ n. some (splice body n bootstrap)) same)),
      )
]

inject_at-IsInjected :
    (lower body bootstrap : Bytes) (o : HeadSearch)
    → IsFirst lower body o
    → IsInjected lower body bootstrap (inject_at body bootstrap o)
inject_at-IsInjected lower body bootstrap (at_offset i) (_, there, first) =
    inl (i, there, first, inject_at-IsBehind body bootstrap i)
inject_at-IsInjected lower body bootstrap no_head h = inr (h, (unfold inject_at in refl))
inject_at-IsInjected lower body bootstrap panics h = absurd h
inject_at-IsInjected lower body bootstrap out_of_fuel h = absurd h

-- `Inject` returns the document with the bootstrap behind the ">" that ends its first opening head tag, a
-- "<head" in any case of its letters and then ">", "/" or white space, and in front of the document if it
-- has no such tag or the tag no ">"; every other byte is as it was. That holds if lower-casing keeps the
-- length of the document.
pub inject-IsInjected :
    (lower : Bytes → Bytes) (body nonce : Bytes)
    → length (lower body) ≡ length body
    → IsInjected (lower body) body (build_bootstrap nonce) (inject lower body nonce)
unfolding inject head_open_tag
inject-IsInjected lower body nonce same =
    inject_at-IsInjected (lower body) body (build_bootstrap nonce) _ (
      head_on-IsFirst (lower body) body (length (lower body) + 1) 0 same (omega arith) (omega arith)
        (λ j lt. absurd (omega (arith, lt))))
