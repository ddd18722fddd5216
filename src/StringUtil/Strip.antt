-- ===== src/StringUtil/Strip.antt =====
-- What `Strip` of fma-common/string_util.h leaves.
use fma_common.Common.{
  ℕ, ◌≡◌, refl, ◌∙◌, ap, [], ◌∷◌, ◌++◌, Bytes, Bool, true, false, Bool-cases, inl, inr, All,
}
use fma_common.StringUtil.{skip_front, keep_byte, trim_back, strip_with}

-- The bytes that a test accepts, and the strings that do not begin, or do not end, with one.
abbrev pub AllIn : (ℕ → Bool) → Bytes → Type 0
AllIn test = All (λ c. test c ≡ true)

abbrev pub NoneAhead : (ℕ → Bool) → Bytes → Type 0
NoneAhead test [] = Unit {0}
NoneAhead test (c ∷ s) = test c ≡ false

abbrev pub NoneBehind : (ℕ → Bool) → Bytes → Type 0
NoneBehind test [] = Unit {0}
NoneBehind test (c ∷ []) = test c ≡ false
NoneBehind test (c ∷ d ∷ s) = NoneBehind test (d ∷ s)

abbrev Trimmed : (ℕ → Bool) → Bytes → Bytes → Type 0
Trimmed test s kept = (back : Bytes) × (s ≡ kept ++ back) × AllIn test back × NoneBehind test kept

keep_byte-Trimmed :
    (test : ℕ → Bool) (c : ℕ) (kept s : Bytes)
    → Trimmed test s kept
    → Trimmed test (c ∷ s) (keep_byte kept (test c) c)
unfolding keep_byte
keep_byte-Trimmed test c [] s (back, split, all, last) = elim (Bool-cases (test c)) [
  | inl e ↦ rw e (c ∷ back, ap (◌∷◌ c) split, (e, all), tt)
  | inr e ↦ rw e (back, ap (◌∷◌ c) split, all, e)
]
keep_byte-Trimmed test c (d ∷ kept) s (back, split, all, last) = (back, ap (◌∷◌ c) split, all, last)

trim_back-Trimmed : (test : ℕ → Bool) (s : Bytes) → Trimmed test s (trim_back test s)
unfolding trim_back
trim_back-Trimmed test [] = ([], refl, tt, tt)
trim_back-Trimmed test (c ∷ s) =
    keep_byte-Trimmed test c (trim_back test s) s (trim_back-Trimmed test s)

keep_byte-NoneAhead :
    (test : ℕ → Bool) (c : ℕ) (kept : Bytes)
    → test c ≡ false
    → NoneAhead test (keep_byte kept (test c) c)
unfolding keep_byte
keep_byte-NoneAhead test c [] e = rw e e
keep_byte-NoneAhead test c (d ∷ kept) e = e

trim_back-NoneAhead :
    (test : ℕ → Bool) (s : Bytes) → NoneAhead test s → NoneAhead test (trim_back test s)
unfolding trim_back
trim_back-NoneAhead test [] h = tt
trim_back-NoneAhead test (c ∷ s) h = keep_byte-NoneAhead test c (trim_back test s) h

skip_front_lem :
    (test : ℕ → Bool) (s : Bytes)
    → (front : Bytes) × (s ≡ front ++ skip_front test s)
      × AllIn test front
      × NoneAhead test (skip_front test s)
unfolding skip_front
skip_front_lem test [] = ([], refl, tt, tt)
skip_front_lem test (c ∷ s) =
    let (front, split, all, ahead) = skip_front_lem test s in
    elim (Bool-cases (test c)) [
      | inl e ↦ rw e (c ∷ front, ap (◌∷◌ c) split, (e, all), ahead)
      | inr e ↦ rw e ([], refl, tt, e)
    ]

-- `Strip` takes bytes of the set from both ends of the string, and what it leaves neither begins nor
-- ends with such a byte.
pub strip_with_lem :
    (test : ℕ → Bool) (str : Bytes)
    → (front : Bytes) × (back : Bytes) × (str ≡ front ++ (strip_with test str ++ back))
      × AllIn test front
      × AllIn test back
      × NoneAhead test (strip_with test str)
      × NoneBehind test (strip_with test str)
unfolding strip_with
strip_with_lem test str =
    let (front, split, all, ahead) = skip_front_lem test str in
    let (back, rest, after, behind) = trim_back-Trimmed test (skip_front test str) in
    (
      front,
      back,
      split ∙ ap (◌++◌ front) rest,
      all,
      after,
      trim_back-NoneAhead test (skip_front test str) ahead,
      behind,
    )
