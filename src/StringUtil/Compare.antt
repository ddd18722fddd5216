-- ===== src/StringUtil/Compare.antt =====
-- What the comparisons of fma-common/string_util.h accept, and what `Strip` leaves.
use fma_common.Common.{
  ℕ, zero, suc, ◌+◌, ◌-◌, ◌≤◌, ◌≡◌, refl, ◌↔◌, ◌∙◌, ap, ap₂, sym, append-nil, [], ◌∷◌, ◌++◌, arith,
  Bytes, Bool, true, false, ltb, ==_iff, length, map, take, drop, drop-append, take-append-drop,
  length-append, length-drop, length-map,
}
use fma_common.StringUtil.{same_bytes, fold_case, string_equal, starts_with, ends_with}

same_bytes_sound :
    (f : ℕ → ℕ) (s p : Bytes) → same_bytes f s p ≡ true → map f (take (length p) s) ≡ map f p
unfolding same_bytes
same_bytes_sound f s [] h = refl
same_bytes_sound f [] (c ∷ p) h = absurd cc
same_bytes_sound f (d ∷ s) (c ∷ p) h =
    let here : f d ≡ f c = sym ((==_iff (f c) (f d)).0 (ground arith)) in
    ap₂ ◌∷◌ here (same_bytes_sound f s p (ground arith))

same_bytes_complete :
    (f : ℕ → ℕ) (head rest p : Bytes) → map f head ≡ map f p → same_bytes f (head ++ rest) p ≡ true
unfolding same_bytes
same_bytes_complete f head rest [] h = refl
same_bytes_complete f [] rest (c ∷ p) h = absurd cc
same_bytes_complete f (d ∷ head) rest (c ∷ p) h =
    let here : f d ≡ f c = cc in
    let more : map f head ≡ map f p = cc in
    rw ((==_iff (f c) (f d)).1 (sym here)) (same_bytes_complete f head rest p more)

same_length : (f : ℕ → ℕ) (s t : Bytes) → map f s ≡ map f t → length s ≡ length t
same_length f s t h = sym (length-map s f) ∙ ap length h ∙ length-map t f

take_all : (n : ℕ) (xs : Bytes) → n ≡ length xs → take n xs ≡ xs
take_all zero [] h = refl
take_all zero (x ∷ xs) h = absurd (omega arith)
take_all (suc n) [] h = refl
take_all (suc n) (x ∷ xs) h = ap (◌∷◌ x) (take_all n xs (omega arith))

same_bytes_whole :
    (f : ℕ → ℕ) (s p : Bytes)
    → length s ≡ length p
    → (same_bytes f s p ≡ true) ↔ (map f s ≡ map f p)
same_bytes_whole f s p size = (
  λ h. ap (map f) (sym (take_all (length p) s (sym size))) ∙ same_bytes_sound f s p h,
  λ h. ap (λ (x : Bytes). same_bytes f x p) (sym (append-nil s)) ∙ same_bytes_complete f s [] p h,
)

module _ (tolower : ℕ → ℕ) where
  -- `StartsWith` accepts exactly the strings with a first part that is the pattern, up to the case
  -- of its letters where that is ignored.
  pub starts_with_lem :
      (str pattern : Bytes) (case_sensitive : Bool)
      → (starts_with tolower str pattern case_sensitive ≡ true) ↔ (
          (head : Bytes) × (rest : Bytes) × (str ≡ head ++ rest)
          × (map (fold_case tolower case_sensitive) head
              ≡ map (fold_case tolower case_sensitive) pattern))
  unfolding starts_with
  starts_with_lem str pattern cs = (
    λ h. (
      take (length pattern) str,
      drop (length pattern) str,
      sym (take-append-drop (length pattern) str),
      same_bytes_sound (fold_case tolower cs) str pattern (ground arith),
    ),
    λ (head, rest, e, same).
        let size = same_length (fold_case tolower cs) head pattern same in
        let room : ltb (length str) (length pattern) ≡ false =
          rw e (ground (arith, length-append head rest)) in
        rw (room, e) (same_bytes_complete (fold_case tolower cs) head rest pattern same),
  )

  -- `EndsWith` accepts exactly the strings with a last part that is the pattern, up to the case of
  -- its letters where that is ignored.
  pub ends_with_lem :
      (str pattern : Bytes) (case_sensitive : Bool)
      → (ends_with tolower str pattern case_sensitive ≡ true) ↔ (
          (front : Bytes) × (tail : Bytes) × (str ≡ front ++ tail)
          × (map (fold_case tolower case_sensitive) tail
              ≡ map (fold_case tolower case_sensitive) pattern))
  unfolding ends_with
  ends_with_lem str pattern cs = (
    λ h.
        let k = length str - length pattern in
        let room : length pattern ≤ length str = ground arith in
        let size : length (drop k str) ≡ length pattern = omega (arith, length-drop k str) in
        (
          take k str,
          drop k str,
          sym (take-append-drop k str),
          (same_bytes_whole (fold_case tolower cs) (drop k str) pattern size).0 (ground arith),
        ),
    λ (front, tail, e, same).
        let size = same_length (fold_case tolower cs) tail pattern same in
        let whole : length str ≡ length front + length tail = rw e (length-append front tail) in
        let room : ltb (length str) (length pattern) ≡ false = ground arith in
        let at : length str - length pattern ≡ length front = omega arith in
        let last : drop (length front) str ≡ tail = rw e (drop-append front tail) in
        rw (room, at, last) ((same_bytes_whole (fold_case tolower cs) tail pattern size).1 same),
  )

  -- `StringEqual` accepts exactly the strings that are equal, up to the case of their letters where
  -- that is ignored.
  pub string_equal_lem :
      (left right : Bytes) (case_sensitive : Bool)
      → (string_equal tolower left right case_sensitive ≡ true) ↔ (
          map (fold_case tolower case_sensitive) left
          ≡ map (fold_case tolower case_sensitive) right)
  unfolding string_equal
  string_equal_lem left right cs = (
    λ h.
        let size : length left ≡ length right =
          (==_iff (length left) (length right)).0 (ground arith) in
        (same_bytes_whole (fold_case tolower cs) left right size).0 (ground arith),
    λ same.
        let size = same_length (fold_case tolower cs) left right same in
        rw ((==_iff (length left) (length right)).1 size)
          ((same_bytes_whole (fold_case tolower cs) left right size).1 same),
  )
