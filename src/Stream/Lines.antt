-- ===== src/Stream/Lines.antt =====
-- The lines of what is left of the stream of a `StreamLineReader` (fma-common/stream_base.h), in its buffer
-- and behind it.
use mathlib.Core.Option
use fma_common.Common.{
  ℕ, zero, suc, ◌+◌, ◌-◌, ◌≤◌, ◌<◌, ◌≡◌, ◌⊎◌, inl, inr, refl, sym, ◌∙◌, subst, Bool, true, false,
  Option, none, some, [], ◌∷◌, ◌++◌, Bytes, leb, ◌==◌, if◌then◌else◌, length, take, drop, arith,
  Bool-cases, leb→le, drop-drop,
}
use fma_common.Stream.{InputStream}
use fma_common.Stream.LineReader.{
  line_feed, index_of_newline, StreamLineReader, line_end, append_part,
}

-- A text up to its first line feed and with it, and what follows.
abbrev pub break_line : Bytes → Bytes × Bytes
break_line [] = ([], [])
break_line (c ∷ cs) =
    if c == line_feed then (c ∷ [], cs) else (c ∷ (break_line cs).0, (break_line cs).1)

abbrev pub has_newline : Bytes → Bool
has_newline [] = false
has_newline (c ∷ cs) = if c == line_feed then true else has_newline cs

map-suc : (o : Option ℕ) (k : ℕ) → Option.map suc o ≡ some (suc k) → o ≡ some k
map-suc none k h = ground (arith, h)
map-suc (some j) k h = ground (arith, h)

map-suc_zero : (o : Option ℕ) → Option.map suc o ≡ some 0 → ⊥
map-suc_zero none h = ground (arith, h)
map-suc_zero (some j) h = ground (arith, h)

map-suc-none : (o : Option ℕ) → Option.map suc o ≡ none → o ≡ none
map-suc-none none h = refl
map-suc-none (some j) h = ground (arith, h)

index_first : (c : ℕ) (xs : Bytes) → (c == line_feed) ≡ true → index_of_newline (c ∷ xs) ≡ some 0
unfolding index_of_newline
index_first c xs e = rw e refl

index_later :
    (c : ℕ) (xs : Bytes)
    → (c == line_feed) ≡ false
    → index_of_newline (c ∷ xs) ≡ Option.map suc (index_of_newline xs)
unfolding index_of_newline
index_later c xs e = rw e refl

-- The search finds the end of the line inside of the first `n` bytes.
break_found :
    (xs : Bytes) (n k : ℕ) (ys : Bytes)
    → index_of_newline xs ≡ some k
    → k < n
    → (break_line (take n xs ++ ys) ≡ (take (suc k) xs, take (n - suc k) (drop (suc k) xs) ++ ys))
      × (has_newline (take n xs ++ ys) ≡ true)
break_found [] n k ys h lower = absurd (index_nil k h)
  where
    index_nil : (k : ℕ) → index_of_newline [] ≡ some k → ⊥
    index_nil k h = unfold index_of_newline in ground (arith, h)
break_found (c ∷ xs) zero k ys h lower = absurd (omega arith)
break_found (c ∷ xs) (suc n) zero ys h lower = elim (Bool-cases (c == line_feed)) [
  | inl e ↦ let left : suc n - 1 ≡ n = omega arith in rw (e, left) (refl, refl)
  | inr e ↦ absurd (map-suc_zero (index_of_newline xs) (sym (index_later c xs e) ∙ h))
]
break_found (c ∷ xs) (suc n) (suc k) ys h lower = elim (Bool-cases (c == line_feed)) [
  | inl e ↦
      let clash : some 0 ≡ some (suc k) = sym (index_first c xs e) ∙ h in ground (arith, clash)
  | inr e ↦
      let deeper = map-suc (index_of_newline xs) k (sym (index_later c xs e) ∙ h) in
      let (broken, found) = break_found xs n k ys deeper (omega arith) in
      let left : suc n - suc (suc k) ≡ n - suc k = omega arith in
      rw (e, broken, found, left) (refl, refl)
]

-- The search goes past the first `n` bytes: they belong to the line.
abbrev Past : Option ℕ → ℕ → Type 0
Past none n = Unit
Past (some k) n = n ≤ k

Past-suc : (o : Option ℕ) (n : ℕ) → Past (Option.map suc o) (suc n) → Past o n
Past-suc none n h = tt
Past-suc (some k) n h = omega arith

break_not_found :
    (xs : Bytes) (n : ℕ) (ys : Bytes)
    → Past (index_of_newline xs) n
    → (break_line (take n xs ++ ys) ≡ (take n xs ++ (break_line ys).0, (break_line ys).1))
      × (has_newline (take n xs ++ ys) ≡ has_newline ys)
break_not_found xs zero ys h = (refl, refl)
break_not_found [] (suc n) ys h = (refl, refl)
break_not_found (c ∷ xs) (suc n) ys h = elim (Bool-cases (c == line_feed)) [
  | inl e ↦ absurd (zero_not_past (subst (λ o. Past o (suc n)) (index_first c xs e) h))
  | inr e ↦
      let deeper =
        Past-suc (index_of_newline xs) n (subst (λ o. Past o (suc n)) (index_later c xs e) h) in
      let (broken, found) = break_not_found xs n ys deeper in rw (e, broken, found) (refl, refl)
]
  where
    zero_not_past : suc n ≤ 0 → ⊥
    zero_not_past h = omega arith

module _ (I : InputStream) where
  open I use {State, rest, read}

  abbrev pub chunk : StreamLineReader I → Bytes
  chunk r = take (r.end_ - r.begin) (drop r.begin r.buf)

  -- What the reader has still to give.
  abbrev pub pending : StreamLineReader I → Bytes
  pending r = chunk r ++ rest r.stream

  pub record IsReader (r : StreamLineReader I) : Type 0 where
    pub begin_le : r.begin ≤ r.end_
    pub end_le : r.end_ ≤ length r.buf
    pub full : length r.buf ≡ r.capacity
    pub pos : 0 < r.capacity

  line_end-cases :
      (r : StreamLineReader I)
      → ((k : ℕ) × (line_end I r ≡ (r.begin + suc k, true))
          × (index_of_newline (drop r.begin r.buf) ≡ some k)
          × (k < r.end_ - r.begin))
        ⊎ ((line_end I r ≡ (r.end_, false))
            × Past (index_of_newline (drop r.begin r.buf)) (r.end_ - r.begin))
  unfolding line_end
  line_end-cases r = by_index (index_of_newline (drop r.begin r.buf)) refl
    where
      by_index :
          (o : Option ℕ)
          → index_of_newline (drop r.begin r.buf) ≡ o
          → ((k : ℕ) × (line_end I r ≡ (r.begin + suc k, true))
              × (index_of_newline (drop r.begin r.buf) ≡ some k)
              × (k < r.end_ - r.begin))
            ⊎ ((line_end I r ≡ (r.end_, false))
                × Past (index_of_newline (drop r.begin r.buf)) (r.end_ - r.begin))
      by_index none h = inr (rw (h, line_end) refl, rw h tt)
      by_index (some k) h = elim (Bool-cases (leb r.end_ (r.begin + k))) [
        | inl e ↦ inr (rw (h, line_end, e) refl, rw h (let b = leb→le _ _ e in omega arith))
        | inr e ↦
            let last : r.begin + k + 1 ≡ r.begin + suc k = omega arith in
            inl (k, rw (h, line_end, e, last) refl, h, ground (arith, e))
      ]

  -- A round of the loop on a buffer that is not empty: the line ends in it, or all of it belongs to
  -- the line.
  pub append_part-cases :
      (r : StreamLineReader I) (line : Bytes)
      → IsReader r
      → r.begin < r.end_
      → ((q : StreamLineReader I) × (append_part I r line
            ≡ (true, line ++ (break_line (pending r)).0, q))
          × (has_newline (pending r) ≡ true)
          × (pending q ≡ (break_line (pending r)).1)
          × IsReader q)
        ⊎ ((append_part I r line ≡ (false, line ++ chunk r, record r { begin = r.end_ }))
            × (break_line (pending r)
                ≡ (chunk r ++ (break_line (rest r.stream)).0, (break_line (rest r.stream)).1))
            × (has_newline (pending r) ≡ has_newline (rest r.stream)))
  unfolding append_part
  append_part-cases r line v some_left = elim (line_end-cases r) [
    | inl (k, e, h, lower) ↦
        let (broken, found) =
          break_found (drop r.begin r.buf) (r.end_ - r.begin) k (rest r.stream) h lower in
        let last = r.begin + suc k in
        let size : last - r.begin ≡ suc k = omega arith in
        let left : r.end_ - last ≡ r.end_ - r.begin - suc k = omega arith in
        inl (
          record r { begin = last },
          rw (e, size, broken) refl,
          found,
          rw (broken, left, drop-drop r.begin (suc k) r.buf) refl,
          record { begin_le = omega arith; end_le = v.end_le; full = v.full; pos = v.pos },
        )
    | inr (e, past) ↦
        let (broken, found) =
          break_not_found (drop r.begin r.buf) (r.end_ - r.begin) (rest r.stream) past in
        inr (rw e refl, broken, found)
  ]
