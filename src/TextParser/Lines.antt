-- ===== src/TextParser/Lines.antt =====
-- `FindNextLine` of fma-common/text_parser.h.
use fma_common.Common.{
  ℕ, [], ◌∷◌, ◌++◌, false, ◌≡◌, refl, ◌⊎◌, inl, inr, arith, Bytes, ◌==◌, if◌then◌else◌, All,
  Bool-cases, ap, ap₂, ==_iff,
}
use fma_common.TextParser.Chars.{is_new_line}

-- The end of a line that begins with '\r' or '\n', where `other` is the other of the two.
after_break : ℕ → Bytes → Bytes
after_break other [] = []
after_break other (c ∷ p) = if c == other then p else c ∷ p

-- What is left of `[p, e)` after the line.
pub find_next_line : Bytes → Bytes
unfolding after_break
find_next_line [] = []
find_next_line (c ∷ p) =
    let rest = find_next_line p in
    if c == b'\r' then after_break b'\n' p else if c == b'\n' then after_break b'\r' p else rest

-- The bytes do not begin with `other`.
abbrev pub BeginsNot : ℕ → Bytes → Type 0
BeginsNot other [] = Unit
BeginsNot other (c ∷ p) = (c == other) ≡ false

-- The four ways to end a line, and the end of the buffer. One byte ends a line only where the other of
-- the two does not follow.
pub data LineEnd : Bytes → Bytes → Type 0 where
  cr : {rest : Bytes} → BeginsNot b'\n' rest → LineEnd (b'\r' ∷ []) rest
  lf : {rest : Bytes} → BeginsNot b'\r' rest → LineEnd (b'\n' ∷ []) rest
  cr_lf : {rest : Bytes} → LineEnd (b'\r' ∷ b'\n' ∷ []) rest
  lf_cr : {rest : Bytes} → LineEnd (b'\n' ∷ b'\r' ∷ []) rest
  buffer_end : LineEnd [] []

abbrev pub IsLine : Bytes → Type 0
IsLine = All (λ c. is_new_line c ≡ false)

after_break-cases :
    (other : ℕ) (p : Bytes)
    → (p ≡ other ∷ after_break other p)
      ⊎ ((p ≡ after_break other p) × BeginsNot other (after_break other p))
unfolding after_break
after_break-cases other [] = inr (refl, tt)
after_break-cases other (c ∷ p) = elim (Bool-cases (c == other)) [
  | inl e ↦ rw e (inl (ap (λ (x : ℕ). x ∷ p) ((==_iff c other).0 e)))
  | inr e ↦ rw e (inr (refl, e))
]

find_next_line_cr : (c : ℕ) (p : Bytes) → c ≡ b'\r' → find_next_line (c ∷ p) ≡ after_break b'\n' p
unfolding find_next_line
find_next_line_cr c p e = rw e refl

find_next_line_lf : (c : ℕ) (p : Bytes) → c ≡ b'\n' → find_next_line (c ∷ p) ≡ after_break b'\r' p
unfolding find_next_line
find_next_line_lf c p e = rw e refl

find_next_line_other :
    (c : ℕ) (p : Bytes) → is_new_line c ≡ false → find_next_line (c ∷ p) ≡ find_next_line p
unfolding find_next_line is_new_line
find_next_line_other c p e = ground arith

new_line-cases : (c : ℕ) → (c ≡ b'\r') ⊎ ((c ≡ b'\n') ⊎ (is_new_line c ≡ false))
unfolding is_new_line
new_line-cases c = ground arith

-- A buffer is a line with no line break in it, one line end, and what `FindNextLine` returns: the two
-- bytes of "\\r\\n" and of "\\n\\r" end one line together, and one of them alone ends a line only where
-- the other does not follow.
pub find_next_line_lem :
    (p : Bytes)
    → (line : Bytes) × (brk : Bytes) × (p ≡ line ++ (brk ++ find_next_line p))
      × IsLine line
      × LineEnd brk (find_next_line p)
find_next_line_lem [] =
    ([], [], unfold find_next_line in refl, tt, unfold find_next_line in buffer_end)
find_next_line_lem (c ∷ p) =
    let rest = find_next_line_lem p in
    elim (new_line-cases c) [
      | inl e ↦ rw (find_next_line_cr c p e) (elim (after_break-cases b'\n' p) [
        | inl two ↦ ([], b'\r' ∷ b'\n' ∷ [], ap₂ ◌∷◌ e two, tt, cr_lf)
        | inr (one, alone) ↦ ([], b'\r' ∷ [], ap₂ ◌∷◌ e one, tt, cr alone)
      ])
      | inr (inl e) ↦ rw (find_next_line_lf c p e) (elim (after_break-cases b'\r' p) [
        | inl two ↦ ([], b'\n' ∷ b'\r' ∷ [], ap₂ ◌∷◌ e two, tt, lf_cr)
        | inr (one, alone) ↦ ([], b'\n' ∷ [], ap₂ ◌∷◌ e one, tt, lf alone)
      ])
      | inr (inr e) ↦
          let (line, brk, split, plain, end) = rest in
          rw (find_next_line_other c p e) (c ∷ line, brk, ap (◌∷◌ c) split, (e, plain), end)
    ]
