-- ===== src/TextParser/Fields.antt =====
-- The string fields of fma-common/text_parser.h. A parser returns the number of bytes consumed and
-- the string `s`; loops carry the count `n` and append to `s`.
pub mod Csv
pub mod Spans
use fma_common.Common.{
  ℕ, suc, ◌-◌, List, [], ◌∷◌, ◌++◌, Bool, true, false, not, ◌&&◌, ◌||◌, Bytes, ◌==◌, ltb, leb,
  if◌then◌else◌,
}
use fma_common.TextParser.Chars.{
  is_graphical, is_alphabet_numberic, is_new_line, is_blank, is_csv_ignoreable,
}

-- `while (b != e && test(*b)) s.push_back(*b++);`
pub take_while : (ℕ → Bool) → Bytes → ℕ → Bytes → ℕ × Bytes
take_while test [] n s = (n, s)
take_while test (c ∷ b) n s =
    let rest = take_while test b (suc n) (s ++ c ∷ []) in if test c then rest else (n, s)

unfoldable pub parse_alphabet_numeric : Bytes → ℕ × Bytes
parse_alphabet_numeric b = take_while is_alphabet_numberic b 0 []

unfoldable pub parse_graphical_string : Bytes → ℕ × Bytes
parse_graphical_string b = take_while is_graphical b 0 []

-- `while (b != e && test(*b)) b++;`: the count and what is left.
unfoldable pub skip_while : (ℕ → Bool) → Bytes → ℕ → ℕ × Bytes
skip_while test [] n = (n, [])
skip_while test (c ∷ b) n =
    let rest = skip_while test b (suc n) in if test c then rest else (n, c ∷ b)

unfoldable pub drop_graphical_field : Bytes → ℕ
drop_graphical_field b = (skip_while is_graphical b 0).0

-- `*b < 32` for a signed `char`: control characters, and every byte from 128 on.
abbrev pub below_space : ℕ → Bool
below_space c = ltb c 32 || leb 128 c

printable : ℕ → Bool
printable c = ltb 31 c && ltb c 127

printable_from : ℕ × Bytes → ℕ × Bytes
printable_from (n, []) = (0, [])
printable_from (n, c ∷ b) = take_while printable (c ∷ b) n []

pub parse_printable_string : Bytes → ℕ × Bytes
unfolding printable_from printable
parse_printable_string b = printable_from (skip_while below_space b 0)

-- The loop over a quoted string behind its opening '"', and the part of its body that follows
-- a '"'. `ignore` is the test for the bytes that are left out.
mutual
  pub quoted : (ℕ → Bool) → Bytes → ℕ → Bytes → ℕ × Bytes
  quoted ignore [] n s = (n, s)
  quoted ignore (c ∷ b) n s =
      let skip = quoted ignore b (suc n) s in
      let closing = after_quote ignore b (suc n) s in
      let keep = quoted ignore b (suc n) (s ++ c ∷ []) in
      if is_new_line c
      then (n, s)
      else if ignore c
      then skip
      else if c == b'"'
      then closing
      else keep

  pub after_quote : (ℕ → Bool) → Bytes → ℕ → Bytes → ℕ × Bytes
  after_quote ignore [] n s = (n, s)
  after_quote ignore (c ∷ b) n s =
      let doubled = quoted ignore b (suc n) (s ++ c ∷ []) in if c == b'"' then doubled else (n, s)

-- The loop over a string without quotes, up to a line break or a comma.
pub unquoted : Bytes → ℕ → Bytes → ℕ × Bytes
unquoted [] n s = (n, s)
unquoted (c ∷ b) n s =
    let rest = unquoted b (suc n) (if is_csv_ignoreable c then s else s ++ c ∷ []) in
    if is_new_line c || c == b',' then (n, s) else rest

csv_from : ℕ × Bytes → ℕ × Bytes
unfolding quoted unquoted
csv_from (n, []) = (0, [])
csv_from (n, c ∷ b) =
    if c == b'"' then quoted is_csv_ignoreable b (suc n) [] else unquoted (c ∷ b) n []

pub parse_csv_string : Bytes → ℕ × Bytes
unfolding csv_from
parse_csv_string b = csv_from (skip_while is_blank b 0)

-- `ParseQuotedString` appends to `s`; the text begins with '"', which the source asserts.
pub parse_quoted_string : Bytes → Bytes → ℕ × Bytes
parse_quoted_string [] s = (0, s)
parse_quoted_string (c ∷ b) s = quoted (λ _. false) b 1 s

-- The loops of `DropCsvField`.
mutual
  pub drop_quoted : Bytes → ℕ → ℕ
  drop_quoted [] n = n
  drop_quoted (c ∷ b) n =
      let more = drop_quoted b (suc n) in
      let closing = drop_after_quote b (suc n) in
      if is_new_line c
      then n
      else if is_csv_ignoreable c
      then more
      else if c == b'"'
      then closing
      else more

  pub drop_after_quote : Bytes → ℕ → ℕ
  drop_after_quote [] n = n
  drop_after_quote (c ∷ b) n =
      let doubled = drop_quoted b (suc n) in if c == b'"' then doubled else n

pub drop_unquoted : Bytes → ℕ → ℕ
drop_unquoted [] n = n
drop_unquoted (c ∷ b) n =
    let rest = drop_unquoted b (suc n) in if is_new_line c || c == b',' then n else rest

drop_from : ℕ × Bytes → ℕ
drop_from (n, []) = 0
drop_from (n, c ∷ b) = if c == b'"' then drop_quoted b (suc n) else drop_unquoted (c ∷ b) n

pub drop_csv_field : Bytes → ℕ
unfolding drop_from
drop_csv_field b = drop_from (skip_while is_blank b 0)
