-- ===== src/TextParser/Fields/Spans.antt =====
-- Where the string parsers of fma-common/text_parser.h stop, and that they stay in the buffer.
use fma_common.Common.{
  ℕ, suc, ◌+◌, ◌≤◌, ◌≡◌, refl, ◌∙◌, ap₂, [], ◌∷◌, ◌++◌, Bool, true, false, arith, Bytes,
  if◌then◌else◌, length, All, append-nil, append_assoc,
}
use fma_common.TextParser.Chars.{is_blank, is_csv_ignoreable, is_graphical}
use fma_common.TextParser.Fields.{
  take_while, skip_while, quoted, after_quote, unquoted, csv_from, parse_csv_string,
  drop_graphical_field, parse_graphical_string,
}

-- `rest` does not begin with a byte of the class.
abbrev pub Stops : (ℕ → Bool) → Bytes → Type 0
Stops test [] = Unit {0}
Stops test (c ∷ rest) = test c ≡ false

abbrev pub AllIn : (ℕ → Bool) → Bytes → Type 0
AllIn test = All (λ c. test c ≡ true)

take_while_lem :
    (test : ℕ → Bool) (word rest : Bytes) (n : ℕ) (s : Bytes)
    → AllIn test word
    → Stops test rest
    → take_while test (word ++ rest) n s ≡ (n + length word, s ++ word)
unfolding take_while
take_while_lem test [] [] n s hw hr = ground (arith, append-nil s)
take_while_lem test [] (c ∷ rest) n s hw hr = ground (arith, append-nil s)
take_while_lem test (c ∷ word) rest n s (hc, hw) hr =
    ground (
      arith,
      take_while_lem test word rest (suc n) (s ++ c ∷ []) hw hr,
      append_assoc s (c ∷ []) word,
    )

-- Of graphical bytes and a rest that does not begin with one, `ParseGraphicalString` returns the
-- former, and consumes as many.
pub parse_graphical_string_lem :
    (word rest : Bytes)
    → AllIn is_graphical word
    → Stops is_graphical rest
    → parse_graphical_string (word ++ rest) ≡ (length word, word)
unfolding parse_graphical_string
parse_graphical_string_lem word rest hw hr =
    take_while_lem is_graphical word rest 0 [] hw hr ∙ ap₂ pair (omega arith) refl
  where
    pair : ℕ → Bytes → ℕ × Bytes
    pair n s = (n, s)

skip-take :
    (test : ℕ → Bool) (b : Bytes) (n : ℕ) (s : Bytes)
    → (skip_while test b n).0 ≡ (take_while test b n s).0
unfolding skip_while take_while
skip-take test [] n s = refl
skip-take test (c ∷ b) n s = ground (arith, skip-take test b (suc n) (s ++ c ∷ []))

-- Dropping a graphical field consumes exactly what parsing it does.
pub drop-parse_graphical : (b : Bytes) → drop_graphical_field b ≡ (parse_graphical_string b).0
unfolding drop_graphical_field parse_graphical_string
drop-parse_graphical b = skip-take is_graphical b 0 []

mutual
  unfolding quoted

  quoted-le :
      (ignore : ℕ → Bool) (b : Bytes) (n : ℕ) (s : Bytes) → (quoted ignore b n s).0 ≤ n + length b
  quoted-le ignore [] n s = omega arith
  quoted-le ignore (c ∷ b) n s = ground (
    arith,
    quoted-le ignore b (suc n) s,
    quoted-le ignore b (suc n) (s ++ c ∷ []),
    after_quote-le ignore b (suc n) s,
  )

  after_quote-le :
      (ignore : ℕ → Bool) (b : Bytes) (n : ℕ) (s : Bytes)
      → (after_quote ignore b n s).0 ≤ n + length b
  after_quote-le ignore [] n s = omega arith
  after_quote-le ignore (c ∷ b) n s = ground (arith, quoted-le ignore b (suc n) (s ++ c ∷ []))

unquoted-le : (b : Bytes) (n : ℕ) (s : Bytes) → (unquoted b n s).0 ≤ n + length b
unfolding unquoted
unquoted-le [] n s = omega arith
unquoted-le (c ∷ b) n s =
    ground (arith, unquoted-le b (suc n) (if is_csv_ignoreable c then s else s ++ c ∷ []))

pub skip_while_split :
    (test : ℕ → Bool) (b : Bytes) (n : ℕ)
    → (skip_while test b n).0 + length (skip_while test b n).1 ≡ n + length b
unfolding skip_while
skip_while_split test [] n = omega arith
skip_while_split test (c ∷ b) n = ground (arith, skip_while_split test b (suc n))

csv_from-le : (p : ℕ × Bytes) → (csv_from p).0 ≤ p.0 + length p.1
unfolding csv_from
csv_from-le (n, []) = omega arith
csv_from-le (n, c ∷ b) =
    ground (arith, quoted-le is_csv_ignoreable b (suc n) [], unquoted-le (c ∷ b) n [])

-- `ParseCsvString` consumes no more than the buffer holds.
pub parse_csv_string-le : (b : Bytes) → (parse_csv_string b).0 ≤ length b
unfolding parse_csv_string
parse_csv_string-le b =
    omega (arith, csv_from-le (skip_while is_blank b 0), skip_while_split is_blank b 0)
