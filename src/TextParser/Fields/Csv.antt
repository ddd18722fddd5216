-- ===== src/TextParser/Fields/Csv.antt =====
-- Quoted and dropped CSV fields (fma-common/text_parser.h).
use fma_common.Common.{
  ℕ, suc, ◌+◌, ◌≡◌, refl, ◌≢◌, sym, ◌∙◌, ap, ap₂, ==_iff, [], ◌∷◌, ◌++◌, Bool, false, arith, Bytes,
  ◌==◌, if◌then◌else◌, length, All, append-nil, append_assoc, Bool-cases, inl, inr, length-append,
}
use fma_common.TextParser.Chars.{is_new_line, is_blank, is_csv_ignoreable}
use fma_common.TextParser.Fields.{
  skip_while, quoted, after_quote, unquoted, csv_from, parse_csv_string, parse_quoted_string,
  drop_quoted, drop_after_quote, drop_unquoted, drop_from, drop_csv_field,
}

mutual
  unfolding quoted drop_quoted

  drop-quoted :
      (b : Bytes) (n : ℕ) (s : Bytes) → drop_quoted b n ≡ (quoted is_csv_ignoreable b n s).0
  drop-quoted [] n s = refl
  drop-quoted (c ∷ b) n s = ground (
    arith,
    drop-quoted b (suc n) s,
    drop-quoted b (suc n) (s ++ c ∷ []),
    drop-after_quote b (suc n) s,
  )

  drop-after_quote :
      (b : Bytes) (n : ℕ) (s : Bytes)
      → drop_after_quote b n ≡ (after_quote is_csv_ignoreable b n s).0
  drop-after_quote [] n s = refl
  drop-after_quote (c ∷ b) n s = ground (arith, drop-quoted b (suc n) (s ++ c ∷ []))

drop-unquoted : (b : Bytes) (n : ℕ) (s : Bytes) → drop_unquoted b n ≡ (unquoted b n s).0
unfolding unquoted drop_unquoted
drop-unquoted [] n s = refl
drop-unquoted (c ∷ b) n s =
    ground (arith, drop-unquoted b (suc n) (if is_csv_ignoreable c then s else s ++ c ∷ []))

drop-from : (p : ℕ × Bytes) → drop_from p ≡ (csv_from p).0
unfolding drop_from csv_from
drop-from (n, []) = refl
drop-from (n, c ∷ b) = ground (arith, drop-quoted b (suc n) [], drop-unquoted (c ∷ b) n [])

-- Dropping a CSV field consumes exactly what parsing it as a string does.
pub drop-parse : (b : Bytes) → drop_csv_field b ≡ (parse_csv_string b).0
unfolding drop_csv_field parse_csv_string
drop-parse b = drop-from (skip_while is_blank b 0)

-- A text in quotes, with each quote doubled, as CSV writes it.
pub double_quotes : Bytes → Bytes
double_quotes [] = []
double_quotes (c ∷ s) = if c == b'"' then b'"' ∷ b'"' ∷ double_quotes s else c ∷ double_quotes s

abbrev pub in_quotes : Bytes → Bytes
in_quotes s = b'"' ∷ (double_quotes s ++ b'"' ∷ [])

-- A byte that a quoted string keeps.
abbrev pub Kept : (ℕ → Bool) → ℕ → Type 0
Kept ignore c = (is_new_line c ≡ false) × (ignore c ≡ false)

-- What follows the closing quote is no quote.
abbrev pub NoQuote : Bytes → Type 0
NoQuote [] = Unit {0}
NoQuote (c ∷ rest) = c ≢ b'"'

abbrev pair : ℕ → Bytes → ℕ × Bytes
pair n s = (n, s)

module _ (ignore : ℕ → Bool) (quote_kept : Kept ignore b'"') where
  after_quote_end :
      (rest : Bytes) (n : ℕ) (s : Bytes) → NoQuote rest → after_quote ignore rest n s ≡ (n, s)
  unfolding quoted
  after_quote_end [] n s h = refl
  after_quote_end (c ∷ rest) n s h = ground arith

  quoted_keep :
      (c : ℕ) (b : Bytes) (n : ℕ) (s : Bytes)
      → Kept ignore c
      → c ≢ b'"'
      → quoted ignore (c ∷ b) n s ≡ quoted ignore b (suc n) (s ++ c ∷ [])
  unfolding quoted
  quoted_keep c b n s k h = ground arith

  quoted_double :
      (b : Bytes) (n : ℕ) (s : Bytes)
      → quoted ignore (b'"' ∷ b'"' ∷ b) n s ≡ quoted ignore b (suc (suc n)) (s ++ b'"' ∷ [])
  unfolding quoted
  quoted_double b n s = rw (quote_kept.0, quote_kept.1) refl

  quoted_close :
      (b : Bytes) (n : ℕ) (s : Bytes)
      → quoted ignore (b'"' ∷ b) n s ≡ after_quote ignore b (suc n) s
  unfolding quoted
  quoted_close b n s = rw (quote_kept.0, quote_kept.1) refl

  quoted-double_quotes :
      (t rest : Bytes) (n : ℕ) (s : Bytes)
      → All (Kept ignore) t
      → NoQuote rest
      → quoted ignore (double_quotes t ++ b'"' ∷ rest) n s
        ≡ (n + length (double_quotes t) + 1, s ++ t)
  unfolding double_quotes
  quoted-double_quotes [] rest n s h q =
      rw (quoted_close rest n s, after_quote_end rest (suc n) s q, append-nil s)
        (ap (λ (m : ℕ). (m, s)) (omega arith))
  quoted-double_quotes (c ∷ t) rest n s (k, h) q = elim (Bool-cases (c == b'"')) [
    | inl e ↦
        let at : c ≡ b'"' = (==_iff c b'"').0 e in
        rw e (
          quoted_double (double_quotes t ++ b'"' ∷ rest) n s
          ∙ quoted-double_quotes t rest (suc (suc n)) (s ++ b'"' ∷ []) h q
          ∙ ap₂ pair (omega arith)
              (append_assoc s (b'"' ∷ []) t ∙ ap (λ (x : ℕ). s ++ x ∷ t) (sym at)))
    | inr e ↦ rw e (
        quoted_keep c (double_quotes t ++ b'"' ∷ rest) n s k (ground arith)
        ∙ quoted-double_quotes t rest (suc n) (s ++ c ∷ []) h q
        ∙ ap₂ pair (omega arith) (append_assoc s (c ∷ []) t))
  ]

-- A text of bytes that `ParseCsvString` keeps (no line break, nothing it ignores), written in
-- quotes before something that does not begin with a quote, is read back whole, and the quotes
-- are consumed with it.
pub parse_csv_string-in_quotes :
    (s rest : Bytes)
    → All (Kept is_csv_ignoreable) s
    → NoQuote rest
    → parse_csv_string (in_quotes s ++ rest) ≡ (length (in_quotes s), s)
unfolding parse_csv_string skip_while is_blank is_new_line is_csv_ignoreable
parse_csv_string-in_quotes s rest h q = rw (append_assoc (double_quotes s) (b'"' ∷ []) rest) (
    quoted-double_quotes is_csv_ignoreable (refl, refl) s rest 1 [] h q
    ∙ ap₂ pair (omega (arith, length-append (double_quotes s) (b'"' ∷ []))) refl)

-- `ParseQuotedString` keeps every byte but a line break, and appends to what `s` held.
pub parse_quoted_string-in_quotes :
    (s old rest : Bytes)
    → All (Kept (λ _. false)) s
    → NoQuote rest
    → parse_quoted_string (in_quotes s ++ rest) old ≡ (length (in_quotes s), old ++ s)
unfolding parse_quoted_string is_new_line
parse_quoted_string-in_quotes s old rest h q =
    rw (append_assoc (double_quotes s) (b'"' ∷ []) rest) (
      quoted-double_quotes (λ _. false) (refl, refl) s rest 1 old h q
      ∙ ap₂ pair (omega (arith, length-append (double_quotes s) (b'"' ∷ []))) refl)
