-- ===== src/TextParser/Tuple/Bounds.antt =====
-- A tuple (fma-common/text_parser.h) has as many fields as types, and stays within the buffer.
use fma_common.Common.{
  ℕ, suc, ◌+◌, ◌≤◌, ◌≡◌, refl, sym, ◌∙◌, ap, inl, inr, List, [], ◌∷◌, Bytes, Bool, true, false, not,
  ◌||◌, arith, ◌==◌, if◌then◌else◌, length, drop, length-drop, Bool-cases,
}
use fma_common.TextParser.Chars.{is_graphical, is_new_line}
use fma_common.TextParser.Numbers.{Parsed, failed, parsed, overflow}
use fma_common.TextParser.Numbers.Bounds.{parse_digit-le, parse_bool-le}
use fma_common.TextParser.Fields.{
  skip_while, parse_graphical_string, drop_graphical_field, drop_csv_field,
}
use fma_common.TextParser.Fields.Csv.{drop-parse}
use fma_common.TextParser.Fields.Spans.{skip_while_split, parse_csv_string-le, drop-parse_graphical}
use fma_common.TextParser.Tuple.{
  Kind, drop_field, graphical_string, csv_string, string, char, integer, boolean, Field, Outcome,
  done, error, undefined, of_text, of_parsed, parse_char, parse_t, parse_next, delimiter, add_field,
}

of_text-le :
    (p : ℕ × Bytes) (b : Bytes) {n : ℕ} {v : Field}
    → p.0 ≤ length b
    → of_text p ≡ parsed n v
    → n ≤ length b
unfolding of_text
of_text-le (m, s) b {n} {v} h e = let size : m ≡ n = cc in rw (sym size) h

of_parsed-le :
    {A : Type 0} (field : A → Field) (r : Parsed A) (b : Bytes) {n : ℕ} {v : Field}
    → ((m : ℕ) (a : A) → r ≡ parsed m a → m ≤ length b)
    → of_parsed field r ≡ parsed n v
    → n ≤ length b
unfolding of_parsed
of_parsed-le field failed b h e = absurd cc
of_parsed-le field overflow b h e = absurd cc
of_parsed-le field (parsed m a) b {n} {v} h e = let size : m ≡ n = cc in rw (sym size) (h m a refl)

drop_graphical-le : (b : Bytes) → drop_graphical_field b ≤ length b
unfolding drop_graphical_field
drop_graphical-le b = omega (arith, skip_while_split is_graphical b 0)

graphical-le : (b : Bytes) → (parse_graphical_string b).0 ≤ length b
graphical-le b = rw (sym (drop-parse_graphical b)) (drop_graphical-le b)

parse_char-le : (b : Bytes) {n : ℕ} {v : Field} → parse_char b ≡ parsed n v → n ≤ length b
unfolding parse_char
parse_char-le [] e = absurd cc
parse_char-le (c ∷ b) {n} {v} e = let size : 1 ≡ n = cc in rw (sym size) (omega arith)

drop_csv-le : (b : Bytes) → drop_csv_field b ≤ length b
drop_csv-le b = rw (drop-parse b) (parse_csv_string-le b)

pub parse_t-le :
    (csv : Bool) (k : Kind) (b : Bytes) {n : ℕ} {v : Field}
    → parse_t csv k b ≡ parsed n v
    → n ≤ length b
unfolding parse_t
parse_t-le true drop_field b {n} {v} e =
    let size : drop_csv_field b ≡ n = cc in rw (sym size) (drop_csv-le b)
parse_t-le false drop_field b {n} {v} e =
    let size : drop_graphical_field b ≡ n = cc in rw (sym size) (drop_graphical-le b)
parse_t-le csv graphical_string b e = of_text-le _ b (graphical-le b) e
parse_t-le csv csv_string b e = of_text-le _ b (parse_csv_string-le b) e
parse_t-le true string b e = of_text-le _ b (parse_csv_string-le b) e
parse_t-le false string b e = of_text-le _ b (graphical-le b) e
parse_t-le csv char b e = parse_char-le b e
parse_t-le csv (integer lo hi) b e = of_parsed-le _ _ b (λ m a. parse_digit-le lo hi b) e
parse_t-le csv boolean b e = of_parsed-le _ _ b (λ m a. parse_bool-le b) e

abbrev blanks : Bytes → ℕ × Bytes
blanks b = skip_while (λ c. not (is_graphical c)) b 0

abbrev gap_after : Bool → Bytes → ℕ → ℕ × Bytes
gap_after csv b r = skip_while (λ c. not (delimiter csv c || is_new_line c)) (drop r (blanks b).1) 0

no_fields : (csv : Bool) (b : Bytes) (s : ℕ) → parse_next csv [] b s ≡ done s []
unfolding parse_next
no_fields csv b s = refl

-- The last field of a tuple.
last_field :
    (csv : Bool) (k : Kind) (b : Bytes) (s : ℕ) {t : ℕ} {vs : List Field}
    → parse_next csv (k ∷ []) b s ≡ done t vs
    → (r : ℕ) × (v : Field) × (parse_t csv k (blanks b).1 ≡ parsed r v)
      × (s + (blanks b).0 + r ≡ t)
      × (v ∷ [] ≡ vs)
unfolding parse_next
last_field csv k b s {t} {vs} e = from (parse_t csv k (blanks b).1) refl
  where
    from :
        (p : Parsed Field)
        → parse_t csv k (blanks b).1 ≡ p
        → (r : ℕ) × (v : Field) × (parse_t csv k (blanks b).1 ≡ parsed r v)
          × (s + (blanks b).0 + r ≡ t)
          × (v ∷ [] ≡ vs)
    from failed h = absurd (let gone : error ≡ done t vs = rw (parse_next, h) at e in cc)
    from overflow h = absurd (let gone : undefined ≡ done t vs = rw (parse_next, h) at e in cc)
    from (parsed r v) h =
        let made : (if r == 0 then error else done (s + (blanks b).0 + r) (v ∷ [])) ≡ done t vs =
          rw (parse_next, h) at e in
        elim (Bool-cases (r == 0)) [
          | inl none_read ↦ absurd (let gone : error ≡ done t vs = rw none_read at made in cc)
          | inr read ↦
              let same : done (s + (blanks b).0 + r) (v ∷ []) ≡ done t vs = rw read at made in
              let at : s + (blanks b).0 + r ≡ t = cc in
              let fields : v ∷ [] ≡ vs = cc in (r, v, h, at, fields)
        ]

-- What stands between the bytes of one field and the next.
abbrev between : Bool → List Kind → Field → ℕ → Bytes → Outcome
between csv ks v s [] = error
between csv ks v s (c ∷ rest) =
    if is_new_line c
    then error
    else if delimiter csv c
    then add_field v (parse_next csv ks rest s)
    else error

add_field_done :
    (v : Field) (o : Outcome) {t : ℕ} {vs : List Field}
    → add_field v o ≡ done t vs
    → (ws : List Field) × (o ≡ done t ws) × (v ∷ ws ≡ vs)
unfolding add_field
add_field_done v (done n ws) {t} {vs} e =
    let at : n ≡ t = cc in let fields : v ∷ ws ≡ vs = cc in (ws, rw at refl, fields)
add_field_done v error e = absurd cc
add_field_done v undefined e = absurd cc

between_done :
    (csv : Bool) (ks : List Kind) (v : Field) (s : ℕ) (gap : Bytes) {t : ℕ} {vs : List Field}
    → between csv ks v s gap ≡ done t vs
    → (c : ℕ) × (rest : Bytes) × (ws : List Field) × (gap ≡ c ∷ rest)
      × (parse_next csv ks rest s ≡ done t ws)
      × (v ∷ ws ≡ vs)
between_done csv ks v s [] e = absurd cc
between_done csv ks v s (c ∷ rest) {t} {vs} e =
    let made : add_field v (parse_next csv ks rest s) ≡ done t vs = ground arith in
    let (ws, rec, fields) = add_field_done v (parse_next csv ks rest s) made in
    (c, rest, ws, refl, rec, fields)

-- A field with more behind it.
first_field :
    (csv : Bool) (k next : Kind) (ks : List Kind) (b : Bytes) (s : ℕ) {t : ℕ} {vs : List Field}
    → parse_next csv (k ∷ next ∷ ks) b s ≡ done t vs
    → (r : ℕ) × (v : Field) × (c : ℕ) × (rest : Bytes) × (ws : List Field) × (parse_t csv k
          (blanks b).1
        ≡ parsed r v)
      × ((gap_after csv b r).1 ≡ c ∷ rest)
      × (parse_next csv (next ∷ ks) rest (s + (blanks b).0 + r + (gap_after csv b r).0 + 1)
          ≡ done t ws)
      × (v ∷ ws ≡ vs)
unfolding parse_next
first_field csv k next ks b s {t} {vs} e = from (parse_t csv k (blanks b).1) refl
  where
    from :
        (p : Parsed Field)
        → parse_t csv k (blanks b).1 ≡ p
        → (r : ℕ) × (v : Field) × (c : ℕ) × (rest : Bytes) × (ws : List Field) × (parse_t csv k
              (blanks b).1
            ≡ parsed r v)
          × ((gap_after csv b r).1 ≡ c ∷ rest)
          × (parse_next csv (next ∷ ks) rest (s + (blanks b).0 + r + (gap_after csv b r).0 + 1)
              ≡ done t ws)
          × (v ∷ ws ≡ vs)
    from failed h = absurd (let gone : error ≡ done t vs = rw (parse_next, h) at e in cc)
    from overflow h = absurd (let gone : undefined ≡ done t vs = rw (parse_next, h) at e in cc)
    from (parsed r v) h =
        let made : (if r == 0
              then error
              else between csv (next ∷ ks) v (s + (blanks b).0 + r + (gap_after csv b r).0 + 1)
                  (gap_after csv b r).1)
            ≡ done t vs =
          rw (parse_next, h) at e in
        elim (Bool-cases (r == 0)) [
          | inl none_read ↦ absurd (let gone : error ≡ done t vs = rw none_read at made in cc)
          | inr read ↦
              let (c, rest, ws, g, rec, fields) =
                between_done csv (next ∷ ks) v _ (gap_after csv b r).1 (rw read at made) in
              (r, v, c, rest, ws, h, g, rec, fields)
        ]

-- A tuple that is parsed has as many fields as types, and ends within the buffer: at most as many
-- bytes behind `s` as the buffer holds.
pub parse_next-le :
    (csv : Bool) (ks : List Kind) (b : Bytes) (s : ℕ) {t : ℕ} {vs : List Field}
    → parse_next csv ks b s ≡ done t vs
    → (t ≤ s + length b) × (length vs ≡ length ks)
parse_next-le csv [] b s {t} {vs} e =
    let made : done s [] ≡ done t vs = sym (no_fields csv b s) ∙ e in
    let at : s ≡ t = cc in let fields : [] ≡ vs = cc in (omega arith, ap length (sym fields))
parse_next-le csv (k ∷ []) b s e =
    let (r, v, h, at, fields) = last_field csv k b s e in
    (
      omega (
        arith,
        parse_t-le csv k (blanks b).1 h,
        skip_while_split (λ c. not (is_graphical c)) b 0,
      ),
      ap length (sym fields),
    )
parse_next-le csv (k ∷ next ∷ ks) b s e =
    let (r, v, c, rest, ws, h, g, rec, fields) = first_field csv k next ks b s e in
    let (le, size) = parse_next-le csv (next ∷ ks) rest _ rec in
    (
      omega (
        arith,
        le,
        parse_t-le csv k (blanks b).1 h,
        skip_while_split (λ d. not (is_graphical d)) b 0,
        skip_while_split (λ d. not (delimiter csv d || is_new_line d)) (drop r (blanks b).1) 0,
        length-drop r (blanks b).1,
        ap length g,
      ),
      ap length (sym fields) ∙ ap suc size,
    )
