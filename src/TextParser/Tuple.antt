-- ===== src/TextParser/Tuple.antt =====
-- `ParseT`, `ParseNext` and `TupleParser` of fma-common/text_parser.h: a line as a tuple of fields. The
-- types of the tuple are a list of kinds; the position `s` is relative to the buffer's start, and the
-- list is what begins there.
pub mod Bounds
mod Tests
use fma_common.Common.{
  ℕ, suc, ◌+◌, ◌-◌, List, [], ◌∷◌, Bytes, Bool, true, false, not, ◌||◌, ◌==◌, if◌then◌else◌, length,
  drop,
}
use fma_common.Common.Int.{ℤ}
use fma_common.TextParser.Chars.{is_graphical, is_new_line, is_blank}
use fma_common.TextParser.Lines.{find_next_line}
use fma_common.TextParser.Numbers.{Parsed, failed, parsed, overflow, parse_digit, parse_bool}
use fma_common.TextParser.Fields.{
  skip_while, parse_graphical_string, drop_graphical_field, parse_csv_string, drop_csv_field,
}

-- The element types; an integer has the limits of its type.
pub data Kind : Type 0 where
  drop_field : Kind
  graphical_string : Kind
  csv_string : Kind
  string : Kind
  char : Kind
  integer : ℤ → ℤ → Kind
  boolean : Kind

pub data Field : Type 0 where
  dropped : Field
  text : Bytes → Field
  letter : ℕ → Field
  number : ℤ → Field
  flag : Bool → Field

-- The position behind the tuple and its fields; an exception; an integer that overflows.
pub data Outcome : Type 0 where
  done : ℕ → List Field → Outcome
  error : Outcome
  undefined : Outcome

of_text : ℕ × Bytes → Parsed Field
of_text (n, s) = parsed n (text s)

of_parsed : {A : Type 0} → (A → Field) → Parsed A → Parsed Field
of_parsed field failed = failed
of_parsed field overflow = overflow
of_parsed field (parsed n a) = parsed n (field a)

parse_char : Bytes → Parsed Field
parse_char [] = failed
parse_char (c ∷ b) = parsed 1 (letter c)

-- `ParseT<T, CSV>`
pub parse_t : Bool → Kind → Bytes → Parsed Field
unfolding of_text of_parsed parse_char
parse_t true drop_field b = parsed (drop_csv_field b) dropped
parse_t false drop_field b = parsed (drop_graphical_field b) dropped
parse_t csv graphical_string b = of_text (parse_graphical_string b)
parse_t csv csv_string b = of_text (parse_csv_string b)
parse_t true string b = of_text (parse_csv_string b)
parse_t false string b = of_text (parse_graphical_string b)
parse_t csv char b = parse_char b
parse_t csv (integer lo hi) b = of_parsed number (parse_digit lo hi b)
parse_t csv boolean b = of_parsed flag (parse_bool b)

-- The byte that must stand between two fields.
unfoldable pub delimiter : Bool → ℕ → Bool
delimiter csv c = if csv then c == b',' else is_blank c

add_field : Field → Outcome → Outcome
add_field v (done n vs) = done n (v ∷ vs)
add_field v error = error
add_field v undefined = undefined

-- `ParseNext<T, i, CSV>`
pub parse_next : Bool → List Kind → Bytes → ℕ → Outcome
unfolding add_field delimiter
parse_next csv [] b s = done s []
parse_next csv (k ∷ ks) b s =
    let at = skip_while (λ c. not (is_graphical c)) b 0 in
    elim (parse_t csv k at.1) [
      | failed ↦ error
      | overflow ↦ undefined
      | parsed r v ↦ if r == 0 then error else elim ks [
        | [] ↦ done (s + at.0 + r) (v ∷ [])
        | next ∷ more ↦
            let gap = skip_while (λ c. not (delimiter csv c || is_new_line c)) (drop r at.1) 0 in
            elim gap.1 [
              | [] ↦ error
              | c ∷ rest ↦
                  if is_new_line c
                  then error
                  else if delimiter csv c
                  then add_field v (parse_next csv ks rest (s + at.0 + r + gap.0 + 1))
                  else error
            ]
      ]
    ]

-- `TupleParser`: the position behind the line, and whether any byte was consumed.
pub parse_as_tuple : Bool → List Kind → Bytes → Outcome × ℕ × Bool
parse_as_tuple csv ks b = elim (parse_next csv ks b 0) [
  | error ↦ (error, 0, false)
  | undefined ↦ (undefined, 0, false)
  | done s vs ↦ (done s vs, length b - length (find_next_line (drop s b)), not (s == 0))
]
