-- ===== src/TextParser/Tuple/Tests.antt =====
-- A run of the tuple parser of fma-common/text_parser.h.
use fma_common.Common.{◌+◌, ◌≤◌, ◌≡◌, refl, true, false, List, [], ◌∷◌, Bytes, length, false}
use fma_common.TextParser.Chars.{is_graphical, is_new_line, is_blank}
use fma_common.TextParser.Fields.{skip_while}
use fma_common.TextParser.Tuple.{
  Kind, char, Field, letter, done, parse_t, parse_next, parse_char, add_field,
}
use fma_common.TextParser.Tuple.Bounds.{parse_next-le}

-- " 4,a"
abbrev csv_demo : Bytes
csv_demo = b' ' ∷ b'4' ∷ b',' ∷ b'a' ∷ []

abbrev kinds_demo : List Kind
kinds_demo = char ∷ char ∷ []

abbrev fields_demo : List Field
fields_demo = letter b'4' ∷ letter b'a' ∷ []

csv_demo-parse_next : parse_next true kinds_demo csv_demo 0 ≡ done 4 fields_demo
unfolding parse_next parse_t parse_char add_field skip_while is_graphical is_new_line
csv_demo-parse_next = refl

parse_next_example : (4 ≤ 0 + length csv_demo) × (length fields_demo ≡ length kinds_demo)
parse_next_example = parse_next-le true kinds_demo csv_demo 0 csv_demo-parse_next

-- " 4" and a line break, and "a": a blank before the break hides it, and the second field is read
-- from the next line.
break_demo-parse_next :
    parse_next false kinds_demo (b'4' ∷ b' ' ∷ b'\n' ∷ b'a' ∷ []) 0 ≡ done 4 fields_demo
unfolding parse_next parse_t parse_char add_field skip_while is_graphical is_new_line is_blank
break_demo-parse_next = refl
