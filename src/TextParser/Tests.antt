-- ===== src/TextParser/Tests.antt =====
-- Runs of the parsers of fma-common/text_parser.h on concrete buffers.
use fma_common.Common.{
  ◌&&◌, ◌+◌, ◌≡◌, refl, Bool, false, [], ◌∷◌, ◌++◌, arith, Bytes, All, length, ◌==◌, leb,
  if◌then◌else◌,
}
use fma_common.Common.Int.{pos, negsuc, with_sign, leb_ℤ}
use fma_common.TextParser.Chars.{is_digits, is_graphical, is_new_line, is_csv_ignoreable}
use fma_common.TextParser.Lines.{find_next_line, find_next_line_lem, LineEnd, IsLine}
use fma_common.TextParser.Numbers.{failed, parsed, overflow, parse_int64, parse_digit, max_int64}
use fma_common.TextParser.Numbers.Value.{parse_int64-cases, Sign, value, AreDigits, StopsDigits}
use fma_common.TextParser.Numbers.Words.{parse_digit-cases}
use fma_common.TextParser.Fields.{parse_csv_string, drop_csv_field}
use fma_common.TextParser.Fields.Csv.{drop-parse, in_quotes, Kept, parse_csv_string-in_quotes}
use fma_common.TextParser.Fields.Spans.{AllIn}

-- "ab\r\ncd"
abbrev two_lines : Bytes
two_lines = 97 ∷ 98 ∷ 13 ∷ 10 ∷ 99 ∷ 100 ∷ []

find_next_line_example :
    (line : Bytes) × (brk : Bytes) × (two_lines ≡ line ++ (brk ++ find_next_line two_lines))
    × IsLine line
    × LineEnd brk (find_next_line two_lines)
find_next_line_example = find_next_line_lem two_lines

abbrev digits_demo : Bytes
digits_demo = b'4' ∷ b'2' ∷ []

digits_demo-AreDigits : AreDigits digits_demo
unfolding is_digits
digits_demo-AreDigits = (refl, (refl, tt))

stops_demo : StopsDigits (b',' ∷ [])
unfolding is_digits
stops_demo = refl

parse_int64-cases_example :
    (neg : Bool) × (sign : Bytes) × (ds : Bytes) × (rest : Bytes) × Sign sign neg
    × (digits_demo ≡ sign ++ (ds ++ rest))
    × AreDigits ds
    × StopsDigits rest
    × (parse_int64 digits_demo ≡ (
        if length ds == 0
        then failed
        else if leb (value 0 ds) max_int64
        then parsed (length sign + length ds) (with_sign neg (value 0 ds))
        else overflow))
parse_int64-cases_example = parse_int64-cases digits_demo

parse_digit-cases_example :
    (neg : Bool) × (sign : Bytes) × (ds : Bytes) × (rest : Bytes) × Sign sign neg
    × (digits_demo ≡ sign ++ (ds ++ rest))
    × AreDigits ds
    × StopsDigits rest
    × (parse_digit (negsuc 7) (pos 7) digits_demo ≡ (
        if length ds == 0
        then failed
        else if leb (value 0 ds) max_int64
        then (if leb_ℤ (negsuc 7) (with_sign neg (value 0 ds))
              && leb_ℤ (with_sign neg (value 0 ds)) (pos 7)
            then parsed (length sign + length ds) (with_sign neg (value 0 ds))
            else failed)
        else overflow))
parse_digit-cases_example = parse_digit-cases (negsuc 7) (pos 7) digits_demo

-- The text a"b
abbrev quote_demo : Bytes
quote_demo = b'a' ∷ b'"' ∷ b'b' ∷ []

quote_demo-Kept : All (Kept is_csv_ignoreable) quote_demo
unfolding is_new_line is_csv_ignoreable
quote_demo-Kept = ((refl, refl), ((refl, refl), ((refl, refl), tt)))

quote_demo-All-Kept : All (Kept (λ _. false)) quote_demo
unfolding is_new_line
quote_demo-All-Kept = ((refl, refl), ((refl, refl), ((refl, refl), tt)))

drop-parse_example :
    drop_csv_field (in_quotes quote_demo) ≡ (parse_csv_string (in_quotes quote_demo)).0
drop-parse_example = drop-parse (in_quotes quote_demo)

parse_csv_string-in_quotes_example :
    parse_csv_string (in_quotes quote_demo ++ b',' ∷ [])
    ≡ (length (in_quotes quote_demo), quote_demo)
parse_csv_string-in_quotes_example =
    parse_csv_string-in_quotes quote_demo (b',' ∷ []) quote_demo-Kept (λ e. absurd (omega arith))

word_demo-AllIn : AllIn is_graphical digits_demo
unfolding is_graphical
word_demo-AllIn = (refl, (refl, tt))
