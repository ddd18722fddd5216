-- ===== src/Configuration.antt =====
-- fma-common/configuration.h, class `Configuration`: adding options and parsing the arguments of a
-- command line, with the members of `OptionBase` (fma-common/option.h) that this reads and writes. A
-- shared pointer to an option is its position in `options_`. `none` is a `ConfigurationError`. An
-- argument stands with its entry of `taken`.
pub mod Steps
pub mod Errors
pub mod Named
pub mod Typed
mod Tests
use fma_common.Common.{
  ℕ, zero, suc, ◌+◌, Bool, true, false, not, ◌||◌, Option, none, some, List, [], ◌∷◌, ◌++◌, Bytes,
  codes, eq_bytes, ◌==◌, if◌then◌else◌, ◌>>=◌, length, get_elem?, map,
}

pub record OptionBase : Type 0 where
  pub keys : List Bytes
  -- `value_string_`, where `has_value_string_` is set
  pub value_string : Option Bytes
  pub preserve : Bool

pub record Configuration : Type 0 where
  pub named_options : List (Bytes × ℕ)
  pub positional_options : List ℕ
  pub bool_options : List Bytes
  pub positional_index : ℕ
  pub options : List OptionBase

-- `find` of the map.
unfoldable pub find_option : Bytes → List (Bytes × ℕ) → Option ℕ
find_option key [] = none
find_option key ((k, o) ∷ os) = if eq_bytes k key then some o else find_option key os

-- The loop over the keys of an option.
unfoldable pub add_keys : ℕ → List Bytes → List (Bytes × ℕ) → Option (List (Bytes × ℕ))
add_keys o [] named = some named
add_keys o (key ∷ keys) named =
    let rest = add_keys o keys (named ++ (key, o) ∷ []) in
    elim (find_option key named) [ none ↦ rest | some _ ↦ none ]

unfoldable pub add_option : OptionBase → Configuration → Option Configuration
add_option option c =
    let o = length c.options in
    let listed = record c { options = c.options ++ option ∷ [] } in
    if length option.keys == 0
    then some (record listed { positional_options = c.positional_options ++ o ∷ [] })
    else (add_keys o option.keys c.named_options >>= λ named.
        some (record listed { named_options = named }))

-- `AddBinary`: the keys are also those of options without a value.
unfoldable pub add_binary : OptionBase → Configuration → Option Configuration
add_binary option c =
    add_option option c >>= λ d. some (record d { bool_options = d.bool_options ++ option.keys })

-- The constructor: the first argument is the name of the program.
unfoldable pub new_configuration : Configuration
new_configuration = record {
  named_options = [];
  positional_options = 0 ∷ [];
  bool_options = [];
  positional_index = 0;
  options = record { keys = []; value_string = none; preserve = true } ∷ [];
}

-- The option of `--help`, which `Parse` adds where it is missing.
unfoldable pub add_help : Configuration → Option Configuration
add_help c = elim (find_option (codes "help") c.named_options) [
  | none ↦
      add_binary
        (record { keys = codes "help" ∷ codes "h" ∷ []; value_string = none; preserve = true }) c
  | some _ ↦ some c
]

unfoldable pub set_value_string : List OptionBase → ℕ → Bytes → List OptionBase
set_value_string [] o value = []
set_value_string (option ∷ options) zero value =
    record option { value_string = some value } ∷ options
set_value_string (option ∷ options) (suc o) value = option ∷ set_value_string options o value

unfoldable pub preserve_at : List OptionBase → ℕ → Bool
preserve_at [] o = false
preserve_at (option ∷ options) zero = option.preserve
preserve_at (option ∷ options) (suc o) = preserve_at options o

abbrev pub hyphen : ℕ
hyphen = 45

unfoldable pub starts_with_hyphen : Bytes → Bool
starts_with_hyphen [] = false
starts_with_hyphen (c ∷ cs) = c == hyphen

-- `key_str`, behind one or two hyphens.
unfoldable pub key_str : Bytes → Bytes
key_str [] = []
key_str (_ ∷ []) = []
key_str (_ ∷ c ∷ cs) = if c == hyphen then cs else c ∷ cs

unfoldable pub is_bool : Bytes → List Bytes → Bool
is_bool key [] = false
is_bool key (k ∷ ks) = if eq_bytes k key then true else is_bool key ks

-- What a round of the loop does: it throws, or consumes one argument or two, and sets their entries of
-- `taken` or leaves them.
pub data Round : Type 0 where
  throws : Round
  one : Configuration → Bool → Round
  two : Configuration → Bool → Round

unfoldable pub assign : ℕ → Bytes → Configuration → Configuration
assign o value c = record c { options = set_value_string c.options o value }

-- `opt` is an option with a name; `following` is `argv[i + 1]`, where `i + 1 < argc`.
unfoldable pub parse_option : Configuration → Bytes → Option Bytes → ℕ → Round
parse_option c key following o =
    let took = not (preserve_at c.options o) in
    if is_bool key c.bool_options
    then one (assign o (codes "true") c) took
    else elim following [ none ↦ throws | some value ↦ two (assign o value c) took ]

unfoldable pub skip_unknown : Bool → Configuration → Option Bytes → Round
skip_unknown permissive c following =
    if permissive
    then elim following [
      | none ↦ one c false
      | some value ↦ if starts_with_hyphen value then one c false else two c false
    ]
    else throws

unfoldable pub parse_positional : Configuration → Bytes → Round
parse_positional c arg = elim (get_elem? c.positional_options c.positional_index) [
  | none ↦ one c false
  | some o ↦
      one (assign o arg (record c { positional_index = suc c.positional_index }))
        (not (preserve_at c.options o))
]

-- The body of the loop.
unfoldable pub parse_arg : Bool → Configuration → Bytes × Bool → Option Bytes → Round
parse_arg permissive c (arg, taken) following =
    let key = key_str arg in
    if taken
    then one c false
    else if starts_with_hyphen arg
    then elim (find_option key c.named_options) [
      | none ↦ skip_unknown permissive c following
      | some o ↦ parse_option c key following o
    ]
    else parse_positional c arg

abbrev pub mark : Bool → Bytes × Bool → Bytes × Bool
mark took (arg, taken) = (arg, took || taken)

unfoldable pub behind :
    List (Bytes × Bool)
    → Option (Configuration × List (Bytes × Bool))
    → Option (Configuration × List (Bytes × Bool))
behind done rest = rest >>= λ (c, args). some (c, done ++ args)

unfoldable pub parse_args :
    Bool → List (Bytes × Bool) → Configuration → Option (Configuration × List (Bytes × Bool))
parse_args permissive [] c = some (c, [])
parse_args permissive (a ∷ []) c = elim (parse_arg permissive c a none) [
  | throws ↦ none
  | one d took ↦ some (d, mark took a ∷ [])
  | two d took ↦ some (d, mark took a ∷ [])
]
parse_args permissive (a ∷ b ∷ args) c = elim (parse_arg permissive c a (some b.0)) [
  | throws ↦ none
  | one d took ↦ behind (mark took a ∷ []) (parse_args permissive (b ∷ args) d)
  | two d took ↦ behind (mark took a ∷ mark took b ∷ []) (parse_args permissive args d)
]

-- `Parse` with an empty `taken`.
unfoldable pub parse :
    Bool → List Bytes → Configuration → Option (Configuration × List (Bytes × Bool))
parse permissive argv c = add_help c >>= parse_args permissive (map (λ a. (a, false)) argv)

-- The arguments that are not taken.
unfoldable pub remaining_args : List (Bytes × Bool) → List Bytes
remaining_args [] = []
remaining_args ((a, taken) ∷ args) = if taken then remaining_args args else a ∷ remaining_args args

unfoldable pub parse_and_remove : List Bytes → Configuration → Option (Configuration × List Bytes)
parse_and_remove argv c = parse true argv c >>= λ (d, args). some (d, remaining_args args)
