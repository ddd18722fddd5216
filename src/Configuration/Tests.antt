-- ===== src/Configuration/Tests.antt =====
-- Command lines of a configuration (fma-common/configuration.h).
use fma_common.Common.{
  ℕ, ◌≡◌, ◌⊎◌, refl, Bool, true, false, none, some, List, [], ◌∷◌, ◌++◌, Bytes, codes, ◌>>=◌, arith,
}
use fma_common.Configuration.{
  OptionBase, Configuration, find_option, add_keys, add_option, add_binary, new_configuration,
  add_help, starts_with_hyphen, key_str, is_bool, preserve_at, parse, parse_and_remove,
}
use fma_common.Configuration.Steps.{value_at}
use fma_common.Configuration.Errors.{WantsValue, parse-cases}
use fma_common.Configuration.Named.{
  Item, option, flag, unknown, word, args_of, parse_and_remove_lem,
}

abbrev option_demo : List Bytes → Bool → OptionBase
option_demo keys preserve = record { keys = keys; value_string = none; preserve = preserve }

abbrev config_demo : Configuration
config_demo = record {
  named_options =
      (codes "name", 1) ∷ (codes "n", 1) ∷ (codes "v", 2) ∷ (codes "help", 3) ∷ (codes "h", 3) ∷ [];
  positional_options = 0 ∷ [];
  bool_options = codes "v" ∷ codes "help" ∷ codes "h" ∷ [];
  positional_index = 0;
  options =
      option_demo [] true
      ∷ option_demo (codes "name" ∷ codes "n" ∷ []) false
      ∷ option_demo (codes "v" ∷ []) false
      ∷ option_demo (codes "help" ∷ codes "h" ∷ []) true
      ∷ [];
}

built_demo :
    (add_option (option_demo (codes "name" ∷ codes "n" ∷ []) false) new_configuration >>= λ c.
    add_binary (option_demo (codes "v" ∷ []) false) c >>= add_help)
    ≡ some config_demo
unfolding add_option add_binary add_help add_keys find_option new_configuration
built_demo = refl

-- Two options of the same name.
twice_demo :
    (add_option (option_demo (codes "n" ∷ []) false) new_configuration
      >>= add_option (option_demo (codes "n" ∷ []) true))
    ≡ none
unfolding add_option add_keys find_option new_configuration
twice_demo = refl

abbrev items_demo : List Item
items_demo =
    option (codes "--name") (codes "x") 1
    ∷ word (codes "file")
    ∷ flag (codes "-v") 2
    ∷ unknown (codes "--other") (codes "1")
    ∷ option (codes "-n") (codes "-y") 1
    ∷ []

parse_and_remove_example :
    (d : Configuration) × (parse_and_remove (codes "prog" ∷ args_of items_demo) config_demo
      ≡ some (d, codes "prog" ∷ codes "file" ∷ codes "--other" ∷ codes "1" ∷ []))
    × (value_at d.options 1 ≡ some (codes "-y"))
unfolding find_option starts_with_hyphen preserve_at key_str is_bool
parse_and_remove_example =
    parse_and_remove_lem config_demo (codes "prog") 0 3 items_demo 1 refl refl refl refl refl
      (
        (refl, refl, refl, refl),
        (refl, ((refl, refl, refl, refl), ((refl, refl, refl), ((refl, refl, refl, refl), tt)))),
      )
      (omega arith)

abbrev lacking_demo : List Bytes
lacking_demo = codes "prog" ∷ codes "-v" ∷ codes "--name" ∷ []

parse-cases_example :
    ((d : Configuration) × (marked : List (Bytes × Bool)) × (parse true lacking_demo config_demo
        ≡ some (d, marked)))
    ⊎ ((find_option (codes "help") config_demo.named_options ≡ none)
        × ((o : ℕ) × (find_option (codes "h") config_demo.named_options ≡ some o)))
    ⊎ ((d : Configuration) × (before : List Bytes) × (last : Bytes) × (add_help config_demo
          ≡ some d)
        × (lacking_demo ≡ before ++ last ∷ [])
        × WantsValue d (last, false))
parse-cases_example = parse-cases config_demo lacking_demo
