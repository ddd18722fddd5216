-- ===== src/Configuration/Named.antt =====
-- Command lines for `ParseAndRemove` (fma-common/configuration.h), described by the pieces that they
-- consist of.
use fma_common.Common.{
  ℕ, suc, ◌<◌, ◌≡◌, refl, ◌∙◌, ap, Bool, true, false, Option, none, some, List, [], ◌∷◌, ◌++◌,
  Bytes, codes, ◌==◌, if◌then◌else◌, length, get_elem?, map, All, arith,
}
use fma_common.Configuration.{
  OptionBase, Configuration, one, two, find_option, set_value_string, preserve_at,
  starts_with_hyphen, key_str, is_bool, assign, parse_option, skip_unknown, parse_positional,
  parse_arg, behind, parse_args, parse, add_help, remaining_args, parse_and_remove,
}
use fma_common.Configuration.Steps.{
  parse_args-one, parse_args-two, value_at, length-set_value_string, preserve_at-set_value_string,
  value_at-set_value_string,
}

-- A piece of a command line: an option and its value, an option without one, an argument that no option
-- is named by and its value, and a word.
pub data Item : Type 0 where
  option : Bytes → Bytes → ℕ → Item
  flag : Bytes → ℕ → Item
  unknown : Bytes → Bytes → Item
  word : Bytes → Item

abbrev pub args_of : List Item → List Bytes
args_of [] = []
args_of (option arg value o ∷ items) = arg ∷ value ∷ args_of items
args_of (flag arg o ∷ items) = arg ∷ args_of items
args_of (unknown arg value ∷ items) = arg ∷ value ∷ args_of items
args_of (word arg ∷ items) = arg ∷ args_of items

-- The arguments that name no option, and the words.
abbrev pub others : List Item → List Bytes
others [] = []
others (option arg value o ∷ items) = others items
others (flag arg o ∷ items) = others items
others (unknown arg value ∷ items) = arg ∷ value ∷ others items
others (word arg ∷ items) = arg ∷ others items

-- The value of option `o` behind the pieces, `value` being that before them.
abbrev pub last_value : List Item → ℕ → Option Bytes → Option Bytes
last_value [] o value = value
last_value (option arg v q ∷ items) o value = last_value items o (if q == o then some v else value)
last_value (flag arg q ∷ items) o value =
    last_value items o (if q == o then some (codes "true") else value)
last_value (unknown arg v ∷ items) o value = last_value items o value
last_value (word arg ∷ items) o value = last_value items o value

-- That the names and the options of a configuration read the piece like that.
abbrev pub IsItem : Configuration → Item → Type 0
IsItem c (option arg value o) =
    (starts_with_hyphen arg ≡ true)
    × (find_option (key_str arg) c.named_options ≡ some o)
    × (is_bool (key_str arg) c.bool_options ≡ false)
    × (preserve_at c.options o ≡ false)
IsItem c (flag arg o) =
    (starts_with_hyphen arg ≡ true)
    × (find_option (key_str arg) c.named_options ≡ some o)
    × (is_bool (key_str arg) c.bool_options ≡ true)
    × (preserve_at c.options o ≡ false)
IsItem c (unknown arg value) =
    (starts_with_hyphen arg ≡ true)
    × (find_option (key_str arg) c.named_options ≡ none)
    × (starts_with_hyphen value ≡ false)
IsItem c (word arg) = starts_with_hyphen arg ≡ false

abbrev unmarked : List Bytes → List (Bytes × Bool)
unmarked args = map (λ a. (a, false)) args

module _ (c : Configuration) where
  abbrev holding : List OptionBase → Configuration
  holding options = record c { options = options }

  -- What the loop does with the pieces: the options that it leaves, and the arguments.
  record After (items : List Item) (options : List OptionBase) : Type 0 where
    left : List OptionBase
    args : List (Bytes × Bool)
    runs : parse_args true (unmarked (args_of items)) (holding options) ≡ some (holding left, args)
    rest : remaining_args args ≡ others items
    same : length left ≡ length options
    values :
        (o : ℕ) → o < length options → value_at left o ≡ last_value items o (value_at options o)

  behind-runs :
      (done : List (Bytes × Bool)) (options left : List OptionBase) (args : List (Bytes × Bool))
      (r : List (Bytes × Bool))
      → parse_args true r (holding options) ≡ some (holding left, args)
      → behind done (parse_args true r (holding options)) ≡ some (holding left, done ++ args)
  unfolding behind
  behind-runs done options left args r h = rw (h) refl

  option_round :
      (arg value : Bytes) (q : ℕ) (options : List OptionBase)
      → ((o : ℕ) → preserve_at options o ≡ preserve_at c.options o)
      → IsItem c (option arg value q)
      → parse_arg true (holding options) (arg, false) (some value)
        ≡ two (holding (set_value_string options q value)) true
  unfolding parse_arg parse_option assign
  option_round arg value q options keeps ok = rw (ok.0, ok.1, ok.2, keeps q, ok.3) refl

  flag_round :
      (arg : Bytes) (q : ℕ) (options : List OptionBase) (following : Option Bytes)
      → ((o : ℕ) → preserve_at options o ≡ preserve_at c.options o)
      → IsItem c (flag arg q)
      → parse_arg true (holding options) (arg, false) following
        ≡ one (holding (set_value_string options q (codes "true"))) true
  unfolding parse_arg parse_option assign
  flag_round arg q options following keeps ok = rw (ok.0, ok.1, ok.2, keeps q, ok.3) refl

  unknown_round :
      (arg value : Bytes) (options : List OptionBase)
      → IsItem c (unknown arg value)
      → parse_arg true (holding options) (arg, false) (some value) ≡ two (holding options) false
  unfolding parse_arg skip_unknown
  unknown_round arg value options ok = rw (ok.0, ok.1, ok.2) refl

  word_round :
      (arg : Bytes) (options : List OptionBase) (following : Option Bytes)
      → get_elem? c.positional_options c.positional_index ≡ none
      → IsItem c (word arg)
      → parse_arg true (holding options) (arg, false) following ≡ one (holding options) false
  unfolding parse_arg parse_positional
  word_round arg options following used ok = rw (ok, used, parse_positional) refl

  parse_items :
      get_elem? c.positional_options c.positional_index ≡ none
      → (items : List Item) (options : List OptionBase)
      → ((o : ℕ) → preserve_at options o ≡ preserve_at c.options o)
      → All (IsItem c) items
      → After items options
  unfolding remaining_args
  parse_items used [] options keeps oks = record {
    left = options;
    args = [];
    runs = unfold parse_args in refl;
    rest = refl;
    same = refl;
    values = λ o h. refl;
  }
  parse_items used (option arg value q ∷ items) options keeps (ok, oks) =
      let set = set_value_string options q value in
      let size = length-set_value_string options q value in
      let t =
        parse_items used items set (λ o. preserve_at-set_value_string options q value o ∙ keeps o)
          oks in
      record {
        left = t.left;
        args = (arg, true) ∷ (value, true) ∷ t.args;
        runs =
            parse_args-two true true _ _ (arg, false) (value, false) _
              (option_round arg value q options keeps ok)
            ∙ behind-runs ((arg, true) ∷ (value, true) ∷ []) set t.left t.args _ t.runs;
        rest = t.rest;
        same = t.same ∙ size;
        values = λ o h.
            t.values o (omega (arith, size, h))
            ∙ ap (last_value items o) (value_at-set_value_string options q value o h);
      }
  parse_items used (flag arg q ∷ items) options keeps (ok, oks) =
      let set = set_value_string options q (codes "true") in
      let size = length-set_value_string options q (codes "true") in
      let t =
        parse_items used items set
          (λ o. preserve_at-set_value_string options q (codes "true") o ∙ keeps o) oks in
      record {
        left = t.left;
        args = (arg, true) ∷ t.args;
        runs =
            parse_args-one true true _ _ (arg, false) _ (λ f. flag_round arg q options f keeps ok)
            ∙ behind-runs ((arg, true) ∷ []) set t.left t.args _ t.runs;
        rest = t.rest;
        same = t.same ∙ size;
        values = λ o h.
            t.values o (omega (arith, size, h))
            ∙ ap (last_value items o) (value_at-set_value_string options q (codes "true") o h);
      }
  parse_items used (unknown arg value ∷ items) options keeps (ok, oks) =
      let t = parse_items used items options keeps oks in
      record {
        left = t.left;
        args = (arg, false) ∷ (value, false) ∷ t.args;
        runs =
            parse_args-two true false _ _ (arg, false) (value, false) _
              (unknown_round arg value options ok)
            ∙ behind-runs ((arg, false) ∷ (value, false) ∷ []) options t.left t.args _ t.runs;
        rest = ap (λ l. arg ∷ value ∷ l) t.rest;
        same = t.same;
        values = t.values;
      }
  parse_items used (word arg ∷ items) options keeps (ok, oks) =
      let t = parse_items used items options keeps oks in
      record {
        left = t.left;
        args = (arg, false) ∷ t.args;
        runs =
            parse_args-one true false _ _ (arg, false) _ (λ f. word_round arg options f used ok)
            ∙ behind-runs ((arg, false) ∷ []) options t.left t.args _ t.runs;
        rest = ap (λ l. arg ∷ l) t.rest;
        same = t.same;
        values = t.values;
      }

  program_round :
      (program : Bytes) (p : ℕ) (following : Option Bytes)
      → starts_with_hyphen program ≡ false
      → get_elem? c.positional_options c.positional_index ≡ some p
      → preserve_at c.options p ≡ true
      → parse_arg true c (program, false) following
        ≡ one (assign p program (record c { positional_index = suc c.positional_index })) false
  unfolding parse_arg parse_positional
  program_round program p following plain first kept =
      rw (plain, first, kept, parse_positional) refl

add_help-named :
    (c : Configuration) (h : ℕ)
    → find_option (codes "help") c.named_options ≡ some h
    → add_help c ≡ some c
unfolding add_help
add_help-named c h help = rw (help, add_help) refl

-- A command line of the name of the program and pieces that the names and the options of a
-- configuration read as such, its only argument by position being the preserved one of the program,
-- and `help` being among its names: `ParseAndRemove` does not throw, each option has the last of the
-- values that the pieces give it, or the one it had, and the name of the program, the arguments that
-- name no option, with their values, and the words are left, in their order.
pub parse_and_remove_lem :
    (c : Configuration) (program : Bytes) (p h : ℕ) (items : List Item) (o : ℕ)
    → find_option (codes "help") c.named_options ≡ some h
    → starts_with_hyphen program ≡ false
    → get_elem? c.positional_options c.positional_index ≡ some p
    → get_elem? c.positional_options (suc c.positional_index) ≡ none
    → preserve_at c.options p ≡ true
    → All (IsItem c) items
    → o < length c.options
    → (d : Configuration) × (parse_and_remove (program ∷ args_of items) c
        ≡ some (d, program ∷ others items))
      × (value_at d.options o
          ≡ last_value items o (if p == o then some program else value_at c.options o))
unfolding parse_and_remove parse assign remaining_args
parse_and_remove_lem c program p h items o help plain first used kept oks small =
    let set = set_value_string c.options p program in
    let d = assign p program (record c { positional_index = suc c.positional_index }) in
    let keeps = preserve_at-set_value_string c.options p program in
    let t = parse_items d used items set (λ q. refl) (All-IsItem items oks) in
    let runs =
      parse_args-one true false c d (program, false) (unmarked (args_of items))
        (λ f. program_round c program p f plain first kept)
      ∙ behind-runs d ((program, false) ∷ []) set t.left t.args _ t.runs in
    (
      holding d t.left,
      rw (add_help-named c h help, runs, parse_and_remove, parse)
          (ap (λ l. some (holding d t.left, program ∷ l)) t.rest),
      t.values o (omega (arith, small, length-set_value_string c.options p program))
          ∙ ap (last_value items o) (value_at-set_value_string c.options p program o small),
    )
  where
    IsItem-set :
        (i : Item)
        → IsItem c i
        → IsItem (assign p program (record c { positional_index = suc c.positional_index })) i
    IsItem-set (option arg value q) (a, b, e, k) =
        (a, b, e, preserve_at-set_value_string c.options p program q ∙ k)
    IsItem-set (flag arg q) (a, b, e, k) =
        (a, b, e, preserve_at-set_value_string c.options p program q ∙ k)
    IsItem-set (unknown arg value) ok = ok
    IsItem-set (word arg) ok = ok

    All-IsItem :
        (is : List Item)
        → All (IsItem c) is
        → All
            (IsItem (assign p program (record c { positional_index = suc c.positional_index })))
            is
    All-IsItem [] oks = tt
    All-IsItem (i ∷ is) (ok, oks) = (IsItem-set i ok, All-IsItem is oks)
