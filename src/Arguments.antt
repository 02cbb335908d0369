-- ===== src/Arguments.antt =====
-- src/argument_parser.cpp and include/argument_parser.h: the command line. An argument is the list of
-- its bytes.
pub mod Laws
mod Tests
use erap_sbt.Base.{
  ℕ, Bool, true, false, ◌==◌, ◌&&◌, ◌||◌, if◌then◌else◌, List, [], ◌∷◌, ◌++◌, Option, none, some,
}

abbrev pub Text : Type 0
Text = List ℕ

-- '-' and '='
abbrev pub dash : ℕ
dash = 45

abbrev pub equal_sign : ℕ
equal_sign = 61

unfoldable pub text_eq : Text → Text → Bool
text_eq [] [] = true
text_eq (c ∷ cs) (d ∷ ds) = (c == d) && text_eq cs ds
text_eq _ _ = false

pub record Args : Type 0 where
  pub positional : List Text
  -- The map, the first entry first.
  pub arguments : List (Text × Text)

-- `arguments.find`
unfoldable pub lookup : Text → List (Text × Text) → Option Text
unfolding text_eq
lookup arg [] = none
lookup arg ((key, value) ∷ rest) = if text_eq key arg then some value else lookup arg rest

-- `arguments.insert`, which keeps an entry that is there.
unfoldable pub insert : Text → Text → List (Text × Text) → List (Text × Text)
unfolding text_eq
insert key value [] = (key, value) ∷ []
insert key value ((k, v) ∷ rest) =
    if text_eq k key then (k, v) ∷ rest else (k, v) ∷ insert key value rest

-- `substr` up to the first '=' and behind it, if there is one.
unfoldable pub split_key : Text → Option (Text × Text)
split_key [] = none
split_key (c ∷ cs) =
    if c == equal_sign
    then some ([], cs)
    else elim (split_key cs) [ some (key, value) ↦ some (c ∷ key, value) | none ↦ none ]

-- The insertion, with the parts of the argument if it has a '='.
abbrev pub inserted : Text → Args → Option (Text × Text) → Args
inserted arg args (some (key, value)) = record args { arguments = insert key value args.arguments }
inserted arg args none = record args { arguments = insert arg [] args.arguments }

-- An argument behind its two dashes.
unfoldable pub add_option : Text → Args → Args
unfolding split_key insert
add_option [] args = args
add_option (c ∷ cs) args = inserted (c ∷ cs) args (split_key (c ∷ cs))

unfoldable pub add_positional : Text → Args → Args
add_positional [] args = args
add_positional (c ∷ cs) args = record args { positional = args.positional ++ ((c ∷ cs) ∷ []) }

-- One step of the constructor's loop.
unfoldable pub add_argument : Text → Args → Args
unfolding add_option add_positional
add_argument (c ∷ d ∷ rest) args =
    if (c == dash) && (d == dash) then add_option rest args else add_positional (c ∷ d ∷ rest) args
add_argument arg args = add_positional arg args

unfoldable pub parse_from : Args → List Text → Args
unfolding add_argument
parse_from args [] = args
parse_from args (arg ∷ rest) = parse_from (add_argument arg args) rest

unfoldable pub parse : List Text → Args
unfolding parse_from
parse list = parse_from (record { positional = []; arguments = [] }) list

unfoldable pub has_argument : Text → Args → Bool
unfolding lookup
has_argument arg args = elim (lookup arg args.arguments) [ some _ ↦ true | none ↦ false ]

unfoldable pub get_argument : Text → Args → Text
unfolding lookup
get_argument arg args = elim (lookup arg args.arguments) [ some value ↦ value | none ↦ [] ]

-- "yes", "on", "true"
unfoldable pub get_value_as_bool : Text → Args → Bool
unfolding get_argument text_eq
get_value_as_bool arg args =
    let value = get_argument arg args in
    text_eq value (121 ∷ 101 ∷ 115 ∷ [])
    || (text_eq value (111 ∷ 110 ∷ []) || text_eq value (116 ∷ 114 ∷ 117 ∷ 101 ∷ []))
