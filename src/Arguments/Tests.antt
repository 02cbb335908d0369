-- ===== src/Arguments/Tests.antt =====
-- Command lines.
use erap_sbt.Base.{◌≡◌, refl, true, List, [], ◌∷◌}
use erap_sbt.Arguments.{Text, parse, get_argument, has_argument, get_value_as_bool}
use erap_sbt.Arguments.Laws.{setting, get_argument-parse}

-- "o", "on" and "yes"
abbrev letter : Text
letter = 111 ∷ []

abbrev on : Text
on = 111 ∷ 110 ∷ []

abbrev yes : Text
yes = 121 ∷ 101 ∷ 115 ∷ []

-- "--o=on --o=yes --yes out"
abbrev command_line : List Text
command_line =
    setting letter on ∷ setting letter yes ∷ (45 ∷ 45 ∷ yes) ∷ (111 ∷ 117 ∷ 116 ∷ []) ∷ []

first_value : get_argument letter (parse command_line) ≡ on
unfolding get_argument parse
first_value = refl

as_bool : get_value_as_bool letter (parse command_line) ≡ true
unfolding get_value_as_bool parse
as_bool = refl

get_argument-parse_example :
    (get_argument letter (parse (setting letter on ∷ setting letter yes ∷ [])) ≡ on)
    × (has_argument letter (parse (setting letter on ∷ setting letter yes ∷ [])) ≡ true)
get_argument-parse_example = get_argument-parse letter on (setting letter yes ∷ []) (refl, tt)
