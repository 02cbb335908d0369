-- ===== src/Arguments/Laws.antt =====
-- src/argument_parser.cpp: an option is found again.
use erap_sbt.Base.{
  ◌≡◌, refl, ap, ◌∙◌, true, false, ◌==◌, ◌&&◌, List, [], ◌∷◌, ◌++◌, Option, none, some, arith,
  Bool-cases, inl, inr,
}
use erap_sbt.Arguments.{
  Text, dash, equal_sign, text_eq, Args, lookup, insert, split_key, inserted, add_option,
  add_positional, add_argument, parse_from, parse, get_argument, has_argument,
}

-- A key without '='.
abbrev pub IsKey : Text → Type 0
IsKey [] = Unit
IsKey (c ∷ cs) = ((c == equal_sign) ≡ false) × IsKey cs

-- The argument that sets a key: "--key=value".
abbrev pub setting : Text → Text → Text
setting key value = dash ∷ dash ∷ (key ++ (equal_sign ∷ value))

split_key-setting :
    (key value : Text) → IsKey key → split_key (key ++ (equal_sign ∷ value)) ≡ some (key, value)
unfolding split_key
split_key-setting [] value h = refl
split_key-setting (c ∷ cs) value (h, hs) = rw (h, split_key-setting cs value hs) refl

text_eq_self : (t : Text) → text_eq t t ≡ true
unfolding text_eq
text_eq_self [] = refl
text_eq_self (c ∷ cs) = ground (arith, text_eq_self cs)

-- Behind the same first entry.
kept_behind :
    (arg v k w : Text) (m m' : List (Text × Text))
    → lookup arg ((k, w) ∷ m) ≡ some v
    → (lookup arg m ≡ some v → lookup arg m' ≡ some v)
    → lookup arg ((k, w) ∷ m') ≡ some v
unfolding lookup
kept_behind arg v k w m m' h g = elim (Bool-cases (text_eq k arg)) [
  | inl t ↦ rw t (ground (arith, h))
  | inr f ↦ rw f (g (ground (arith, h)))
]

-- An entry that is found stays.
lookup-insert :
    (arg v key value : Text) (m : List (Text × Text))
    → lookup arg m ≡ some v
    → lookup arg (insert key value m) ≡ some v
unfolding lookup insert
lookup-insert arg v key value [] h = absurd (ground arith)
lookup-insert arg v key value ((k, w) ∷ m) h = elim (Bool-cases (text_eq k key)) [
  | inl t ↦ rw t h
  | inr f ↦ rw f (kept_behind arg v k w m (insert key value m) h (lookup-insert arg v key value m))
]

inserted-lookup :
    (arg v text : Text) (args : Args) (o : Option (Text × Text))
    → lookup arg args.arguments ≡ some v
    → lookup arg (inserted text args o).arguments ≡ some v
inserted-lookup arg v text args (some (key, value)) h =
    lookup-insert arg v key value args.arguments h
inserted-lookup arg v text args none h = lookup-insert arg v text [] args.arguments h

-- An argument that is found stays, whatever is added.
add_option-lookup :
    (arg v text : Text) (args : Args)
    → lookup arg args.arguments ≡ some v
    → lookup arg (add_option text args).arguments ≡ some v
unfolding add_option
add_option-lookup arg v [] args h = h
add_option-lookup arg v (c ∷ cs) args h = inserted-lookup arg v (c ∷ cs) args (split_key (c ∷ cs)) h

add_positional-arguments :
    (text : Text) (args : Args) → (add_positional text args).arguments ≡ args.arguments
unfolding add_positional
add_positional-arguments [] args = refl
add_positional-arguments (c ∷ cs) args = refl

add_argument-lookup :
    (arg v text : Text) (args : Args)
    → lookup arg args.arguments ≡ some v
    → lookup arg (add_argument text args).arguments ≡ some v
unfolding add_argument
add_argument-lookup arg v [] args h = ap (lookup arg) (add_positional-arguments [] args) ∙ h
add_argument-lookup arg v (c ∷ []) args h =
    ap (lookup arg) (add_positional-arguments (c ∷ []) args) ∙ h
add_argument-lookup arg v (c ∷ d ∷ rest) args h = elim (Bool-cases ((c == dash) && (d == dash))) [
  | inl t ↦ rw t (add_option-lookup arg v rest args h)
  | inr f ↦ rw f (ap (lookup arg) (add_positional-arguments (c ∷ d ∷ rest) args) ∙ h)
]

parse_from-lookup :
    (arg v : Text) (texts : List Text) (args : Args)
    → lookup arg args.arguments ≡ some v
    → lookup arg (parse_from args texts).arguments ≡ some v
unfolding parse_from
parse_from-lookup arg v [] args h = h
parse_from-lookup arg v (text ∷ texts) args h =
    parse_from-lookup arg v texts (add_argument text args) (add_argument-lookup arg v text args h)

abbrev empty : Args
empty = record { positional = []; arguments = [] }

first_setting :
    (key value : Text)
    → IsKey key
    → lookup key (add_argument (setting key value) empty).arguments ≡ some value
unfolding add_argument add_option insert lookup
first_setting [] value h = refl
first_setting (c ∷ cs) value h =
    ap (λ o. lookup (c ∷ cs) (inserted ((c ∷ cs) ++ (equal_sign ∷ value)) empty o).arguments)
      (split_key-setting (c ∷ cs) value h)
    ∙ rw (text_eq_self (c ∷ cs)) refl

-- For a key without '=', any value and any further arguments: parsing the argument "--key=value" and
-- the others behind it, `get_argument` gives the value for the key, and `has_argument` holds.
pub get_argument-parse :
    (key value : Text) (texts : List Text)
    → IsKey key
    → (get_argument key (parse (setting key value ∷ texts)) ≡ value)
      × (has_argument key (parse (setting key value ∷ texts)) ≡ true)
unfolding get_argument has_argument parse parse_from
get_argument-parse key value texts h =
    (rw (get_argument, found) refl, rw (has_argument, found) refl)
  where
    found :
        lookup key (parse_from (add_argument (setting key value) empty) texts).arguments
        ≡ some value
    found =
        parse_from-lookup key value texts (add_argument (setting key value) empty)
          (first_setting key value h)
