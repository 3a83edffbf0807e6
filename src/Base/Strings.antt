-- ===== src/Base/Strings.antt =====
-- The string functions that the program calls, on lists of code units.
use Prim.Native.Nat.{ℕ}
use mathlib.Core.Bool.{Bool, true, false, not, ◌&&◌, ◌||◌}
use mathlib.Core.Option.{Option, none, some}
use mathlib.Core.List.{List, [], ◌∷◌, ◌++◌}
use v.Base.Tests.{leb, ◌==◌, ltb, if◌then◌else◌}
use v.Base.Text.{Text}
use v.Base.Lists.{length, drop}

-- `s.startsWith(p)`
unfoldable pub starts_with : Text → Text → Bool
starts_with [] s = true
starts_with (a ∷ p) [] = false
starts_with (a ∷ p) (b ∷ s) = a == b && starts_with p s

-- `s.endsWith(c)` for one unit.
unfoldable pub ends_with : ℕ → Text → Bool
ends_with c [] = false
ends_with c (a ∷ []) = a == c
ends_with c (a ∷ b ∷ s) = ends_with c (b ∷ s)

-- `s.includes(c)` for one unit.
unfoldable pub has_unit : ℕ → Text → Bool
has_unit c [] = false
has_unit c (a ∷ s) = a == c || has_unit c s

-- `s.includes(p)`
unfoldable pub includes : Text → Text → Bool
unfolding starts_with
includes p [] = starts_with p []
includes p (a ∷ s) = starts_with p (a ∷ s) || includes p s

abbrev push_front : ℕ → Option (Text × Text) → Option (Text × Text)
push_front a none = none
push_front a (some (x, y)) = some (a ∷ x, y)

-- What stands before and after the first `sep`, by `indexOf` and two slices; nothing where
-- `indexOf` is -1. The separators here are not empty.
unfoldable pub cut : Text → Text → Option (Text × Text)
unfolding starts_with
cut sep [] = none
cut sep (a ∷ s) =
    let rest = push_front a (cut sep s) in
    if starts_with sep (a ∷ s) then some ([], drop (length sep) (a ∷ s)) else rest

abbrev onto_first : ℕ → List Text → List Text
onto_first a [] = (a ∷ []) ∷ []
onto_first a (x ∷ xs) = (a ∷ x) ∷ xs

-- `s.split(c)` for one unit: always one part or more.
unfoldable pub split : ℕ → Text → List Text
split c [] = [] ∷ []
split c (a ∷ s) = let parts = split c s in if a == c then [] ∷ parts else onto_first a parts

-- `parts.join(c)` for one unit.
unfoldable pub join : ℕ → List Text → Text
join c [] = []
join c (x ∷ []) = x
join c (x ∷ y ∷ xs) = x ++ c ∷ join c (y ∷ xs)

-- `/^[…]*$/`
unfoldable pub all_units : (ℕ → Bool) → Text → Bool
all_units p [] = true
all_units p (a ∷ s) = p a && all_units p s

abbrev pub is_empty : Text → Bool
is_empty [] = true
is_empty (_ ∷ _) = false

-- `/^[…]+$/`
abbrev pub some_units : (ℕ → Bool) → Text → Bool
some_units p s = not (is_empty s) && all_units p s

-- `a < b`: by code units from the left.
unfoldable pub text_lt : Text → Text → Bool
text_lt s [] = false
text_lt [] (b ∷ t) = true
text_lt (a ∷ s) (b ∷ t) = ltb a b || (a == b && text_lt s t)

abbrev pub in_range : ℕ → ℕ → ℕ → Bool
in_range low high c = leb low c && leb c high

abbrev pub is_digit : ℕ → Bool
is_digit c = in_range b'0' b'9' c

abbrev pub is_upper : ℕ → Bool
is_upper c = in_range b'A' b'Z' c

abbrev pub is_lower : ℕ → Bool
is_lower c = in_range b'a' b'z' c

-- `\s` of a JavaScript regular expression.
abbrev pub is_space : ℕ → Bool
is_space c =
    in_range 9 13 c
    || c == 32
    || c == 160
    || c == 5760
    || in_range 8192 8202 c
    || in_range 8232 8233 c
    || c == 8239
    || c == 8287
    || c == 12288
    || c == 65279

-- `/^(?:[A-Za-z0-9+/]{4})*(?:…)$/` goes by four units.
abbrev pub is_alnum : ℕ → Bool
is_alnum c = is_upper c || is_lower c || is_digit c
