-- ===== src/InputNodes/Segments.antt =====
-- The segments of a canonical path: `_segment` writes a name as a segment, `_unsegment` reads it, and
-- `_mark_body_descendants` reads the name of a property off the path of its input.
use Prim.Native.Char.{Char, code}
use Prim.Native.String.{◌++◌}
use restscope.Prelude.{String, Bool, ◌&&◌, Option, none, some, eqb, if◌then◌else◌}

abbrev pub is_char : Char → Char → Bool
is_char c d = eqb (code c) (code d)

-- `value.replace(c, new)` for one character, and `value.replace(a + b, new)` for two.
unfoldable pub replace_char : Char → String → String → String
replace_char c new String.[] = ""
replace_char c new (String.◌∷◌ d s) =
    let rest = replace_char c new s in if is_char d c then new ++ rest else String.◌∷◌ d rest

unfoldable pub replace_pair : Char → Char → String → String → String
replace_pair a b new String.[] = ""
replace_pair a b new (String.◌∷◌ c String.[]) = String.◌∷◌ c ""
replace_pair a b new (String.◌∷◌ c (String.◌∷◌ d s)) =
    let behind = replace_pair a b new s in
    let next = replace_pair a b new (String.◌∷◌ d s) in
    if is_char c a && is_char d b then new ++ behind else String.◌∷◌ c next

-- `_segment` and `_unsegment`
unfoldable pub segment : String → String
unfolding replace_char
segment value = replace_char "/" "~1" (replace_char "~" "~0" value)

unfoldable pub unsegment : String → String
unfolding replace_pair
unsegment value = replace_pair "~" "0" "~" (replace_pair "~" "1" "/" value)

-- `value.split(c, 1)[0]`
unfoldable pub up_to : Char → String → String
up_to c String.[] = ""
up_to c (String.◌∷◌ d s) = let rest = up_to c s in if is_char d c then "" else String.◌∷◌ d rest

-- `value.removeprefix(prefix)` if `value.startswith(prefix)`, else `none`.
unfoldable pub without_prefix : String → String → Option String
without_prefix String.[] value = some value
without_prefix (String.◌∷◌ c prefix) String.[] = none
without_prefix (String.◌∷◌ c prefix) (String.◌∷◌ d value) =
    let rest = without_prefix prefix value in if is_char c d then rest else none

abbrev pub property_path : String → String → String
property_path path name = (path ++ "/properties/") ++ segment name

-- The name of the property that a path has below its parent's, `none` if it has none.
unfoldable pub property_name : String → String → Option String
unfolding unsegment up_to without_prefix
property_name parent_path path = elim (without_prefix (parent_path ++ "/properties/") path) [
  | none ↦ none
  | some suffix ↦ some (unsegment (up_to "/" suffix))
]
