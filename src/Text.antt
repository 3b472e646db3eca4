-- ===== src/Text.antt =====
-- The operations on `str` that the program calls, over the characters of a text.
pub mod Laws
use Prim.Native.Char.{Char, code}
use Prim.Native.String
use Prim.Native.String.{◌++◌ as ◌<>◌}
use polixy.Prelude.{
  String, Bool, true, false, ◌&&◌, ◌||◌, Option, none, some, List, [], ◌∷◌, ◌==◌, nat_eq, string_eq,
  if◌then◌else◌,
}

abbrev pub is_char : Char → Char → Bool
is_char c d = code c == code d

push_first : Char → List String → List String
push_first c [] = String.◌∷◌ c "" ∷ []
push_first c (part ∷ parts) = String.◌∷◌ c part ∷ parts

-- `split(sep)`, with a character for the separator
unfoldable pub split : Char → String → List String
unfolding push_first
split sep String.[] = "" ∷ []
split sep (String.◌∷◌ c s) =
    let parts = split sep s in if is_char c sep then "" ∷ parts else push_first c parts

push_left : Char → Option (String × String) → Option (String × String)
push_left c none = none
push_left c (some (a, b)) = some (String.◌∷◌ c a, b)

-- `split_once(sep)`
unfoldable pub split_once : Char → String → Option (String × String)
unfolding push_left
split_once sep String.[] = none
split_once sep (String.◌∷◌ c s) =
    let rest = split_once sep s in if is_char c sep then some ("", s) else push_left c rest

-- `join(sep)`
unfoldable pub join : String → List String → String
join sep [] = ""
join sep (part ∷ []) = part
join sep (part ∷ next ∷ parts) = part <> (sep <> join sep (next ∷ parts))

unfoldable pub starts_with : String → String → Bool
starts_with s String.[] = true
starts_with String.[] (String.◌∷◌ d t) = false
starts_with (String.◌∷◌ c s) (String.◌∷◌ d t) = is_char c d && starts_with s t

unfoldable pub ends_with : String → String → Bool
ends_with String.[] t = "" == t
ends_with (String.◌∷◌ c s) t = String.◌∷◌ c s == t || ends_with s t
