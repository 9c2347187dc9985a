-- ===== src/Prelude/Text.antt =====
-- Operations of Python's str on the native texts.
use Prim.Native.Nat.{ℕ, zero, suc, ◌+◌}
use Prim.Native.String
use Prim.Native.Char.{Char, code}
use Prim.Native.String.{String}
use mathlib.Core.Bool.{Bool, true, false, ◌||◌, ◌&&◌}
use mathlib.Core.Option.{Option, none, some}
use mathlib.Core.List.{List, [], ◌∷◌}
use text.Mathlib.Text.{starts_with}
use tele_cli.Prelude.Tests.{◌==◌, nat_eq, string_eq, leb, if◌then◌else◌}

-- str.isspace of one character
unfoldable pub is_space : Char → Bool
is_space ch =
    let c = code ch in
    (leb 9 c && leb c 13)
    || (leb 28 c && leb c 32)
    || c == 133
    || c == 160
    || c == 5760
    || (leb 8192 c && leb c 8202)
    || c == 8232
    || c == 8233
    || c == 8239
    || c == 8287
    || c == 12288

-- s.lstrip()
unfoldable pub lstrip : String → String
unfolding is_space
lstrip String.[] = String.[]
lstrip (String.◌∷◌ c s) = let rest = lstrip s in if is_space c then rest else String.◌∷◌ c s

unfoldable pub reverse_onto : String → String → String
reverse_onto String.[] acc = acc
reverse_onto (String.◌∷◌ c s) acc = reverse_onto s (String.◌∷◌ c acc)

-- s.strip()
unfoldable pub strip : String → String
unfolding is_space lstrip reverse_onto
strip s = reverse_onto (lstrip (reverse_onto (lstrip s) String.[])) String.[]

-- bool(s) of an optional text
abbrev pub is_text : Option String → Bool
is_text none = false
is_text (some s) = if s == "" then false else true

-- s.startswith(t)
abbrev pub startswith : String → String → Bool
startswith s t = starts_with s t

-- x or d, for an optional text
abbrev pub or_text : Option String → String → String
or_text none d = d
or_text (some s) d = if s == "" then d else s

-- s + t
infixl 65 ◌<>◌
abbrev pub ◌<>◌ : String → String → String
s <> t = String.◌++◌ s t

codes : String → List ℕ
codes String.[] = []
codes (String.◌∷◌ c s) = code c ∷ codes s

-- str.lower of one code point, as far as its result has ASCII letters: A to Z, the Kelvin sign and
-- the dotted capital I. Every other code point gives no ASCII letter and is left as it is.
lower : List ℕ → List ℕ
lower [] = []
lower (c ∷ s) =
    let rest = lower s in
    if leb 65 c && leb c 90
    then (c + 32) ∷ rest
    else if c == 8490
    then 107 ∷ rest
    else if c == 304
    then 105 ∷ 775 ∷ rest
    else c ∷ rest

begins : List ℕ → List ℕ → Bool
begins s [] = true
begins [] (d ∷ t) = false
begins (c ∷ s) (d ∷ t) = c == d && begins s t

occurs : List ℕ → List ℕ → Bool
unfolding begins
occurs t [] = begins [] t
occurs t (c ∷ s) = begins (c ∷ s) t || occurs t s

-- t in s
unfoldable pub contains_text : String → String → Bool
unfolding codes occurs
contains_text s t = occurs (codes t) (codes s)

-- t in s.lower(), for an ASCII t
unfoldable pub lower_contains : String → String → Bool
unfolding codes lower occurs
lower_contains s t = occurs (codes t) (lower (codes s))

-- len(s)
unfoldable pub text_length : String → ℕ
text_length String.[] = 0
text_length (String.◌∷◌ c s) = suc (text_length s)

-- s[:n]
unfoldable pub take_text : ℕ → String → String
take_text zero s = String.[]
take_text (suc n) String.[] = String.[]
take_text (suc n) (String.◌∷◌ c s) = String.◌∷◌ c (take_text n s)

-- s[n:]
unfoldable pub drop_text : ℕ → String → String
drop_text zero s = s
drop_text (suc n) String.[] = String.[]
drop_text (suc n) (String.◌∷◌ c s) = drop_text n s

-- the length of one character in UTF-8
char_width : Char → ℕ
char_width ch =
    let c = code ch in
    if leb c 127 then 1 else if leb c 2047 then 2 else if leb c 65535 then 3 else 4

-- len(s.encode("utf-8"))
unfoldable pub utf8_length : String → ℕ
unfolding char_width
utf8_length String.[] = 0
utf8_length (String.◌∷◌ c s) = char_width c + utf8_length s

same_codes : List ℕ → List ℕ → Bool
same_codes [] [] = true
same_codes (c ∷ s) (d ∷ t) = c == d && same_codes s t
same_codes _ _ = false

-- s.lower() == t, for an ASCII t
unfoldable pub lower_is : String → String → Bool
unfolding codes lower same_codes
lower_is s t = same_codes (lower (codes s)) (codes t)

-- the part of a path that `current` is, if it counts as one
abbrev part_or : String → String → String
part_or last current = if current == "" || current == "." then last else current

path_name_from : (last current : String) → String → String
path_name_from last current String.[] = part_or last current
path_name_from last current (String.◌∷◌ c s) =
    if code c == 47
    then path_name_from (part_or last current) "" s
    else path_name_from last (current <> String.◌∷◌ c String.[]) s

-- Path(s).name
unfoldable pub path_name : String → String
unfolding path_name_from
path_name s = path_name_from "" "" s
