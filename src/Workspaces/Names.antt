-- ===== src/Workspaces/Names.antt =====
-- src/runtime/workspaces.py: sanitize_workspace_name and the names of topics, and str() of an integer.
pub mod Safe
pub mod Decimal
use Prim.Native.Char.{Char, code}
use tele_cli.Prelude.{
  ℕ, zero, suc, ◌/◌, ◌%◌, ℤ, pos, negsuc, String, Bool, true, false, not, ◌&&◌, ◌||◌, Option, none,
  some, ◌==◌, nat_eq, string_eq, option_eq, leb, ltb, strip, or_text, is_text, ◌<>◌, if◌then◌else◌,
  is_space, reverse_onto, ◌≡◌, refl,
}
use tele_cli.Models.{SessionRecord}

-- [A-Za-z0-9._ -]
unfoldable pub is_safe : Char → Bool
is_safe ch =
    let c = code ch in
    (leb 65 c && leb c 90)
    || (leb 97 c && leb c 122)
    || (leb 48 c && leb c 57)
    || c == 46
    || c == 95
    || c == 32
    || c == 45

-- one of " .-_"
unfoldable pub is_edge : Char → Bool
is_edge ch = let c = code ch in c == 32 || c == 46 || c == 45 || c == 95

-- re.sub(r"[^A-Za-z0-9._ -]+", "-", s); the flag says that the character before is one that is replaced
unfoldable pub replace_unsafe : Bool → String → String
unfolding is_safe
replace_unsafe inside String.[] = String.[]
replace_unsafe inside (String.◌∷◌ c s) =
    let kept = String.◌∷◌ c (replace_unsafe false s) in
    let skipped = replace_unsafe true s in
    if is_safe c then kept else if inside then skipped else String.◌∷◌ "-" skipped

-- re.sub(r"\s+", " ", s)
unfoldable pub collapse_spaces : Bool → String → String
unfolding is_space
collapse_spaces inside String.[] = String.[]
collapse_spaces inside (String.◌∷◌ c s) =
    let kept = String.◌∷◌ c (collapse_spaces false s) in
    let skipped = collapse_spaces true s in
    if not (is_space c) then kept else if inside then skipped else String.◌∷◌ " " skipped

unfoldable pub strip_left : String → String
unfolding is_edge
strip_left String.[] = String.[]
strip_left (String.◌∷◌ c s) = let rest = strip_left s in if is_edge c then rest else String.◌∷◌ c s

-- s.strip(" .-_")
unfoldable pub strip_edges : String → String
unfolding strip_left reverse_onto
strip_edges s = reverse_onto (strip_left (reverse_onto (strip_left s) String.[])) String.[]

unfoldable pub sanitize_workspace_name : String → String
unfolding strip_edges collapse_spaces replace_unsafe strip
sanitize_workspace_name value =
    let cleaned = strip_edges (collapse_spaces false (replace_unsafe false (strip value))) in
    if cleaned == "" then "topic" else cleaned

digit : ℕ → Char
digit zero = "0"
digit (suc zero) = "1"
digit (suc (suc zero)) = "2"
digit (suc (suc (suc zero))) = "3"
digit (suc (suc (suc (suc zero)))) = "4"
digit (suc (suc (suc (suc (suc zero))))) = "5"
digit (suc (suc (suc (suc (suc (suc zero)))))) = "6"
digit (suc (suc (suc (suc (suc (suc (suc zero))))))) = "7"
digit (suc (suc (suc (suc (suc (suc (suc (suc zero)))))))) = "8"
digit n = "9"

-- the digits of n in front of a text; the fuel is more than their number
emit : ℕ → ℕ → String → String
unfolding digit
emit zero n s = s
emit (suc fuel) n s =
    let more = emit fuel (n / 10) (String.◌∷◌ (digit (n % 10)) s) in
    if ltb n 10 then String.◌∷◌ (digit n) s else more

-- str(n)
unfoldable pub str_nat : ℕ → String
unfolding emit
str_nat n = emit (suc n) n String.[]

unfoldable pub str_int : ℤ → String
unfolding str_nat
str_int (pos n) = str_nat n
str_int (negsuc n) = String.◌∷◌ "-" (str_nat (suc n))

unfoldable pub default_topic_name : Option ℤ → String
unfolding str_int
default_topic_name none = "topic"
default_topic_name (some topic_id) = "topic-" <> str_int topic_id

-- what the last part of channel.split("/") with something but white space is; `last` is the last one so far
last_part : Option String → (current : String) → String → Option String
unfolding strip
last_part last current String.[] = if strip current == "" then last else some current
last_part last current (String.◌∷◌ c s) =
    if code c == 47
    then last_part (if strip current == "" then last else some current) "" s
    else last_part last (current <> String.◌∷◌ c String.[]) s

-- workspace_topic_name
unfoldable pub workspace_topic_name : SessionRecord → (visible : Option String) → Option String
unfolding last_part default_topic_name strip
workspace_topic_name s visible =
    if is_text visible && not (strip (or_text visible "") == "")
    then some (strip (or_text visible ""))
    else if is_text s.visible_topic_name && not (strip (or_text s.visible_topic_name "") == "")
    then some (strip (or_text s.visible_topic_name ""))
    else if s.transport == "local"
    then (let channel = strip (or_text s.transport_channel "") in
        if channel == "" || channel == "main"
        then none
        else some (elim (last_part none "" channel) [ none ↦ channel | some part ↦ part ]))
    else elim s.transport_topic_id [ none ↦ none | some i ↦ some (default_topic_name (some i)) ]

sanitize_test : sanitize_workspace_name " ../a/b  c?!. " ≡ "a-b c"
unfolding sanitize_workspace_name
sanitize_test = refl

str_int_test : str_int (negsuc 1004) ≡ "-1005"
unfolding str_int
str_int_test = refl
