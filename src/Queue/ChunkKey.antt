-- ===== src/Queue/ChunkKey.antt =====
-- src/storage/telegram_queue.py: _chunk_index_from_dedupe_key, and int() on ASCII digits.
use Prim.Native.Char.{code}
use tele_cli.Prelude.{
  ℕ, zero, suc, ◌+◌, ◌-◌, ◌*◌, ℤ, pos, negsuc, String, Bool, true, false, ◌&&◌, Option, none, some,
  ◌==◌, nat_eq, leb, startswith, strip, if◌then◌else◌, ◌≡◌, refl,
}

-- the rest of a numeral; an underscore stands between two digits
parse_digits : ℕ → Bool → String → Option ℕ
parse_digits n after_digit String.[] = if after_digit then some n else none
parse_digits n after_digit (String.◌∷◌ c s) =
    let c = code c in
    let next = parse_digits (n * 10 + (c - 48)) true s in
    let skip = parse_digits n false s in
    if leb 48 c && leb c 57 then next else if c == 95 && after_digit then skip else none

negate : ℕ → ℤ
negate zero = pos zero
negate (suc n) = negsuc n

parse_signed : String → Option ℤ
unfolding parse_digits negate
parse_signed String.[] = none
parse_signed (String.◌∷◌ c s) =
    if code c == 45
    then elim (parse_digits 0 false s) [ none ↦ none | some n ↦ some (negate n) ]
    else if code c == 43
    then elim (parse_digits 0 false s) [ none ↦ none | some n ↦ some (pos n) ]
    else elim (parse_digits 0 false (String.◌∷◌ c s)) [ none ↦ none | some n ↦ some (pos n) ]

-- int(s), `none` for the ValueError
unfoldable pub parse_int : String → Option ℤ
unfolding parse_signed strip
parse_int s = parse_signed (strip s)

drop_chars : ℕ → String → String
drop_chars zero s = s
drop_chars (suc n) String.[] = String.[]
drop_chars (suc n) (String.◌∷◌ c s) = drop_chars n s

-- s.rsplit(":chunk:", 1)[1], if ":chunk:" in s
chunk_suffix : String → Option String
unfolding drop_chars
chunk_suffix String.[] = none
chunk_suffix (String.◌∷◌ c s) = elim (chunk_suffix s) [
  | some t ↦ some t
  | none ↦ if startswith (String.◌∷◌ c s) ":chunk:" then some (drop_chars 6 s) else none
]

-- _chunk_index_from_dedupe_key
unfoldable pub chunk_index_from_dedupe_key : Option String → Option ℤ
unfolding chunk_suffix parse_int
chunk_index_from_dedupe_key none = none
chunk_index_from_dedupe_key (some key) = elim (chunk_suffix key) [
  | none ↦ none
  | some tail ↦ parse_int tail
]

chunk_index_test : chunk_index_from_dedupe_key (some "g:chunk:x:chunk:12") ≡ some (pos 12)
unfolding chunk_index_from_dedupe_key
chunk_index_test = refl

chunk_index_none : chunk_index_from_dedupe_key (some "g:chunk:1x") ≡ none
unfolding chunk_index_from_dedupe_key
chunk_index_none = refl
