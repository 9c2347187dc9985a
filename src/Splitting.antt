-- ===== src/Splitting.antt =====
-- src/runtime/service.py: split_telegram_text, which cuts a text into messages that Telegram takes.
pub mod Inks
pub mod Cuts
mod Examples
use tele_cli.Prelude.{
  ℕ, zero, suc, ◌+◌, String, Bool, true, false, Option, none, some, List, [], ◌∷◌, ◌==◌, string_eq,
  ltb, if◌then◌else◌, strip, lstrip, text_length, take_text, drop_text,
}
use Prim.Native.String as Text

-- TELEGRAM_TEXT_LIMIT
abbrev pub telegram_text_limit : ℕ
telegram_text_limit = 4000

-- limit or TELEGRAM_TEXT_LIMIT
unfoldable pub limit_or_default : Option ℕ → ℕ
limit_or_default none = telegram_text_limit
limit_or_default (some zero) = telegram_text_limit
limit_or_default (some (suc n)) = suc n

-- the position behind the first character, if there is one
abbrev pub later_or : Option ℕ → Bool → Option ℕ
later_or (some i) here = some (suc i)
later_or none true = some 0
later_or none false = none

-- s.rfind(sub, 0, end), where none stands for -1 and sub is no empty text
unfoldable pub rfind : String → ℕ → String → Option ℕ
rfind sub zero s = none
rfind sub (suc end) Text.[] = none
rfind sub (suc end) (Text.◌∷◌ c s) =
    later_or (rfind sub end s)
      (take_text (text_length sub) (take_text (suc end) (Text.◌∷◌ c s)) == sub)

-- split_at, or what is tried next if it is not positive
abbrev pub or_try : Option ℕ → ℕ → ℕ
or_try none next = next
or_try (some zero) next = next
or_try (some (suc i)) next = suc i

-- where the loop cuts: behind the last paragraph, line or word that fits, or at the limit
unfoldable pub split_at : ℕ → String → ℕ
unfolding rfind
split_at limit s =
    or_try (rfind "\n\n" (suc limit) s)
      (or_try (rfind "\n" (suc limit) s) (or_try (rfind " " (suc limit) s) limit))

-- the chunk and the end of it: at the limit if it is blank
unfoldable pub next_chunk : ℕ → String → String × ℕ
unfolding split_at
next_chunk limit s =
    let chunk = strip (take_text (split_at limit s) s) in
    if chunk == "" then (strip (take_text limit s), limit) else (chunk, split_at limit s)

abbrev pub prepend : String → Option (List String) → Option (List String)
prepend chunk none = none
prepend chunk (some chunks) = some (chunk ∷ chunks)

-- the loop and what follows it; none where the fuel does not last
unfoldable pub split_loop : (fuel limit : ℕ) → String → Option (List String)
unfolding next_chunk
split_loop zero limit remaining = none
split_loop (suc fuel) limit remaining =
    let (chunk, end) = next_chunk limit remaining in
    let rest = split_loop fuel limit (lstrip (drop_text end remaining)) in
    if ltb limit (text_length remaining)
    then prepend chunk rest
    else if remaining == ""
    then some []
    else some (remaining ∷ [])

unfoldable pub split_telegram_text : String → Option ℕ → Option (List String)
unfolding split_loop
split_telegram_text text limit =
    if strip text == ""
    then some []
    else split_loop (suc (text_length (strip text))) (limit_or_default limit) (strip text)
