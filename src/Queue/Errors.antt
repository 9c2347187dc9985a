-- ===== src/Queue/Errors.antt =====
-- src/integrations/telegram.py: how an error of a Telegram call is read.
use tele_cli.Prelude.{
  ℕ, ℤ, pos, String, Bool, ◌&&◌, ◌||◌, Option, none, some, ltb, ◌==◌, int_eq, option_eq,
  contains_text, lower_contains, if◌then◌else◌,
}

-- an exception, by its class and str(exc)
pub data Error : Type 0 where
  telegram_error type_error other_error : String → Error

unfoldable pub message : Error → String
message (telegram_error s) = s
message (type_error s) = s
message (other_error s) = s

unfoldable pub is_topic_closed_error : String → Bool
unfolding contains_text
is_topic_closed_error s = contains_text s "TOPIC_CLOSED"

unfoldable pub is_message_not_modified_error : String → Bool
unfolding lower_contains
is_message_not_modified_error s = lower_contains s "message is not modified"

unfoldable pub is_message_not_found_error : String → Bool
unfolding lower_contains
is_message_not_found_error s =
    lower_contains s "message to delete not found" || lower_contains s "message can't be deleted"

-- What ast.literal_eval makes of an error text that is a dict: its error_code, and the number under
-- parameters.retry_after, in microseconds.
pub record ErrorLiteral : Type 0 where
  pub error_code : Option ℤ
  pub retry_after : Option ℤ

-- the part of _retry_delay_from_error_text behind ast.literal_eval
literal_delay : ErrorLiteral → Option ℕ
literal_delay payload =
    if payload.error_code == some (pos 429) then delay payload.retry_after else none
  where
    delay : Option ℤ → Option ℕ
    delay (some (pos n)) = if ltb 0 n then some n else some 1000000
    delay _ = some 1000000

module _ (literal_eval : String → Option ErrorLiteral) where
  -- TelegramClient._retry_delay_from_error_text; a delay in microseconds
  unfoldable pub retry_delay_from_error_text : String → Option ℕ
  unfolding literal_delay contains_text
  retry_delay_from_error_text text =
      if contains_text text "429" && contains_text text "Too Many Requests"
      then some 1000000
      else elim (literal_eval text) [ none ↦ none | some payload ↦ literal_delay payload ]

  -- TelegramClient._retry_delay_from_error
  unfoldable pub retry_delay_from_error : Error → Option ℕ
  unfolding retry_delay_from_error_text
  retry_delay_from_error (telegram_error text) = retry_delay_from_error_text text
  retry_delay_from_error (type_error text) =
      if contains_text text "429" && contains_text text "Too Many Requests"
      then some 1000000
      else none
  retry_delay_from_error (other_error text) =
      if contains_text text "429" && contains_text text "Too Many Requests"
      then some 1000000
      else none
