-- ===== src/Queue/Deliver.antt =====
-- src/storage/telegram_queue.py: the Telegram calls of a claimed row (_execute_row), with the fallbacks
-- for a TypeError and for a closed topic. The Telegram client's answers are a parameter.
use tele_cli.Prelude.{
  ℤ, String, Bool, false, Option, none, some, List, [], ◌∷◌, ◌++◌, ◌<>◌, ◌==◌, string_eq,
  if◌then◌else◌,
}
use tele_cli.Queue.Types.{
  send_message, edit_message, delete_message, typing, send_photo, send_document, unsupported,
  Payload, Document, plain, reference, wrapped, Row, Store,
}
use tele_cli.Queue.Errors.{Error, telegram_error, type_error, other_error, is_topic_closed_error}

pub data Method : Type 0 where
  call_send_message call_edit_message call_delete_message call_typing call_send_photo
        call_send_document :
      Method

-- a call of a TelegramClient method: positional arguments, then the keywords, None and False by default
pub record Call : Type 0 where
  pub method : Method
  pub chat_id : ℤ
  pub message_id : Option ℤ
  pub text : Option String
  pub path : Option String
  pub topic_id : Option ℤ
  pub parse_mode : Option String
  pub caption : Option String
  pub disable_notification : Bool

-- what a call ends in: the integer message_id of a dict that it returned, if any, or an exception
pub data Answer : Type 0 where
  returned : Option ℤ → Answer
  raised : Error → Answer

pub data Keyword : Type 0 where
  key_disable_notification key_parse_mode key_caption key_topic_id : Keyword

-- reduced.pop(key, None): the keyword takes its default
drop_keyword : Keyword → Call → Call
drop_keyword key_disable_notification c = record c { disable_notification = false }
drop_keyword key_parse_mode c = record c { parse_mode = none }
drop_keyword key_caption c = record c { caption = none }
drop_keyword key_topic_id c = record c { topic_id = none }

abbrev dropped_keywords : List Keyword
dropped_keywords = key_disable_notification ∷ key_parse_mode ∷ key_caption ∷ key_topic_id ∷ []

-- the dict that json_loads gives, with a missing artifact file raised as an error
pub data Loaded : Type 0 where
  loaded : Payload → Loaded
  missing : String → Loaded

read_artifact : List (String × Payload) → String → Loaded
read_artifact [] ref = missing ref
read_artifact ((j, p) ∷ files) ref = if j == ref then loaded p else read_artifact files ref

-- _decode_payload, and the same lines of _execute_row
unfoldable pub decode_payload : Store → Document → Loaded
unfolding read_artifact
decode_payload s (plain p) = loaded p
decode_payload s (reference ref) = read_artifact s.artifacts ref
decode_payload s (wrapped ref) = read_artifact s.artifacts ref

blank_call : Method → ℤ → Call
blank_call method chat_id = record {
  method = method;
  chat_id = chat_id;
  message_id = none;
  text = none;
  path = none;
  topic_id = none;
  parse_mode = none;
  caption = none;
  disable_notification = false;
}

-- what to do for a row: a call through the topic-aware fallback, through the plain one, a bare call,
-- or an exception before any call
pub data Plan : Type 0 where
  topic_aware plain_call bare : Call → Plan
  fails : Error → Plan

plan_send : Row → Payload → Option String → Plan
unfolding blank_call
plan_send row p none = fails (other_error "'text'")
plan_send row p (some text) = topic_aware (record (blank_call call_send_message row.chat_id) {
  text = some text;
  topic_id = row.topic_id;
  parse_mode = p.parse_mode;
  disable_notification = row.disable_notification;
})

plan_edit : Row → Payload → Option ℤ → Option String → Plan
unfolding blank_call
plan_edit row p none text = fails (other_error "'message_id'")
plan_edit row p (some message_id) none = fails (other_error "'text'")
plan_edit row p (some message_id) (some text) =
    plain_call (record (blank_call call_edit_message row.chat_id) {
      message_id = some message_id;
      text = some text;
      parse_mode = p.parse_mode;
    })

plan_delete : Row → Option ℤ → Plan
unfolding blank_call
plan_delete row none = fails (other_error "'message_id'")
plan_delete row (some message_id) =
    bare (record (blank_call call_delete_message row.chat_id) { message_id = some message_id })

plan_file : Method → String → Row → Payload → Option String → Plan
unfolding blank_call
plan_file method key row p none = fails (other_error key)
plan_file method key row p (some path) = topic_aware (record (blank_call method row.chat_id) {
  path = some path;
  topic_id = row.topic_id;
  caption = p.caption;
  parse_mode = p.parse_mode;
  disable_notification = row.disable_notification;
})

-- the tests on op_type of _execute_row
unfoldable pub plan : Row → Payload → Plan
unfolding plan_send plan_edit plan_delete plan_file blank_call
plan row p = elim row.op_type [
  | send_message ↦ plan_send row p p.text
  | edit_message ↦ plan_edit row p p.message_id p.text
  | delete_message ↦ plan_delete row p.message_id
  | typing ↦ topic_aware (record (blank_call call_typing row.chat_id) { topic_id = row.topic_id })
  | send_photo ↦ plan_file call_send_photo "'photo_path'" row p p.photo_path
  | send_document ↦ plan_file call_send_document "'document_path'" row p p.document_path
  | unsupported name ↦ fails (other_error ("Unsupported Telegram queue operation " <> name <> "."))
]

-- `answer calls call` is what the client does on `call` after the earlier `calls`.
module _ (answer : List Call → Call → Answer) where
  -- the loop over the keywords in _invoke_telegram, after a TypeError
  retry_reduced : List Keyword → Error → Call → List Call → Answer × List Call
  unfolding drop_keyword
  retry_reduced [] first call calls = (raised first, calls)
  retry_reduced (key ∷ keys) first call calls =
      let reduced = drop_keyword key call in
      let rest = retry_reduced keys first reduced (calls ++ reduced ∷ []) in
      elim (answer calls reduced) [
        | returned r ↦ (returned r, calls ++ reduced ∷ [])
        | raised e ↦ elim e [
          | type_error _ ↦ rest
          | telegram_error t ↦ (raised (telegram_error t), calls ++ reduced ∷ [])
          | other_error t ↦ (raised (other_error t), calls ++ reduced ∷ [])
        ]
      ]

  after_first : Call → List Call → Answer → Answer × List Call
  unfolding retry_reduced
  after_first call calls (raised (type_error t)) =
      retry_reduced dropped_keywords (type_error t) call calls
  after_first call calls a = (a, calls)

  -- _invoke_telegram
  unfoldable pub invoke_telegram : Call → List Call → Answer × List Call
  unfolding after_first
  invoke_telegram call calls = after_first call (calls ++ call ∷ []) (answer calls call)

  retry_closed : Call → Option ℤ → Answer × List Call → Answer × List Call
  retry_closed call (some topic) (raised (telegram_error t), calls) =
      if is_topic_closed_error t
      then invoke_telegram (record call { topic_id = none }) calls
      else (raised (telegram_error t), calls)
  retry_closed call topic result = result

  -- _invoke_topic_aware_telegram
  unfoldable pub invoke_topic_aware : Call → List Call → Answer × List Call
  unfolding retry_closed
  invoke_topic_aware call calls = retry_closed call call.topic_id (invoke_telegram call calls)

  unfoldable pub carry_out : Plan → Answer × List Call
  carry_out (topic_aware call) = invoke_topic_aware call []
  carry_out (plain_call call) = invoke_telegram call []
  carry_out (bare call) = (answer [] call, call ∷ [])
  carry_out (fails e) = (raised e, [])

  -- `missing_text` is str() of the exception for an artifact file that is not there.
  module _ (missing_text : String → String) where
    execute_loaded : Row → Loaded → Answer × List Call
    unfolding carry_out plan
    execute_loaded row (loaded p) = carry_out (plan row p)
    execute_loaded row (missing ref) = (raised (other_error (missing_text ref)), [])

    -- _execute_row, with the calls that it made
    unfoldable pub execute_row : Store → Row → Answer × List Call
    unfolding execute_loaded decode_payload
    execute_row s row = execute_loaded row (decode_payload s row.payload_json)
