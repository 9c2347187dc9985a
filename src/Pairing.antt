-- ===== src/Pairing.antt =====
-- src/integrations/telegram.py, src/setup/pairing.py and src/runtime/control.py: which Telegram user and chat are
-- authorized, and the code that a local operator types to authorize them.
pub mod Complete
pub mod Trace
pub mod Codes
pub mod Asked
mod Examples
use tele_cli.Prelude.{
  ℕ, ◌/◌, ◌%◌, ℤ, String, Bool, true, false, not, ◌&&◌, ◌||◌, Option, none, some, ◌==◌, nat_eq,
  string_eq, option_eq, int_eq, is_set, is_text, or_text, strip, ◌<>◌, if◌then◌else◌,
}
use tele_cli.Models.{AuthState}

-- is_auth_paired; the argument None of the source is `none`
unfoldable pub is_auth_paired : AuthState → Bool
is_auth_paired auth =
    not (auth.bot_token == "") && is_set auth.telegram_user_id && is_text auth.paired_at

-- has_pending_pairing
unfoldable pub has_pending_pairing : AuthState → Bool
has_pending_pairing auth =
    is_text auth.pairing_code && is_set auth.pending_chat_id && is_set auth.pending_user_id

digit : ℕ → String
digit d =
    if d == 0
    then "0"
    else if d == 1
    then "1"
    else if d == 2
    then "2"
    else if d == 3
    then "3"
    else if d == 4
    then "4"
    else if d == 5
    then "5"
    else if d == 6
    then "6"
    else if d == 7
    then "7"
    else if d == 8
    then "8"
    else "9"

-- f"{n:05d}" of a number below 100000
unfoldable pub five_digits : ℕ → String
unfolding digit
five_digits n =
    digit (n / 10000 % 10)
    <> digit (n / 1000 % 10)
    <> digit (n / 100 % 10)
    <> digit (n / 10 % 10)
    <> digit (n % 10)

-- issue_pairing_code: `drawn` is random.randint(0, 99999), `now` is utc_now()
unfoldable pub issue_pairing_code : (drawn : ℕ) (now : String) → AuthState → AuthState
issue_pairing_code drawn now auth = record auth {
  pairing_code = some (five_digits drawn);
  pending_issued_at = some now;
}

-- the ids of an update that register_pairing_request reads
pub record Update : Type 0 where
  pub user_id : Option ℤ
  pub chat_id : Option ℤ
  pub topic_id : Option ℤ

pub data PairingStatus : Type 0 where
  already_paired authorized pending code_issued : PairingStatus

-- the assignments behind issue_pairing_code
unfoldable pub adopt_request : (drawn : ℕ) (now : String) → Update → AuthState → AuthState
unfolding issue_pairing_code
adopt_request drawn now update auth = record (issue_pairing_code drawn now auth) {
  pending_chat_id = update.chat_id;
  pending_user_id = update.user_id;
  pending_topic_id = update.topic_id;
}

is_none : Option ℤ → Bool
is_none none = true
is_none (some n) = false

-- register_pairing_request: the new state and the pair that it returns
unfoldable pub register_pairing_request :
    (drawn : ℕ) (now : String) → Update → AuthState → AuthState × Bool × PairingStatus
unfolding is_none
register_pairing_request drawn now update auth =
    if is_auth_paired auth
    then (if not (auth.telegram_user_id == update.user_id)
        then (auth, false, already_paired)
        else (auth, true, authorized))
    else if not (is_set update.user_id) || not (is_set update.chat_id)
    then (auth, false, pending)
    else if is_none auth.pending_chat_id || is_none auth.pending_user_id
    then (adopt_request drawn now update auth, false, code_issued)
    else if not (auth.pending_chat_id == update.chat_id)
        || not (auth.pending_user_id == update.user_id)
    then (adopt_request drawn now update auth, false, code_issued)
    else (record auth { pending_topic_id = update.topic_id }, false, code_issued)

-- confirm_pairing_code: the new state and whether the code was right
unfoldable pub confirm_pairing_code : (now : String) → String → AuthState → AuthState × Bool
confirm_pairing_code now code auth =
    if not (has_pending_pairing auth)
    then (auth, false)
    else if not (strip code == or_text auth.pairing_code "")
    then (auth, false)
    else (
      record auth {
        telegram_user_id = auth.pending_user_id;
        telegram_chat_id = auth.pending_chat_id;
        telegram_topic_id = auth.pending_topic_id;
        paired_at = some now;
        pairing_code = none;
        pending_chat_id = none;
        pending_user_id = none;
        pending_topic_id = none;
        pending_issued_at = none;
      },
      true,
    )

-- reset_auth of src/runtime/control.py, on the auth state that the file holds
unfoldable pub reset_auth : AuthState → AuthState
reset_auth auth = record auth {
  telegram_user_id = none;
  telegram_chat_id = none;
  paired_at = none;
  pairing_code = none;
  pending_user_id = none;
  pending_chat_id = none;
  pending_issued_at = none;
}
