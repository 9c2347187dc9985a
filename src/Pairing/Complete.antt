-- ===== src/Pairing/Complete.antt =====
-- src/setup/pairing.py: complete_pending_pairing, which asks for the code until it is right.
use tele_cli.Prelude.{
  ℤ, String, Bool, true, false, not, ◌&&◌, ◌||◌, Option, none, some, List, [], ◌∷◌, ◌==◌, string_eq,
  is_set, strip, if◌then◌else◌,
}
use tele_cli.Models.{AuthState}
use tele_cli.Pairing.{is_auth_paired, has_pending_pairing, confirm_pairing_code}
use tele_cli.Queue.Errors.{is_topic_closed_error}

-- the return value, an exception, or the wait for the next line of input
pub data Completed : Type 0 where
  returned : Bool → Completed
  raised : Completed
  asking : Completed

-- how a bot.send_message ends: `none` is a return, else the text of its TelegramError
abbrev pub Sent : Type 0
Sent = Option String

-- the second message, after a closed topic
unfoldable pub resend : Sent → AuthState → AuthState × Completed
resend none auth = (record auth { telegram_topic_id = none }, returned true)
resend (some error) auth = (record auth { telegram_topic_id = none }, raised)

-- the messages behind a confirmed code; `topic` is the pending topic before it was confirmed
unfoldable pub announce : Option ℤ → Sent → Sent → AuthState → AuthState × Completed
unfolding resend
announce topic none second auth = (auth, returned true)
announce topic (some error) second auth =
    if not (is_set topic) || not (is_topic_closed_error error)
    then (auth, raised)
    else resend second auth

-- `first` and `second` are the ends of the messages, `now` is utc_now(), the list the lines typed
module _ (now : String) (first second : Sent) (allow_empty : Bool) where
  unfoldable pub complete_pending_pairing : List String → AuthState → AuthState × Completed
  unfolding announce
  complete_pending_pairing [] auth =
      if is_auth_paired auth
      then (auth, returned true)
      else if not (has_pending_pairing auth)
      then (auth, returned false)
      else (auth, asking)
  complete_pending_pairing (code ∷ codes) auth =
      let (confirmed, right) = confirm_pairing_code now code auth in
      let again = complete_pending_pairing codes auth in
      if is_auth_paired auth
      then (auth, returned true)
      else if not (has_pending_pairing auth)
      then (auth, returned false)
      else if allow_empty && strip code == ""
      then (auth, returned false)
      else if right
      then announce auth.pending_topic_id first second confirmed
      else again
