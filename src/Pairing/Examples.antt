-- ===== src/Pairing/Examples.antt =====
-- A pairing: user 7 writes from chat 7, and the operator types the code 00042 that it issues.
use tele_cli.Prelude.{◌≡◌, refl, pos, true, false, none, some, List, [], ◌∷◌, any, strip, ◌⊎◌, ◌↔◌}
use tele_cli.Models.{AuthState}
use tele_cli.Pairing.{
  Update, authorized, is_auth_paired, has_pending_pairing, five_digits, adopt_request,
  register_pairing_request, confirm_pairing_code, issue_pairing_code,
}
use tele_cli.Pairing.Codes.{register_paired}
use tele_cli.Pairing.Complete.{returned, asking, complete_pending_pairing}
use tele_cli.Pairing.Asked.{is_right, complete_pending_pairing_outcome}
use tele_cli.Pairing.Trace.{Event, update, typed, start, run, Authorized, run-Authorized}

abbrev fresh : AuthState
fresh = record {
  bot_token = "token";
  telegram_user_id = none;
  telegram_chat_id = none;
  telegram_topic_id = none;
  paired_at = none;
  pairing_code = none;
  pending_user_id = none;
  pending_chat_id = none;
  pending_topic_id = none;
  pending_issued_at = none;
}

abbrev pending_auth : AuthState
pending_auth = record fresh {
  pairing_code = some "00042";
  pending_user_id = some (pos 7);
  pending_chat_id = some (pos 7);
  pending_issued_at = some "noon";
}

abbrev paired_auth : AuthState
paired_auth = record fresh {
  telegram_user_id = some (pos 7);
  telegram_chat_id = some (pos 7);
  paired_at = some "noon";
}

abbrev message : Update
message = record { user_id = some (pos 7); chat_id = some (pos 7); topic_id = none }

abbrev story : List Event
story = update 42 "noon" message ∷ typed "noon" "00041" ∷ typed "noon" " 00042 " ∷ []

run-story : (run story (start fresh)).auth ≡ paired_auth
unfolding register_pairing_request confirm_pairing_code is_auth_paired has_pending_pairing
    adopt_request issue_pairing_code five_digits strip
run-story = refl

is_auth_paired-fresh : is_auth_paired fresh ≡ false
unfolding is_auth_paired
is_auth_paired-fresh = refl

is_auth_paired-story : is_auth_paired (run story (start fresh)).auth ≡ true
unfolding register_pairing_request confirm_pairing_code is_auth_paired has_pending_pairing
    adopt_request issue_pairing_code five_digits strip
is_auth_paired-story = refl

run-Authorized_example : Authorized (run story (start fresh))
run-Authorized_example = run-Authorized story fresh is_auth_paired-fresh is_auth_paired-story

register_paired_example :
    let (after, ok, status) = register_pairing_request 42 "noon" message paired_auth in
    (is_auth_paired after ≡ is_auth_paired paired_auth)
    × (is_auth_paired paired_auth ≡ true
        → (after ≡ paired_auth)
          × (ok ≡ true ↔ paired_auth.telegram_user_id ≡ message.user_id)
          × (status ≡ authorized ↔ paired_auth.telegram_user_id ≡ message.user_id))
register_paired_example = register_paired 42 "noon" message paired_auth

asked :
    complete_pending_pairing "noon" none none true ("1" ∷ "00042" ∷ []) pending_auth
    ≡ (paired_auth, returned true)
unfolding complete_pending_pairing is_auth_paired has_pending_pairing confirm_pairing_code strip
asked = refl

complete_pending_pairing_outcome_example :
    let (after, c) =
      complete_pending_pairing "noon" none none true ("1" ∷ "00042" ∷ []) pending_auth in
    (c ≡ returned true
      → ((is_auth_paired pending_auth ≡ true) × (after ≡ pending_auth))
        ⊎ ((any (is_right pending_auth) ("1" ∷ "00042" ∷ []) ≡ true)
            × (has_pending_pairing pending_auth ≡ true)
            × (after.telegram_user_id ≡ pending_auth.pending_user_id)
            × (after.telegram_chat_id ≡ pending_auth.pending_chat_id)))
    × (c ≡ returned false → (is_auth_paired pending_auth ≡ false) × (after ≡ pending_auth))
    × (c ≡ asking → after ≡ pending_auth)
complete_pending_pairing_outcome_example =
    complete_pending_pairing_outcome "noon" none none true ("1" ∷ "00042" ∷ []) pending_auth
