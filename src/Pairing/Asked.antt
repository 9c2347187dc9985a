-- ===== src/Pairing/Asked.antt =====
-- What complete_pending_pairing of src/setup/pairing.py returns.
use tele_cli.Prelude.{
  ◌≡◌, ◌⊎◌, String, Bool, true, false, List, [], ◌∷◌, any, strip, or_text, ◌==◌, string_eq, arith,
}
use tele_cli.Models.{AuthState}
use tele_cli.Pairing.{is_auth_paired, has_pending_pairing, confirm_pairing_code}
use tele_cli.Pairing.Complete.{returned, asking, Sent, announce, resend, complete_pending_pairing}

-- a line is the pending code, but for white space
abbrev pub is_right : AuthState → String → Bool
is_right auth code = strip code == or_text auth.pairing_code ""

module _ (now : String) (first second : Sent) (allow_empty : Bool) where
  -- Where complete_pending_pairing returns true, a user was paired before it and nothing changed, or a
  -- line typed was the pending code and the pending user and chat are authorized now. Where it returns
  -- false, nobody was paired, and nothing changed. While it waits for a further line nothing has changed.
  pub complete_pending_pairing_outcome :
      (codes : List String) (auth : AuthState)
      → let (after, c) = complete_pending_pairing now first second allow_empty codes auth in
        (c ≡ returned true
          → ((is_auth_paired auth ≡ true) × (after ≡ auth))
            ⊎ ((any (is_right auth) codes ≡ true)
                × (has_pending_pairing auth ≡ true)
                × (after.telegram_user_id ≡ auth.pending_user_id)
                × (after.telegram_chat_id ≡ auth.pending_chat_id)))
        × (c ≡ returned false → (is_auth_paired auth ≡ false) × (after ≡ auth))
        × (c ≡ asking → after ≡ auth)
  unfolding complete_pending_pairing announce resend confirm_pairing_code
  complete_pending_pairing_outcome [] auth = ground arith
  complete_pending_pairing_outcome (code ∷ codes) auth =
      ground (arith, complete_pending_pairing_outcome codes auth)
