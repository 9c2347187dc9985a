-- ===== src/Pairing/Codes.antt =====
-- What the operations on an AuthState of src/integrations/telegram.py promise.
use tele_cli.Prelude.{
  ℕ, ◌≡◌, ◌↔◌, ◌⊎◌, inl, inr, refl, String, true, false, some, string_eq, option_eq, int_eq, is_set,
  or_text, strip, arith, eq_iff, option_beq_iff, Bool-cases,
}
use tele_cli.Models.{AuthState}
use tele_cli.Pairing.{
  Update, authorized, code_issued, is_auth_paired, has_pending_pairing, five_digits, adopt_request,
  register_pairing_request, confirm_pairing_code,
}

module _ (drawn : ℕ) (now : String) (update : Update) (auth : AuthState) where
  Adopted-paired : is_auth_paired (adopt_request drawn now update auth) ≡ is_auth_paired auth
  unfolding adopt_request is_auth_paired
  Adopted-paired = refl

  Topic-paired :
      is_auth_paired (record auth { pending_topic_id = update.topic_id }) ≡ is_auth_paired auth
  unfolding is_auth_paired
  Topic-paired = refl

  Same-paired :
      is_auth_paired auth ≡ false
      → is_auth_paired (register_pairing_request drawn now update auth).0 ≡ is_auth_paired auth
  unfolding register_pairing_request
  Same-paired e = ground (arith, e, Adopted-paired, Topic-paired)

  -- A message from Telegram never pairs and never unpairs. Once an operator is paired, it leaves the
  -- whole state as it is, and it is authorized exactly if it comes from the paired user.
  pub register_paired :
      let (after, ok, status) = register_pairing_request drawn now update auth in
      (is_auth_paired after ≡ is_auth_paired auth)
      × (is_auth_paired auth ≡ true
          → (after ≡ auth)
            × (ok ≡ true ↔ auth.telegram_user_id ≡ update.user_id)
            × (status ≡ authorized ↔ auth.telegram_user_id ≡ update.user_id))
  unfolding register_pairing_request
  register_paired = elim (Bool-cases (is_auth_paired auth)) [
    | inl e ↦ ground (e, arith, option_beq_iff auth.telegram_user_id update.user_id)
    | inr e ↦ (Same-paired e, λ f. ground (arith, e, f))
  ]

  -- Where nobody is paired, a message with a user and a chat leaves both of them pending, with its
  -- topic, and no other field but the code and its time is changed. The code is the one drawn for this
  -- message, unless the same chat and user were pending before, which keep their code.
  pub register_unpaired :
      is_auth_paired auth ≡ false
      → is_set update.user_id ≡ true
      → is_set update.chat_id ≡ true
      → let (after, ok, status) = register_pairing_request drawn now update auth in
        (status ≡ code_issued)
        × (ok ≡ false)
        × (after.pending_user_id ≡ update.user_id)
        × (after.pending_chat_id ≡ update.chat_id)
        × (after.pending_topic_id ≡ update.topic_id)
        × (after.telegram_user_id ≡ auth.telegram_user_id)
        × ((after.pairing_code ≡ some (five_digits drawn))
            ⊎ ((after.pairing_code ≡ auth.pairing_code)
                × (auth.pending_user_id ≡ update.user_id)
                × (auth.pending_chat_id ≡ update.chat_id)))
  unfolding register_pairing_request adopt_request
  register_unpaired u i c = ground (
    arith,
    option_beq_iff auth.pending_user_id update.user_id,
    option_beq_iff auth.pending_chat_id update.chat_id,
  )

module _ (now code : String) (auth : AuthState) where
  -- The code that is typed is accepted exactly if a pairing is pending and the code, stripped of white
  -- space, is the pending one. Then the pending user, chat and topic are the authorized ones and nothing is
  -- pending; otherwise nothing changes.
  pub confirm_exact :
      let (after, ok) = confirm_pairing_code now code auth in
      (ok ≡ true
        ↔ ((has_pending_pairing auth ≡ true) × (strip code ≡ or_text auth.pairing_code "")))
      × (ok ≡ false → after ≡ auth)
      × (ok ≡ true
          → (after.telegram_user_id ≡ auth.pending_user_id)
            × (after.telegram_chat_id ≡ auth.pending_chat_id)
            × (after.telegram_topic_id ≡ auth.pending_topic_id)
            × (has_pending_pairing after ≡ false)
            × (after.paired_at ≡ some now))
  unfolding confirm_pairing_code has_pending_pairing
  confirm_exact = ground (arith, eq_iff (strip code) (or_text auth.pairing_code ""))
