-- ===== src/Pairing/Trace.antt =====
-- The history of a pairing: what was pending for whom, and which codes were typed, before an operator
-- is authorized.
use tele_cli.Prelude.{
  ℕ, ◌≡◌, refl, sym, ℤ, String, true, false, Option, List, [], ◌∷◌, arith, or_text, strip,
  Bool-cases, inl, inr, ap, ◌∙◌, subst,
}
use mathlib.Core.List.{Memᴰ}
use tele_cli.Models.{AuthState}
use tele_cli.Pairing.{
  Update, is_auth_paired, register_pairing_request, confirm_pairing_code, reset_auth,
}
use tele_cli.Pairing.Codes.{register_paired, confirm_exact}

-- what happens to the auth state: a Telegram update, a code typed at the terminal, reset-auth
pub data Event : Type 0 where
  update : (drawn : ℕ) (now : String) → Update → Event
  typed : (now code : String) → Event
  reset : Event

-- what is pending: a code, for a user and a chat
pub record Issue : Type 0 where
  pub code : Option String
  pub user_id : Option ℤ
  pub chat_id : Option ℤ

abbrev issue_of : AuthState → Issue
issue_of auth = record {
  code = auth.pairing_code;
  user_id = auth.pending_user_id;
  chat_id = auth.pending_chat_id;
}

-- the state, with all that has been pending and all that has been typed so far
pub record History : Type 0 where
  pub auth : AuthState
  pub issued : List Issue
  pub codes : List String

abbrev pub start : AuthState → History
start auth = record { auth = auth; issued = issue_of auth ∷ []; codes = [] }

abbrev step : Event → History → History
step (update drawn now u) h =
    let after = (register_pairing_request drawn now u h.auth).0 in
    record h { auth = after; issued = issue_of after ∷ h.issued }
step (typed now code) h =
    let after = (confirm_pairing_code now code h.auth).0 in
    record { auth = after; issued = issue_of after ∷ h.issued; codes = strip code ∷ h.codes }
step reset h =
    let after = reset_auth h.auth in record h { auth = after; issued = issue_of after ∷ h.issued }

abbrev pub run : List Event → History → History
run [] h = h
run (e ∷ es) h = run es (step e h)

Grant : List Issue → List String → AuthState → Type 0
Grant issued codes auth =
    (i : Issue) × Memᴰ i issued
    × Memᴰ (or_text i.code "") codes
    × (auth.telegram_user_id ≡ i.user_id)
    × (auth.telegram_chat_id ≡ i.chat_id)

grow-Grant :
    (i : Issue) (issued : List Issue) (codes : List String) (auth : AuthState)
    → Grant issued codes auth
    → Grant (i ∷ issued) codes auth
unfolding Grant
grow-Grant i issued codes auth (j, m, c, u, t) = (j, Memᴰ.tail m, c, u, t)

typed-Grant :
    (i : Issue) (code : String) (issued : List Issue) (codes : List String) (auth : AuthState)
    → Grant issued codes auth
    → Grant (i ∷ issued) (code ∷ codes) auth
unfolding Grant
typed-Grant i code issued codes auth (j, m, c, u, t) = (j, Memᴰ.tail m, Memᴰ.tail c, u, t)

-- The user and the chat that are authorized were pending with a code that was typed.
pub Authorized : History → Type 0
Authorized h = Grant h.issued h.codes h.auth

Sound : History → Type 0
Sound h = Memᴰ (issue_of h.auth) h.issued × (is_auth_paired h.auth ≡ true → Authorized h)

update-Sound :
    (drawn : ℕ) (now : String) (u : Update) (h : History)
    → Sound h
    → Sound (step (update drawn now u) h)
unfolding Sound Authorized
update-Sound drawn now u h (p, a) =
    let same = register_paired drawn now u h.auth in
    (
      Memᴰ.head refl,
      λ f.
          let e = sym same.0 ∙ f in
          subst
            (Grant (issue_of (register_pairing_request drawn now u h.auth).0 ∷ h.issued) h.codes)
            (sym (same.1 e).0) (grow-Grant _ h.issued h.codes h.auth (a e)),
    )

module _ (now code : String) (h : History) where
  right-Grant :
      (confirm_pairing_code now code h.auth).1 ≡ true
      → Memᴰ (issue_of h.auth) h.issued
      → Grant
          (issue_of (confirm_pairing_code now code h.auth).0 ∷ h.issued)
          (strip code ∷ h.codes)
          (confirm_pairing_code now code h.auth).0
  unfolding Grant
  right-Grant ok p =
      let exact = confirm_exact now code h.auth in
      let done = exact.2 ok in
      (issue_of h.auth, Memᴰ.tail p, Memᴰ.head (sym (exact.0.0 ok).1), done.0, done.1)

  wrong-Grant :
      (confirm_pairing_code now code h.auth).1 ≡ false
      → (is_auth_paired h.auth ≡ true → Grant h.issued h.codes h.auth)
      → is_auth_paired (confirm_pairing_code now code h.auth).0 ≡ true
      → Grant
          (issue_of (confirm_pairing_code now code h.auth).0 ∷ h.issued)
          (strip code ∷ h.codes)
          (confirm_pairing_code now code h.auth).0
  wrong-Grant ok a f =
      let same = (confirm_exact now code h.auth).1 ok in
      subst
        (Grant (issue_of (confirm_pairing_code now code h.auth).0 ∷ h.issued)
          (strip code ∷ h.codes))
        (sym same) (typed-Grant _ _ h.issued h.codes h.auth (a (sym (ap is_auth_paired same) ∙ f)))

typed-Sound : (now code : String) (h : History) → Sound h → Sound (step (typed now code) h)
unfolding Sound Authorized
typed-Sound now code h (p, a) = (
  Memᴰ.head refl,
  λ f. elim (Bool-cases (confirm_pairing_code now code h.auth).1) [
    | inl ok ↦ right-Grant now code h ok p
    | inr ok ↦ wrong-Grant now code h ok a f
  ],
)

reset-Sound : (h : History) → Sound (step reset h)
unfolding Sound reset_auth is_auth_paired
reset-Sound h = (Memᴰ.head refl, λ f. ground (arith, f))

step-Sound : (e : Event) (h : History) → Sound h → Sound (step e h)
step-Sound (update drawn now u) h s = update-Sound drawn now u h s
step-Sound (typed now code) h s = typed-Sound now code h s
step-Sound reset h s = reset-Sound h

run-Sound : (es : List Event) (h : History) → Sound h → Sound (run es h)
run-Sound [] h s = s
run-Sound (e ∷ es) h s = run-Sound es (step e h) (step-Sound e h s)

-- If nobody is authorized at first, then whoever is authorized after any sequence of Telegram messages,
-- typed codes and resets was pending, as this user in this chat, with a code that was typed at the
-- terminal (up to white space around it).
pub run-Authorized :
    (es : List Event) (auth : AuthState)
    → is_auth_paired auth ≡ false
    → is_auth_paired (run es (start auth)).auth ≡ true
    → Authorized (run es (start auth))
unfolding Sound
run-Authorized es auth u p =
    (run-Sound es (start auth) (Memᴰ.head refl, λ f. ground (arith, f, u))).1 p
