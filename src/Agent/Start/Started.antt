-- ===== src/Agent/Start/Started.antt =====
-- When start_app_server_session of src/runtime/app_server_runtime.py gives a session, and what it leaves.
use tele_cli.Prelude.{
  ◌≡◌, refl, sym, ◌∙◌, ap, inl, inr, ◌⊎◌, String, Bool, true, false, Option, none, some, ◌==◌,
  string_eq, All, arith,
}
use tele_cli.Agent.Json.{Fields, end}
use tele_cli.Agent.States.{
  CodexServerState, normalize_initialize_result, validate_initialize_result, derive_codex_state,
  build_codex_server_state, build_failed_codex_server_state, new_server_state,
}
use tele_cli.Turns.Recovery.{IsSettled, recover_inflight_sessions-IsSettled}
use tele_cli.Agent.Start.{
  Result, ok, error, Peer, Store, Ended, returned, raised, log_in, recover, handshake,
  bootstrap_app_server_session, start_app_server_session, log_lifecycle, close_rpc, finish,
  with_transport, settle, give_up, try_call, try_result, save_codex_server_state, set_codex_state,
}

-- Every call that the start needs ends well, with an answer to initialize that is valid and with this account. The
-- login is not one of them.
pub record Answers (p : Peer) (result answer : Fields) : Type 0 where
  pub opened : p.opened ≡ none
  pub rpc_started : p.rpc_started ≡ none
  pub initialize : p.initialize ≡ ok result
  pub valid : validate_initialize_result (normalize_initialize_result result) ≡ none
  pub initialized : p.initialized ≡ none
  pub account : p.account ≡ ok answer

-- what a start that gives a session leaves
pub record IsStarted (p : Peer) (account : Fields) (s : Store) : Type 0 where
  pub state : s.live.codex_state ≡ derive_codex_state account
  pub saved : s.saved ≡ some s.live
  pub server :
      (st : CodexServerState) × (s.server_state ≡ some st)
      × (st.initialized ≡ true)
      × (st.auth_required ≡ (s.live.codex_state == "AUTH_REQUIRED"))
  pub sessions : All (IsSettled p.parse p.now) s.tables.sessions
  pub needs_close : s.needs_close ≡ true

-- what a start that fails leaves
pub record IsFailed (s : Store) : Type 0 where
  pub state : s.live.codex_state ≡ "DEGRADED"
  pub saved : s.saved ≡ some s.live
  pub server :
      (st : CodexServerState) × (e : String) × (s.server_state ≡ some st)
      × (st.initialized ≡ false)
      × (st.last_error ≡ some e)
  pub needs_close : s.needs_close ≡ false

log_in-needs_close :
    (p : Peer) (account : Fields) (s : Store) → (log_in p account s).1.needs_close ≡ s.needs_close
unfolding log_in log_lifecycle
log_in-needs_close p account s = ground arith

recover-IsStarted :
    (p : Peer) (result account : Fields) (s : Store)
    → s.needs_close ≡ true
    → ((recover p result account s).0 ≡ returned)
      × IsStarted p account (recover p result account s).1
unfolding recover finish log_lifecycle save_codex_server_state set_codex_state
    build_codex_server_state new_server_state
recover-IsStarted p result account s opened =
    let told = (log_in p account s).1 in
    let (after, same, settled) =
      recover_inflight_sessions-IsSettled p.parse p.now p.resolve p.utc_now told.tables in
    rw (recover, same)
      (
        refl,
        record {
          state = refl;
          saved = refl;
          server = (_, refl, refl, refl);
          sessions = settled;
          needs_close = log_in-needs_close p account s ∙ opened;
        },
      )

ok-error : {r : Fields} {e : String} → ok r ≡ error e → ⊥
ok-error h = ground (arith, h)

none-some : {e : String} → none ≡ some e → ⊥
none-some h = ground (arith, h)

dict : Result → Fields
dict (ok r) = r
dict (error e) = end

dict-ok : {r r2 : Fields} → ok r ≡ ok r2 → r ≡ r2
unfolding dict
dict-ok h = ap dict h

checked : Fields → Option String
checked r = validate_initialize_result (normalize_initialize_result r)

-- how bootstrap_app_server_session can end
IsBooted : Peer → Ended × Store → Type 0
IsBooted p out =
    ((result : Fields) × (account : Fields) × Answers p result account
      × (out.0 ≡ returned)
      × IsStarted p account out.1)
    ⊎ (((result account : Fields) → ¬ Answers p result account) × (e : String) × (out.0 ≡ raised e))

module _ (P : Ended × Store → Type 0) where
  by_result :
      (x : Result) (s : Store) (k : Fields → Store → Ended × Store)
      → ((r : Fields) → x ≡ ok r → P (k r s))
      → ((e : String) → x ≡ error e → P (raised e, s))
      → P (try_result x s k)
  by_result (ok r) s k f g = f r refl
  by_result (error e) s k f g = g e refl

  by_call :
      (x : Option String) (s : Store) (k : Store → Ended × Store)
      → (x ≡ none → P (k s))
      → ((e : String) → x ≡ some e → P (raised e, s))
      → P (try_call x s k)
  by_call none s k f g = f refl
  by_call (some e) s k f g = g e refl

handshake-IsBooted :
    (p : Peer) (s : Store)
    → s.needs_close ≡ true
    → p.opened ≡ none
    → p.rpc_started ≡ none
    → IsBooted p (handshake p s)
unfolding handshake log_lifecycle IsBooted checked
handshake-IsBooted p s live opened begun =
    by_result (IsBooted p) p.initialize _ _
      (λ r i.
        by_call (IsBooted p) (validate_initialize_result (normalize_initialize_result r)) _ _
          (λ v.
            by_call (IsBooted p) p.initialized _ _
              (λ n.
                by_result (IsBooted p) p.account _ _
                  (λ x a.
                    let (same, started) =
                      recover-IsStarted p (normalize_initialize_result r) x _ live in
                    inl (
                      r,
                      x,
                      record {
                        opened = opened;
                        rpc_started = begun;
                        initialize = i;
                        valid = v;
                        initialized = n;
                        account = a;
                      },
                      same,
                      started,
                    ))
                  (λ e a. inr ((λ r2 x h. ok-error (sym h.account ∙ a)), e, refl)))
              (λ e n. inr ((λ r2 x h. none-some (sym h.initialized ∙ n)), e, refl)))
          (λ e v. inr (
            (λ r2 x h. none-some (sym h.valid ∙ ap checked (dict-ok (sym h.initialize ∙ i)) ∙ v)),
            e,
            refl,
          )))
      (λ e i. inr ((λ r2 x h. ok-error (sym h.initialize ∙ i)), e, refl))

close_rpc-IsBooted :
    (p : Peer) (c : Option String) (out : Ended × Store)
    → IsBooted p out
    → IsBooted p (close_rpc c out)
unfolding IsBooted
close_rpc-IsBooted p c (returned, s) h = h
close_rpc-IsBooted p none (raised e, s) (inl (r, a, h, same, i)) = absurd (ground (arith, same))
close_rpc-IsBooted p none (raised e, s) (inr (f, x, same)) = inr (f, _, refl)
close_rpc-IsBooted p (some g) (raised e, s) (inl (r, a, h, same, i)) = absurd (ground (arith, same))
close_rpc-IsBooted p (some g) (raised e, s) (inr (f, x, same)) = inr (f, _, refl)

bootstrap-IsBooted :
    (p : Peer) (s : Store)
    → s.needs_close ≡ true
    → p.opened ≡ none
    → IsBooted p (bootstrap_app_server_session p s)
unfolding bootstrap_app_server_session log_lifecycle IsBooted
bootstrap-IsBooted p s live opened =
    by_call (IsBooted p) p.rpc_started _ _
      (λ b. close_rpc-IsBooted p p.rpc_closed _ (handshake-IsBooted p _ live opened b))
      (λ e b. inr ((λ r a h. none-some (sym h.rpc_started ∙ b)), e, refl))

-- how start_app_server_session ends
pub IsEnded : Peer → Bool × Store → Type 0
IsEnded p out =
    ((result : Fields) × (account : Fields) × Answers p result account
      × (out.0 ≡ true)
      × IsStarted p account out.1)
    ⊎ (((result account : Fields) → ¬ Answers p result account) × (out.0 ≡ false) × IsFailed out.1)

give_up-IsFailed :
    (p : Peer) (e : String) (s : Store) → s.needs_close ≡ false → IsFailed (give_up p e s)
unfolding give_up set_codex_state save_codex_server_state build_failed_codex_server_state
    log_lifecycle new_server_state
give_up-IsFailed p e s closed = record {
  state = refl;
  saved = refl;
  server = (_, e, refl, refl, refl);
  needs_close = closed;
}

settle-IsEnded : (p : Peer) (out : Ended × Store) → IsBooted p out → IsEnded p (settle p out)
unfolding IsBooted IsEnded
settle-IsEnded p (returned, s) (inl (r, a, h, same, i)) = inl (r, a, h, refl, i)
settle-IsEnded p (returned, s) (inr (f, e, same)) = absurd (ground (arith, same))
settle-IsEnded p (raised x, s) (inl (r, a, h, same, i)) = absurd (ground (arith, same))
settle-IsEnded p (raised x, s) (inr (f, e, same)) =
    inr (f, refl, give_up-IsFailed p x (record s { needs_close = false }) refl)

with_transport-IsEnded :
    (p : Peer) (s : Store)
    → s.needs_close ≡ false
    → (x : Option String) → p.opened ≡ x
    → IsEnded p (with_transport x p s)
unfolding IsEnded
with_transport-IsEnded p s closed none o =
    settle-IsEnded p _ (bootstrap-IsBooted p (record s { needs_close = true }) refl o)
with_transport-IsEnded p s closed (some e) o =
    inr ((λ r a h. none-some (sym h.opened ∙ o)), refl, give_up-IsFailed p e s closed)

-- Behind the start of the agent's process, with no transport open before, one of two things holds. Either every call
-- that the start needs ends well, the login not being one of them, and there is a session: the state of the agent is
-- the one that the account tells, it and the state of the server are saved and agree on whether a login is required,
-- no session of the table recovers a turn or runs one that is stale, and the transport stays open. Or
-- one of these calls does not, and there is none: DEGRADED and a state of the server with the error are saved, and a
-- transport that was opened has been closed.
pub start_app_server_session-IsEnded :
    (p : Peer) (s : Store) → s.needs_close ≡ false → IsEnded p (start_app_server_session p s)
unfolding start_app_server_session
start_app_server_session-IsEnded p s closed = with_transport-IsEnded p s closed p.opened refl
