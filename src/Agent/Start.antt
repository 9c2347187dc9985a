-- ===== src/Agent/Start.antt =====
-- src/runtime/app_server_runtime.py: bootstrap_app_server_session, and start_app_server_session of make_app_server_start_fn.
pub mod Started
use tele_cli.Prelude.{
  ℕ, String, Bool, true, false, Option, none, some, List, [], ◌∷◌, ◌++◌, ◌==◌, string_eq,
  if◌then◌else◌,
}
use tele_cli.Models.{RuntimeState, SessionRecord}
use tele_cli.Sessions.Types.{Tables, EventRow, Workspace}
use tele_cli.Turns.Sends.{recover_inflight_sessions}
use tele_cli.Agent.Json.{Fields, end}
use tele_cli.Agent.States.{
  CodexServerState, normalize_initialize_result, validate_initialize_result, derive_codex_state,
  build_codex_server_state, build_failed_codex_server_state, next_auth_state, authorized_state,
}

-- what a call that can raise gives, or the text of its exception
pub data Result : Type 0 where
  ok : Fields → Result
  error : String → Result

-- The server and what else is outside: how each call ends (for one that gives nothing, the text of its exception if it
-- raises), the clock, and what is read of timestamps and workspaces.
pub record Peer : Type 0 where
  pub transport_name : String
  pub opened : Option String
  pub rpc_started : Option String
  pub initialize : Result
  pub initialized : Option String
  pub account : Result
  pub login : Result
  pub rpc_closed : Option String
  pub utc_now : String
  pub now : ℕ
  pub parse : String → Option ℕ
  pub resolve : Option String → SessionRecord → Workspace

-- The runtime state that the caller holds, the two states that are saved, the tables, and whether there is a transport
-- of which close() has not been called.
pub record Store : Type 0 where
  pub live : RuntimeState
  pub saved : Option RuntimeState
  pub server_state : Option CodexServerState
  pub tables : Tables
  pub needs_close : Bool

-- how bootstrap_app_server_session ends: with a session, or with an exception
pub data Ended : Type 0 where
  returned : Ended
  raised : String → Ended

-- _log_app_server_lifecycle, whose events are of no session
unfoldable pub log_lifecycle : (event_type : String) → Store → Store
log_lifecycle event_type s =
    let row : EventRow = record {
      source = "app_server";
      event_type = event_type;
      session_id = none;
    } in
    record s { tables = record (s.tables) { events = s.tables.events ++ row ∷ [] } }

-- set_codex_state of the ServiceRuntime, and save_runtime_state
unfoldable pub set_codex_state : String → Store → Store
set_codex_state state s =
    let live : RuntimeState = record (s.live) { codex_state = state } in
    record s { live = live; saved = some live }

unfoldable pub save_codex_server_state : CodexServerState → Store → Store
save_codex_server_state st s = record s { server_state = some st }

-- a call that gives nothing, and the lines behind it
abbrev pub try_call : Option String → Store → (Store → Ended × Store) → Ended × Store
try_call none s k = k s
try_call (some e) s k = (raised e, s)

-- a call that gives a dict, and the lines behind it
abbrev pub try_result : Result → Store → (Fields → Store → Ended × Store) → Ended × Store
try_result (ok x) s k = k x s
try_result (error e) s k = (raised e, s)

abbrev pub log_login : Result → Store → Fields × Store
log_login (ok x) s = (x, log_lifecycle "app_server.login.completed" s)
log_login (error e) s = (end, log_lifecycle "app_server.login.failed" s)

-- the login, if one is required
unfoldable pub log_in : Peer → (account : Fields) → Store → Fields × Store
unfolding derive_codex_state log_lifecycle
log_in p account s =
    if derive_codex_state account == "AUTH_REQUIRED"
    then log_login p.login (log_lifecycle "app_server.login.started" s)
    else (end, s)

-- the lines behind the recovery of the sessions
unfoldable pub finish : Peer → (result account login : Fields) → Store → Ended × Store
unfolding log_lifecycle save_codex_server_state set_codex_state build_codex_server_state
    derive_codex_state
finish p result account login s =
    let stated =
      save_codex_server_state
        (build_codex_server_state p.utc_now p.transport_name result account login)
        (log_lifecycle "app_server.recovery.completed" s) in
    (
      returned,
      log_lifecycle "app_server.bootstrap.completed"
          (set_codex_state (derive_codex_state account) stated),
    )

-- the lines from the login on
unfoldable pub recover : Peer → (result account : Fields) → Store → Ended × Store
unfolding log_in recover_inflight_sessions finish
recover p result account s =
    let (login, told) = log_in p account s in
    elim (recover_inflight_sessions p.parse p.now p.resolve p.utc_now told.tables) [
      | none ↦ (raised "UNIQUE constraint failed", told)
      | some after ↦ finish p result account login (record told { tables = after })
    ]

-- the try block
unfoldable pub handshake : Peer → Store → Ended × Store
unfolding normalize_initialize_result validate_initialize_result log_lifecycle recover
handshake p s = try_result p.initialize s (λ answer s1.
    let result = normalize_initialize_result answer in
    try_call (validate_initialize_result result)
      (log_lifecycle "app_server.initialize.completed" s1)
      (λ s2. try_call p.initialized s2 (λ s3.
        try_result p.account (log_lifecycle "app_server.initialized.completed" s3) (λ account s4.
          recover p result account (log_lifecycle "app_server.account.received" s4)))))

-- rpc.close(), which closes the transport, of the except clause
abbrev pub close_rpc : Option String → Ended × Store → Ended × Store
close_rpc _ (returned, s) = (returned, s)
close_rpc none (raised e, s) = (raised e, record s { needs_close = false })
close_rpc (some again) (raised e, s) = (raised again, record s { needs_close = false })

unfoldable pub bootstrap_app_server_session : Peer → Store → Ended × Store
unfolding log_lifecycle handshake
bootstrap_app_server_session p s =
    try_call p.rpc_started (log_lifecycle "app_server.initialize.started" s)
      (λ s1. close_rpc p.rpc_closed (handshake p s1))

-- the lines behind transport.close(), of which an exception is dropped
unfoldable pub give_up : Peer → String → Store → Store
unfolding set_codex_state save_codex_server_state build_failed_codex_server_state log_lifecycle
give_up p last_error s = log_lifecycle "app_server.bootstrap.failed" (
    save_codex_server_state (build_failed_codex_server_state p.utc_now p.transport_name last_error)
      (set_codex_state "DEGRADED" s))

-- the return, or the except clause
abbrev pub settle : Peer → Ended × Store → Bool × Store
settle p (returned, s) = (true, s)
settle p (raised e, s) = (false, give_up p e (record s { needs_close = false }))

abbrev pub with_transport : Option String → Peer → Store → Bool × Store
with_transport (some e) p s = (false, give_up p e s)
with_transport none p s =
    settle p (bootstrap_app_server_session p (record s { needs_close = true }))

-- start_app_server_session: whether it gives a session
unfoldable pub start_app_server_session : Peer → Store → Bool × Store
unfolding bootstrap_app_server_session give_up
start_app_server_session p s = with_transport p.opened p s

-- update_codex_auth_state: the state that it returns, and the store; `has_runtime` where the caller passes the runtime
-- and its state
unfoldable pub update_codex_auth_state :
    (now : String) → (has_runtime : Bool) → (payload : Fields) → Store → String × Store
unfolding next_auth_state authorized_state save_codex_server_state set_codex_state
update_codex_auth_state now has_runtime payload s =
    let next = next_auth_state payload in
    let saved = save_codex_server_state (authorized_state now s.server_state payload) s in
    (next, if has_runtime then set_codex_state next saved else saved)
