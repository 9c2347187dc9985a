-- ===== src/Agent/Supervise.antt =====
-- src/runtime/service.py: the service loop starts the agent's process, finds it dead, and starts it again.
pub mod Spaced
use tele_cli.Prelude.{
  ℕ, suc, ◌+◌, String, ℤ, Bool, true, false, not, ◌&&◌, ◌||◌, Option, none, some, List, [], ◌∷◌,
  ◌++◌, leb, if◌then◌else◌,
}
use tele_cli.Models.{AuthState}
use tele_cli.Sessions.Types.{EventRow}
use tele_cli.Pairing.{is_auth_paired}
use tele_cli.Polling.{retry_delay}
use tele_cli.Agent.Start.{Peer, Store, set_codex_state, start_app_server_session}

-- what codex.is_alive gives
pub data Probe : Type 0 where
  no_method : Probe
  alive : Bool → Probe
  probe_raised : Probe

-- codex_is_alive
unfoldable pub codex_is_alive : (has_codex : Bool) → Probe → Bool
codex_is_alive false probe = false
codex_is_alive true no_method = true
codex_is_alive true (alive b) = b
codex_is_alive true probe_raised = false

-- The locals of the service loop that are about the process, in the unit of retry_delay, what is stored, and
-- whether an exception has ended the loop. `started_at` are the times at which the start was called, the last first,
-- and `recoveries` counts the lines of append_recovery_event.
pub record Supervisor : Type 0 where
  pub has_codex : Bool
  pub restart_failures : ℕ
  pub next_restart_at : ℕ
  pub store : Store
  pub recoveries : ℕ
  pub started_at : List ℕ
  pub ended : Bool

-- the locals at the start of the loop
unfoldable pub new_supervisor : Store → Supervisor
new_supervisor s = record {
  has_codex = false;
  restart_failures = 0;
  next_restart_at = 0;
  store = s;
  recoveries = 0;
  started_at = [];
  ended = false;
}

-- What a round of the loop finds: the clock, the process, the pairing, and what a start would meet.
pub record Round : Type 0 where
  pub now : ℕ
  pub probe : Probe
  pub auth : AuthState
  pub peer : Peer

-- stop_codex_runtime: `has_stop` unless the process has no such method; an exception is dropped
unfoldable pub stop_codex_runtime : (has_codex has_stop : Bool) → Store → Store
stop_codex_runtime has_codex has_stop s =
    if has_codex && has_stop then record s { needs_close = false } else s

-- the call of the start, by invoke_start_codex_session_fn
unfoldable pub invoke_start : Round → Supervisor → Bool × Supervisor
unfolding start_app_server_session
invoke_start r v =
    let (started, store) = start_app_server_session r.peer v.store in
    (started, record v { store = store; started_at = r.now ∷ v.started_at })

-- restart_codex_runtime; the caller takes what it gives for its codex
unfoldable pub restart_codex_runtime : (has_stop : Bool) → Round → Supervisor → Supervisor
unfolding stop_codex_runtime set_codex_state invoke_start
restart_codex_runtime has_stop r v =
    let stopped = record v {
      store = set_codex_state "STOPPED" (stop_codex_runtime v.has_codex has_stop v.store);
    } in
    let (started, after) = invoke_start r stopped in
    if is_auth_paired r.auth
    then record after { has_codex = started }
    else record stopped { has_codex = false }

-- bootstrap_paired_codex, likewise
unfoldable pub bootstrap_paired_codex : Round → Supervisor → Supervisor
unfolding invoke_start
bootstrap_paired_codex r v =
    let (started, after) = invoke_start r v in
    if not (is_auth_paired r.auth) || v.has_codex then v else record after { has_codex = started }

-- what follows on codex_restart_delay where the process is found dead
abbrev pub back_off : (now : ℕ) → Option ℕ → Supervisor → Supervisor
back_off now none v = record v { store = record (v.store) { needs_close = false }; ended = true }
back_off now (some delay) v = record v {
  has_codex = false;
  restart_failures = suc v.restart_failures;
  next_restart_at = now + delay;
  store = set_codex_state "BACKOFF" (record (v.store) { needs_close = false });
  recoveries = suc v.recoveries;
}

-- what follows on codex_restart_delay where a start has failed
abbrev pub postpone : (now : ℕ) → Option ℕ → Supervisor → Supervisor
postpone now none v = record v { ended = true }
postpone now (some delay) v = record v {
  has_codex = false;
  restart_failures = suc v.restart_failures;
  next_restart_at = now + delay;
  recoveries = suc v.recoveries;
}

-- what follows on codex_restart_delay where the first start has failed
abbrev pub first_failure : (later : ℕ) → Option ℕ → Supervisor → Supervisor
first_failure later none v = record v { restart_failures = 1; ended = true }
first_failure later (some delay) v = record v {
  restart_failures = 1;
  next_restart_at = later + delay;
}

-- the lines behind a start that gives a session
unfoldable pub log_recovered : Supervisor → Supervisor
log_recovered v =
    let row : EventRow = record {
      source = "service";
      event_type = "service.recovered";
      session_id = none;
    } in
    let tables = record (v.store.tables) { events = v.store.tables.events ++ row ∷ [] } in
    record v {
      has_codex = true;
      restart_failures = 0;
      next_restart_at = 0;
      store = record (v.store) { tables = tables };
      recoveries = suc v.recoveries;
    }

module _ (backoff_seconds backoff_max_seconds : ℤ) where
  -- the first if of maintain_codex_runtime
  unfoldable pub notice : Round → Supervisor → Supervisor
  unfolding codex_is_alive retry_delay set_codex_state
  notice r v =
      if v.has_codex && not (codex_is_alive v.has_codex r.probe)
      then back_off r.now (retry_delay backoff_seconds backoff_max_seconds (suc v.restart_failures))
          v
      else v

  -- the call of the start and what follows
  unfoldable pub attempt : Round → Supervisor → Supervisor
  unfolding invoke_start log_recovered retry_delay
  attempt r v =
      let (started, after) = invoke_start r v in
      if started
      then log_recovered after
      else postpone r.now
          (retry_delay backoff_seconds backoff_max_seconds (suc after.restart_failures)) after

  -- the second if of maintain_codex_runtime; an exception of the first one ends the loop
  unfoldable pub restart_due : Round → Supervisor → Supervisor
  unfolding attempt
  restart_due r v =
      if not v.ended && (not v.has_codex && (is_auth_paired r.auth && leb v.next_restart_at r.now))
      then attempt r v
      else v

  -- maintain_codex_runtime, of a loop that has not ended
  unfoldable pub maintain_codex_runtime : Round → Supervisor → Supervisor
  unfolding notice restart_due
  maintain_codex_runtime r v = if v.ended then v else restart_due r (notice r v)

  -- the rounds of the loop, as far as the process goes
  unfoldable pub maintain_rounds : List Round → Supervisor → Supervisor
  unfolding maintain_codex_runtime
  maintain_rounds [] v = v
  maintain_rounds (r ∷ rs) v = maintain_rounds rs (maintain_codex_runtime r v)

  -- the lines behind the first bootstrap_paired_codex of the service loop, at the time `later`
  unfoldable pub hold_back : (later : ℕ) → Round → Supervisor → Supervisor
  unfolding retry_delay
  hold_back later r v =
      if not v.has_codex && is_auth_paired r.auth
      then first_failure later (retry_delay backoff_seconds backoff_max_seconds 1) v
      else v

  -- the start of the service loop up to there, with what is stored
  unfoldable pub begin_supervision : (later : ℕ) → Round → Store → Supervisor
  unfolding bootstrap_paired_codex hold_back new_supervisor
  begin_supervision later r s = hold_back later r (bootstrap_paired_codex r (new_supervisor s))
