-- ===== src/Control/Setup.antt =====
-- src/setup/recovery.py: the start of the setup, on the app lock and on the setup state it finds.
pub mod Begun
pub mod Started
use tele_cli.Prelude.{
  String, false, not, ◌&&◌, Option, none, some, [], ◌∷◌, ◌==◌, string_eq, nat_eq, if◌then◌else◌,
}
use tele_cli.Models.{LockMetadata, SetupState}
use tele_cli.Control.{
  Machine, System, Ended, returned, exited, failed, and_then, done, log_recovery_event,
  process_exists, safe_kill, is_live, is_same_app, choose,
}
use tele_cli.Control.Service.{clear}

-- SetupRecoveryChoices; without it both choices are none
pub record SetupChoices : Type 0 where
  pub app_lock_choice : Option String
  pub setup_choice : Option String

-- the kind of an AppLockConflict
pub data LockKind : Type 0 where
  live : LockKind
  stale : LockKind

-- inspect_existing_app_lock, where there is a lock
unfoldable pub inspect_existing_app_lock : Machine → LockMetadata → LockKind
inspect_existing_app_lock m metadata =
    if is_live m metadata && is_same_app m metadata then live else stale

unfoldable pub resolve_live_app : Machine → LockMetadata → Option String → System → Ended × System
resolve_live_app m metadata selected s =
    choose m selected ("kill" ∷ "ignore" ∷ "exit" ∷ []) "exit" s (λ choice asked.
      let s1 = log_recovery_event "live app conflict" choice (some metadata.pid) asked in
      if choice == "kill"
      then and_then (safe_kill m metadata.pid s1) (λ s2. done (clear s2))
      else if choice == "exit"
      then (exited, s1)
      else done s1)

unfoldable pub resolve_stale_app : Machine → LockMetadata → Option String → System → Ended × System
resolve_stale_app m metadata selected s =
    choose m selected ("heal" ∷ "ignore" ∷ "exit" ∷ []) "heal" s (λ choice asked.
      let s1 = log_recovery_event "stale app lock" choice (some metadata.pid) asked in
      if choice == "heal"
      then done (clear s1)
      else if choice == "exit"
      then (exited, s1)
      else done s1)

abbrev pub resolve_app : LockKind → Machine → LockMetadata → Option String → System → Ended × System
resolve_app live m metadata selected s = resolve_live_app m metadata selected s
resolve_app stale m metadata selected s = resolve_stale_app m metadata selected s

-- handle_existing_app_lock, by the lock that is read
abbrev pub handle_app_lock : Option LockMetadata → Machine → Option String → System → Ended × System
handle_app_lock none m selected s = done s
handle_app_lock (some metadata) m selected s =
    resolve_app (inspect_existing_app_lock m metadata) m metadata selected s

unfoldable pub handle_existing_app_lock : Machine → Option String → System → Ended × System
handle_existing_app_lock m selected s = handle_app_lock s.lock m selected s

-- the conflict that inspect_existing_setup finds
pub data SetupConflict : Type 0 where
  no_conflict : SetupConflict
  active : SetupState → SetupConflict
  interrupted : SetupState → SetupConflict

unfoldable pub inspect_existing_setup : Machine → Option SetupState → SetupConflict
inspect_existing_setup m none = no_conflict
inspect_existing_setup m (some existing) =
    if existing.status == "completed"
    then no_conflict
    else if existing.status == "started"
        && (not (existing.pid == 0) && process_exists m existing.pid)
    then active existing
    else interrupted existing

-- SetupState(status="started", pid=0, timestamp=utc_now())
unfoldable pub fresh_state : String → SetupState
fresh_state now = record {
  status = "started";
  pid = 0;
  timestamp = now;
  npm_installed = false;
  codex_installed = false;
  telegram_token_saved = false;
  telegram_validated = false;
}

-- save_setup_state
abbrev pub save_setup_state : SetupState → System → System
save_setup_state state s = record s { setup = some state }

-- what handle_existing_setup returns, next to the end and the system
abbrev pub Handled : Type 0
Handled = Option SetupState × (Ended × System)

abbrev pub gives : SetupState → Ended × System → Handled
gives state (returned, s) = (some state, (returned, s))
gives state (exited, s) = (none, (exited, s))
gives state (failed, s) = (none, (failed, s))

unfoldable pub resolve_active : Machine → SetupState → Option String → System → Ended × System
resolve_active m existing selected s =
    choose m selected ("kill" ∷ "ignore" ∷ "exit" ∷ []) "exit" s (λ choice asked.
      let s1 = log_recovery_event "active setup conflict" choice (some existing.pid) asked in
      if choice == "kill"
      then safe_kill m existing.pid s1
      else if choice == "exit"
      then (exited, s1)
      else done s1)

-- the state that an interrupted setup goes on with
unfoldable pub resumed : String → SetupState → SetupState
resumed now existing = record existing { status = "started"; timestamp = now }

-- The state that is saved is the one that is returned.
unfoldable pub resolve_interrupted :
    Machine → (now : String) → SetupState → Option String → System → Ended × System
unfolding fresh_state resumed
resolve_interrupted m now existing selected s =
    choose m selected ("resume" ∷ "restart" ∷ "ignore" ∷ "exit" ∷ []) "resume" s (λ choice asked.
      let s1 = log_recovery_event "stale setup" choice none asked in
      if choice == "restart"
      then done (save_setup_state (fresh_state now) s1)
      else if choice == "exit"
      then (exited, s1)
      else done (save_setup_state (resumed now existing) s1))

-- what a step has saved, as its return value
abbrev pub gives_saved : Ended × System → Handled
gives_saved (returned, s) = (s.setup, (returned, s))
gives_saved (exited, s) = (none, (exited, s))
gives_saved (failed, s) = (none, (failed, s))

abbrev pub handle_conflict : SetupConflict → Machine → String → Option String → System → Handled
handle_conflict no_conflict m now selected s =
    (some (fresh_state now), (returned, save_setup_state (fresh_state now) s))
handle_conflict (active existing) m now selected s =
    gives (fresh_state now) (resolve_active m existing selected s)
handle_conflict (interrupted existing) m now selected s =
    gives_saved (resolve_interrupted m now existing selected s)

unfoldable pub handle_existing_setup : Machine → (now : String) → Option String → System → Handled
unfolding inspect_existing_setup
handle_existing_setup m now selected s =
    handle_conflict (inspect_existing_setup m s.setup) m now selected s

abbrev pub then_handle : Ended × System → (System → Handled) → Handled
then_handle (returned, s) next = next s
then_handle (exited, s) next = (none, (exited, s))
then_handle (failed, s) next = (none, (failed, s))

-- initialize_setup; `metadata` is what make_lock_metadata gives
unfoldable pub initialize_setup :
    Machine → (now : String) → LockMetadata → SetupChoices → System → Handled
unfolding handle_existing_app_lock handle_existing_setup
initialize_setup m now metadata choices s =
    then_handle (handle_existing_app_lock m choices.app_lock_choice s)
      (λ s1. handle_existing_setup m now choices.setup_choice (record s1 { lock = some metadata }))
