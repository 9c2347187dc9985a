-- ===== src/Control/Service.antt =====
-- src/runtime/control.py: the start of the service, on the app lock it finds.
use tele_cli.Prelude.{
  ℕ, String, Bool, not, ◌&&◌, Option, none, some, [], ◌∷◌, ◌==◌, string_eq, nat_eq, if◌then◌else◌,
}
use tele_cli.Models.{LockMetadata}
use tele_cli.Control.{
  Machine, System, Ended, exited, and_then, done, log_recovery_event, process_exists, safe_kill,
  is_owned_codex, is_live, is_same_app, choose,
}

-- ServiceConflictChoices; without it both choices are none
pub record Choices : Type 0 where
  pub conflict_choice : Option String
  pub orphan_choice : Option String

-- the kind of a ServiceConflict
pub data Kind : Type 0 where
  live_same_app : Kind
  live_unknown : Kind
  stale : Kind

-- classify_service_conflict, where there is a lock
unfoldable pub classify_service_conflict : Machine → LockMetadata → Kind
classify_service_conflict m metadata =
    if is_live m metadata && is_same_app m metadata
    then live_same_app
    else if is_live m metadata
    then live_unknown
    else stale

-- app_lock.clear()
abbrev pub clear : System → System
clear s = record s { lock = none }

-- The child of the lock, if `wanted` holds of it, is sent a SIGTERM. A pid 0 counts as none.
abbrev pub kill_child_if : Machine → (ℕ → Bool) → Option ℕ → System → Ended × System
kill_child_if m wanted none s = done s
kill_child_if m wanted (some pid) s =
    if not (pid == 0) && wanted pid then safe_kill m pid s else done s

-- the choice "kill" on a live instance
unfoldable pub kill_instance : Machine → LockMetadata → System → Ended × System
kill_instance m metadata s = and_then (safe_kill m metadata.pid s) (λ s1.
    and_then
      (kill_child_if m (λ pid. is_owned_codex m pid metadata.cwd) metadata.child_codex_pid s1)
      (λ s2. done (clear s2)))

-- the branch of a live instance
unfoldable pub resolve_live : Machine → LockMetadata → Option String → System → Ended × System
unfolding kill_instance
resolve_live m metadata selected s =
    if not m.isatty
    then (exited, log_recovery_event "service conflict" "exit" (some metadata.pid) s)
    else choose m selected ("kill" ∷ "ignore" ∷ "exit" ∷ []) "exit" s (λ choice asked.
      let s1 = log_recovery_event "service conflict" choice (some metadata.pid) asked in
      if choice == "kill"
      then kill_instance m metadata s1
      else if choice == "exit"
      then (exited, s1)
      else done s1)

-- the branch of a live process that may be another program
unfoldable pub resolve_unknown : Machine → LockMetadata → Option String → System → Ended × System
resolve_unknown m metadata selected s =
    if not m.isatty
    then (exited, log_recovery_event "unknown live service conflict" "exit" (some metadata.pid) s)
    else choose m selected ("ignore" ∷ "exit" ∷ []) "exit" s (λ choice asked.
      let s1 =
        log_recovery_event "unknown live service conflict" choice (some metadata.pid) asked in
      if choice == "exit" then (exited, s1) else done s1)

-- the question about a Codex that the previous run has left, its pid being set and alive
unfoldable pub resolve_orphan : Machine → LockMetadata → ℕ → Option String → System → Ended × System
resolve_orphan m metadata pid selected s =
    choose m selected ("kill" ∷ "ignore" ∷ "exit" ∷ []) "ignore" s (λ choice asked.
      let s1 = log_recovery_event "orphan codex" choice (some pid) asked in
      if choice == "kill" && is_owned_codex m pid metadata.cwd
      then safe_kill m pid s1
      else if choice == "exit"
      then (exited, s1)
      else done s1)

abbrev pub resolve_child :
    Machine → LockMetadata → Option ℕ → Option String → System → Ended × System
resolve_child m metadata none selected s = done s
resolve_child m metadata (some pid) selected s =
    if not (pid == 0) && process_exists m pid
    then resolve_orphan m metadata pid selected s
    else done s

-- the branch of a stale lock
unfoldable pub resolve_stale : Machine → LockMetadata → Choices → System → Ended × System
unfolding resolve_orphan
resolve_stale m metadata choices s =
    if not m.isatty
    then and_then
        (kill_child_if m (λ pid. process_exists m pid && is_owned_codex m pid metadata.cwd)
          metadata.child_codex_pid
          (log_recovery_event "stale service lock" "heal" (some metadata.pid) s))
        (λ s1. done (clear s1))
    else choose m choices.conflict_choice ("heal" ∷ "ignore" ∷ "exit" ∷ []) "heal" s
        (λ choice asked.
          let s1 = log_recovery_event "stale service lock" choice (some metadata.pid) asked in
          if choice == "heal"
          then and_then (resolve_child m metadata metadata.child_codex_pid choices.orphan_choice s1)
              (λ s2. done (clear s2))
          else if choice == "exit"
          then (exited, s1)
          else done s1)

abbrev pub resolve : Kind → Machine → LockMetadata → Choices → System → Ended × System
resolve live_same_app m metadata choices s = resolve_live m metadata choices.conflict_choice s
resolve live_unknown m metadata choices s = resolve_unknown m metadata choices.conflict_choice s
resolve stale m metadata choices s = resolve_stale m metadata choices s

-- handle_service_conflict, by the lock that is read
abbrev pub handle_lock : Option LockMetadata → Machine → Choices → System → Ended × System
handle_lock none m choices s = done s
handle_lock (some metadata) m choices s =
    resolve (classify_service_conflict m metadata) m metadata choices s

unfoldable pub handle_service_conflict : Machine → Choices → System → Ended × System
handle_service_conflict m choices s = handle_lock s.lock m choices s

-- prepare_service_lock; `metadata` is what make_lock_metadata gives
unfoldable pub prepare_service_lock : Machine → LockMetadata → Choices → System → Ended × System
unfolding handle_service_conflict
prepare_service_lock m metadata choices s =
    and_then (handle_service_conflict m choices s) (λ s1. done (record s1 { lock = some metadata }))
