-- ===== src/Control/Locks.antt =====
-- What the start of the service leaves in the app lock: src/runtime/control.py.
use tele_cli.Prelude.{
  ℕ, ◌≡◌, refl, ◌⊎◌, inl, inr, String, Bool, not, ◌&&◌, Option, none, some, ◌==◌, string_eq, nat_eq,
  if◌then◌else◌,
}
use tele_cli.Models.{LockMetadata}
use tele_cli.Control.{
  Machine, System, Ended, returned, exited, failed, and_then, done, process_exists, safe_kill,
  is_owned_codex,
}
use tele_cli.Control.Service.{
  Choices, Kind, live_same_app, live_unknown, stale, classify_service_conflict, clear,
  kill_child_if, kill_instance, resolve_live, resolve_unknown, resolve_orphan, resolve_child,
  resolve_stale, resolve, handle_lock, handle_service_conflict, prepare_service_lock,
}
use tele_cli.Control.Steps.{and_then_lem, choose_lem, if_lem, safe_kill_lem}

-- P where the step returns, and the lock is l where it does not
abbrev pub Settles : (System → Type 0) → Option LockMetadata → Ended × System → Type 0
Settles P l (returned, s) = P s
Settles P l (exited, s) = s.lock ≡ l
Settles P l (failed, s) = s.lock ≡ l

abbrev pub Kept : Option LockMetadata → Ended × System → Type 0
Kept l r = r.1.lock ≡ l

-- the app lock is gone or as it was
abbrev pub ClearedOr : Option LockMetadata → System → Type 0
ClearedOr l s = (s.lock ≡ none) ⊎ (s.lock ≡ l)

module _ (m : Machine) (metadata : LockMetadata) (l : Option LockMetadata) where
  kill_child_if-Kept :
      (wanted : ℕ → Bool) (child : Option ℕ) (s : System)
      → s.lock ≡ l
      → Kept l (kill_child_if m wanted child s)
  kill_child_if-Kept wanted none s e = e
  kill_child_if-Kept wanted (some pid) s e =
      if_lem (Kept l) (not (pid == 0) && wanted pid) _ _ (λ w. safe_kill_lem (Kept l) m pid s e e)
        (λ w. e)

  resolve_child-Kept :
      (child : Option ℕ) (selected : Option String) (s : System)
      → s.lock ≡ l
      → Kept l (resolve_child m metadata child selected s)
  unfolding resolve_orphan
  resolve_child-Kept none selected s e = e
  resolve_child-Kept (some pid) selected s e =
      if_lem (Kept l) (not (pid == 0) && process_exists m pid) _ _
        (λ w. choose_lem (Kept l) m selected _ _ s _ e (λ choice typed.
          if_lem (Kept l) (choice == "kill" && is_owned_codex m pid metadata.cwd) _ _
            (λ k. safe_kill_lem (Kept l) m pid _ e e)
            (λ k. if_lem (Kept l) (choice == "exit") _ _ (λ x. e) (λ x. e))))
        (λ w. e)

  clear-Settles :
      (r : Ended × System) → Kept l r → Settles (ClearedOr l) l (and_then r (λ s. done (clear s)))
  clear-Settles r k =
      and_then_lem (Kept l) (Settles (ClearedOr l) l) r _ k (λ s e. inl refl) (λ s e. e) (λ s e. e)

  exit_or_done-Settles :
      (choice : String) (s : System)
      → s.lock ≡ l
      → Settles (ClearedOr l) l (if choice == "exit" then (exited, s) else done s)
  exit_or_done-Settles choice s e =
      if_lem (Settles (ClearedOr l) l) (choice == "exit") _ _ (λ x. e) (λ x. inr e)

  kill_instance-Settles :
      (s : System) → s.lock ≡ l → Settles (ClearedOr l) l (kill_instance m metadata s)
  unfolding kill_instance
  kill_instance-Settles s e =
      and_then_lem (Kept l) (Settles (ClearedOr l) l) (safe_kill m metadata.pid s) _
        (safe_kill_lem (Kept l) m metadata.pid s e e)
        (λ s1 e1. clear-Settles _ (
          kill_child_if-Kept (λ pid. is_owned_codex m pid metadata.cwd) metadata.child_codex_pid s1
            e1))
        (λ s1 e1. e1) (λ s1 e1. e1)

  resolve_live-Settles :
      (selected : Option String) (s : System)
      → s.lock ≡ l
      → Settles (ClearedOr l) l (resolve_live m metadata selected s)
  unfolding resolve_live
  resolve_live-Settles selected s e =
      if_lem (Settles (ClearedOr l) l) (not m.isatty) _ _ (λ t. e)
        (λ t. choose_lem (Settles (ClearedOr l) l) m selected _ _ s _ e (λ choice typed.
          if_lem (Settles (ClearedOr l) l) (choice == "kill") _ _ (λ k. kill_instance-Settles _ e)
            (λ k. exit_or_done-Settles choice _ e)))

  resolve_unknown-Settles :
      (selected : Option String) (s : System)
      → s.lock ≡ l
      → Settles (ClearedOr l) l (resolve_unknown m metadata selected s)
  unfolding resolve_unknown
  resolve_unknown-Settles selected s e =
      if_lem (Settles (ClearedOr l) l) (not m.isatty) _ _ (λ t. e)
        (λ t.
          choose_lem (Settles (ClearedOr l) l) m selected _ _ s _ e
            (λ choice typed. exit_or_done-Settles choice _ e))

  resolve_stale-Settles :
      (choices : Choices) (s : System)
      → s.lock ≡ l
      → Settles (ClearedOr l) l (resolve_stale m metadata choices s)
  unfolding resolve_stale
  resolve_stale-Settles choices s e =
      if_lem (Settles (ClearedOr l) l) (not m.isatty) _ _
        (λ t. clear-Settles _ (
          kill_child_if-Kept (λ pid. process_exists m pid && is_owned_codex m pid metadata.cwd)
            metadata.child_codex_pid _ e))
        (λ t.
          choose_lem (Settles (ClearedOr l) l) m choices.conflict_choice _ _ s _ e (λ choice typed.
            if_lem (Settles (ClearedOr l) l) (choice == "heal") _ _
              (λ k.
                clear-Settles _
                  (resolve_child-Kept metadata.child_codex_pid choices.orphan_choice _ e))
              (λ k. exit_or_done-Settles choice _ e)))

  resolve-Settles :
      (kind : Kind) (choices : Choices) (s : System)
      → s.lock ≡ l
      → Settles (ClearedOr l) l (resolve kind m metadata choices s)
  resolve-Settles live_same_app choices s e = resolve_live-Settles choices.conflict_choice s e
  resolve-Settles live_unknown choices s e = resolve_unknown-Settles choices.conflict_choice s e
  resolve-Settles stale choices s e = resolve_stale-Settles choices s e

handle_lock-Settles :
    (lock : Option LockMetadata) (m : Machine) (choices : Choices) (s : System)
    → Settles (ClearedOr s.lock) s.lock (handle_lock lock m choices s)
handle_lock-Settles none m choices s = inr refl
handle_lock-Settles (some metadata) m choices s =
    resolve-Settles m metadata s.lock (classify_service_conflict m metadata) choices s refl

-- prepare_service_lock writes the app lock of the new instance exactly if it returns. Where it ends with
-- SystemExit or with another exception, be it a SIGTERM that fails, the lock it has found stays.
pub prepare_service_lock-Settles :
    (m : Machine) (metadata : LockMetadata) (choices : Choices) (s : System)
    → Settles
        (λ after. after.lock ≡ some metadata)
        s.lock
        (prepare_service_lock m metadata choices s)
unfolding prepare_service_lock handle_service_conflict
prepare_service_lock-Settles m metadata choices s =
    and_then_lem (Settles (ClearedOr s.lock) s.lock)
      (Settles (λ after. after.lock ≡ some metadata) s.lock) (handle_lock s.lock m choices s) _
      (handle_lock-Settles s.lock m choices s) (λ s1 e. refl) (λ s1 e. e) (λ s1 e. e)
