-- ===== src/Control/Unattended.antt =====
-- The start of the service without a terminal: src/runtime/control.py.
use tele_cli.Prelude.{
  ℕ, ◌≡◌, refl, ◌⊎◌, inl, inr, String, true, false, not, ◌&&◌, Option, none, some, List, [], ◌∷◌,
  ◌++◌, ◌==◌, string_eq, nat_eq, Bool-cases, arith, if◌then◌else◌,
}
use tele_cli.Models.{LockMetadata}
use tele_cli.Control.{
  Machine, System, Ended, returned, exited, failed, and_then, done, log_recovery_event,
  process_exists, safe_kill, is_owned_codex, is_live, is_same_app,
}
use tele_cli.Control.Service.{
  Choices, classify_service_conflict, clear, kill_child_if, resolve_live, resolve_unknown,
  resolve_stale, resolve, handle_lock, handle_service_conflict,
}
use tele_cli.Control.Steps.{if_lem}

-- the child of a lock, if it lives and is a Codex of the lock's directory
pub orphans : Machine → Option String → Option ℕ → List ℕ
orphans m cwd none = []
orphans m cwd (some pid) =
    if not (pid == 0) && (process_exists m pid && is_owned_codex m pid cwd) then pid ∷ [] else []

-- No line is read; a live lock ends the start and changes nothing, and a stale one is cleared, with its orphans
-- killed, unless a SIGTERM fails.
pub Unattended : Machine → System → Option LockMetadata → Ended × System → Type 0
Unattended m s none r = r ≡ (returned, s)
Unattended m s (some metadata) (e, after) =
    (after.typed ≡ s.typed)
    × (((is_live m metadata ≡ true)
          × (e ≡ exited)
          × (after.signals ≡ s.signals)
          × (after.lock ≡ s.lock))
        ⊎ ((is_live m metadata ≡ false)
            × (e ≡ returned)
            × (after.signals ≡ orphans m metadata.cwd metadata.child_codex_pid ++ s.signals)
            × (after.lock ≡ none))
        ⊎ ((is_live m metadata ≡ false)
            × (e ≡ failed)
            × (after.signals ≡ s.signals)
            × (after.lock ≡ s.lock)))

module _ (m : Machine) (metadata : LockMetadata) where
  -- the child is killed, or the SIGTERM fails
  Tried : System → Ended × System → Type 0
  Tried s r =
      (r.1.typed ≡ s.typed)
      × (r.1.lock ≡ s.lock)
      × (((r.0 ≡ returned)
            × (r.1.signals ≡ orphans m metadata.cwd metadata.child_codex_pid ++ s.signals))
          ⊎ ((r.0 ≡ failed) × (r.1.signals ≡ s.signals)))

  kill_child_if-Tried :
      (child : Option ℕ) (s : System)
      → metadata.child_codex_pid ≡ child
      → Tried s (
          kill_child_if m
            (λ pid. process_exists m pid && is_owned_codex m pid metadata.cwd)
            child
            s)
  unfolding Tried orphans safe_kill
  kill_child_if-Tried none s c = rw c (refl, refl, inl (refl, refl))
  kill_child_if-Tried (some pid) s c = rw c (ground arith)

  cleared-Unattended :
      (s : System) (r : Ended × System)
      → is_live m metadata ≡ false
      → Tried s r
      → Unattended m s (some metadata) (and_then r (λ s1. done (clear s1)))
  unfolding Tried Unattended
  cleared-Unattended s (returned, after) live t = ground (arith, live, t)
  cleared-Unattended s (exited, after) live t = ground (arith, live, t)
  cleared-Unattended s (failed, after) live t = ground (arith, live, t)

  resolve_stale-Unattended :
      (choices : Choices) (s : System)
      → m.isatty ≡ false
      → is_live m metadata ≡ false
      → Unattended m s (some metadata) (resolve_stale m metadata choices s)
  unfolding resolve_stale Tried
  resolve_stale-Unattended choices s tty live =
      if_lem (Unattended m s (some metadata)) (not m.isatty) _ _
        (λ e. cleared-Unattended s _ live (
          kill_child_if-Tried metadata.child_codex_pid
            (log_recovery_event "stale service lock" "heal" (some metadata.pid) s) refl))
        (λ e. ground (arith, tty, e))

  resolve_live-Unattended :
      (selected : Option String) (s : System)
      → m.isatty ≡ false
      → is_live m metadata ≡ true
      → Unattended m s (some metadata) (resolve_live m metadata selected s)
  unfolding resolve_live Unattended
  resolve_live-Unattended selected s tty live =
      if_lem (Unattended m s (some metadata)) (not m.isatty) _ _ (λ e. ground (arith, live))
        (λ e. absurd (ground (arith, tty, e)))

  resolve_unknown-Unattended :
      (selected : Option String) (s : System)
      → m.isatty ≡ false
      → is_live m metadata ≡ true
      → Unattended m s (some metadata) (resolve_unknown m metadata selected s)
  unfolding resolve_unknown Unattended
  resolve_unknown-Unattended selected s tty live =
      if_lem (Unattended m s (some metadata)) (not m.isatty) _ _ (λ e. ground (arith, live))
        (λ e. absurd (ground (arith, tty, e)))

  resolve-Unattended :
      (choices : Choices) (s : System)
      → m.isatty ≡ false
      → Unattended m s
          (some metadata)
          (resolve (classify_service_conflict m metadata) m metadata choices s)
  unfolding classify_service_conflict
  resolve-Unattended choices s tty = elim (Bool-cases (is_live m metadata)) [
    | inl e ↦ elim (Bool-cases (is_same_app m metadata)) [
      | inl f ↦ rw (e, f) (resolve_live-Unattended choices.conflict_choice s tty e)
      | inr f ↦ rw (e, f) (resolve_unknown-Unattended choices.conflict_choice s tty e)
    ]
    | inr e ↦ rw e (resolve_stale-Unattended choices s tty e)
  ]

handle_lock-Unattended :
    (lock : Option LockMetadata) (m : Machine) (choices : Choices) (s : System)
    → m.isatty ≡ false
    → Unattended m s lock (handle_lock lock m choices s)
unfolding Unattended
handle_lock-Unattended none m choices s tty = refl
handle_lock-Unattended (some metadata) m choices s tty = resolve-Unattended m metadata choices s tty

-- Without a terminal handle_service_conflict asks nothing, whatever choices it is given. Where it finds no lock it
-- changes nothing. A lock whose process lives ends the start with SystemExit, and nothing is killed or
-- cleared. A lock whose process is gone is cleared, after a SIGTERM to exactly its child, if that lives and is a
-- Codex of the lock's directory; where that SIGTERM fails the start does, and the lock stays.
pub handle_service_conflict-Unattended :
    (m : Machine) (choices : Choices) (s : System)
    → m.isatty ≡ false
    → Unattended m s s.lock (handle_service_conflict m choices s)
unfolding handle_service_conflict
handle_service_conflict-Unattended m choices s tty = handle_lock-Unattended s.lock m choices s tty
