-- ===== src/Control/Setup/Begun.antt =====
-- The first step of the start of the setup, on the app lock: src/setup/recovery.py.
use tele_cli.Prelude.{
  ℕ, ◌≡◌, refl, ◌⊎◌, inl, inr, String, true, Option, none, some, ◌==◌, string_eq, nat_eq,
  Bool-cases, if◌then◌else◌, All,
}
use tele_cli.Models.{LockMetadata, SetupState}
use tele_cli.Control.{
  Machine, System, Ended, returned, exited, failed, done, process_exists, is_live, is_same_app,
}
use tele_cli.Control.Setup.{
  inspect_existing_app_lock, resolve_live_app, resolve_stale_app, handle_app_lock,
}
use tele_cli.Control.Steps.{and_then_lem, choose_lem, if_lem, safe_kill_lem}

-- the verified instance of the app lock
pub IsInstance : Machine → Option LockMetadata → ℕ → Type 0
IsInstance m none pid = ⊥
IsInstance m (some metadata) pid =
    (pid ≡ metadata.pid) × (is_live m metadata ≡ true) × (is_same_app m metadata ≡ true)

-- the setup that is marked as started and lives
unfoldable pub IsSetup : Machine → Option SetupState → ℕ → Type 0
IsSetup m none pid = ⊥
IsSetup m (some state) pid =
    (pid ≡ state.pid) × ((state.status == "started") ≡ true) × (process_exists m pid ≡ true)

unfoldable pub Target : Machine → Option LockMetadata → Option SetupState → ℕ → Type 0
Target m lock setup pid = IsInstance m lock pid ⊎ IsSetup m setup pid

module _ (m : Machine) (lock : Option LockMetadata) (setup : Option SetupState) where
  -- the first step: it kills only targets, leaves the setup state, and keeps the lock unless it returns
  unfoldable pub Begun : Ended × System → Type 0
  Begun (returned, s) = All (Target m lock setup) s.signals × (s.setup ≡ setup)
  Begun (exited, s) = All (Target m lock setup) s.signals × (s.setup ≡ setup) × (s.lock ≡ lock)
  Begun (failed, s) = All (Target m lock setup) s.signals × (s.setup ≡ setup) × (s.lock ≡ lock)

  -- all that is known of a system before the first question
  abbrev pub Before : System → Type 0
  Before s = All (Target m lock setup) s.signals × (s.setup ≡ setup) × (s.lock ≡ lock)

  exit_or_done-Begun :
      (choice : String) (s : System)
      → Before s
      → Begun (if choice == "exit" then (exited, s) else done s)
  unfolding Begun
  exit_or_done-Begun choice s b = if_lem Begun (choice == "exit") _ _ (λ x. b) (λ x. (b.0, b.1))

  resolve_live_app-Begun :
      (metadata : LockMetadata) (selected : Option String) (s : System)
      → IsInstance m lock metadata.pid
      → Before s
      → Begun (resolve_live_app m metadata selected s)
  unfolding resolve_live_app Begun Target
  resolve_live_app-Begun metadata selected s i b =
      choose_lem Begun m selected _ _ s _ b (λ choice typed.
        if_lem Begun (choice == "kill") _ _
          (λ k.
            and_then_lem Begun Begun _ _
              (safe_kill_lem Begun m metadata.pid _ ((inl i, b.0), b.1) b) (λ s1 p. p) (λ s1 p. p)
              (λ s1 p. p))
          (λ k. exit_or_done-Begun choice _ b))

  resolve_stale_app-Begun :
      (metadata : LockMetadata) (selected : Option String) (s : System)
      → Before s
      → Begun (resolve_stale_app m metadata selected s)
  unfolding resolve_stale_app Begun
  resolve_stale_app-Begun metadata selected s b =
      choose_lem Begun m selected _ _ s _ b (λ choice typed.
        if_lem Begun (choice == "heal") _ _ (λ k. (b.0, b.1)) (λ k. exit_or_done-Begun choice _ b))

pub handle_app_lock-Begun :
    (lock : Option LockMetadata) (m : Machine) (selected : Option String) (s : System)
    → Before m lock s.setup s
    → Begun m lock s.setup (handle_app_lock lock m selected s)
unfolding Begun inspect_existing_app_lock IsInstance
handle_app_lock-Begun none m selected s b = (b.0, b.1)
handle_app_lock-Begun (some metadata) m selected s b = elim (Bool-cases (is_live m metadata)) [
  | inl e ↦ elim (Bool-cases (is_same_app m metadata)) [
    | inl f ↦
        rw (e, f)
          (resolve_live_app-Begun m (some metadata) s.setup metadata selected s (refl, e, f) b)
    | inr f ↦ rw (e, f) (resolve_stale_app-Begun m (some metadata) s.setup metadata selected s b)
  ]
  | inr e ↦ rw e (resolve_stale_app-Begun m (some metadata) s.setup metadata selected s b)
]
