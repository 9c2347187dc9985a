-- ===== src/Control/Setup/Started.antt =====
-- What the start of the setup kills, saves and returns: src/setup/recovery.py.
use tele_cli.Prelude.{
  ◌≡◌, refl, sym, subst, ◌⊎◌, inl, inr, String, false, not, ◌&&◌, Option, none, some, [], ◌==◌,
  string_eq, nat_eq, Bool-cases, arith, All,
}
use tele_cli.Models.{LockMetadata, SetupState}
use tele_cli.Control.{Machine, System, Ended, returned, exited, failed, process_exists}
use tele_cli.Control.Setup.{
  SetupChoices, handle_existing_app_lock, inspect_existing_setup, fresh_state, Handled, gives,
  gives_saved, resolve_active, resumed, resolve_interrupted, handle_conflict, handle_existing_setup,
  then_handle, initialize_setup,
}
use tele_cli.Control.Steps.{choose_lem, if_lem, safe_kill_lem}
use tele_cli.Control.Setup.Begun.{IsSetup, Target, Begun, handle_app_lock-Begun}

-- a fresh state, or the stored one of a setup that was not completed, with its progress
pub Continues : String → Option SetupState → SetupState → Type 0
Continues now none state = state ≡ fresh_state now
Continues now (some existing) state =
    (state ≡ fresh_state now)
    ⊎ (((existing.status == "completed") ≡ false) × (state ≡ resumed now existing))

-- It returns a state, holds the app lock and has saved the state or left the file as it was; or it ends
-- with an exception, and the setup state is as it was.
pub Finished :
    Machine → Option LockMetadata → Option SetupState → String → LockMetadata → Handled → Type 0
Finished m lock setup now metadata (some state, (e, s)) =
    (e ≡ returned)
    × All (Target m lock setup) s.signals
    × (s.lock ≡ some metadata)
    × Continues now setup state
    × ((s.setup ≡ some state) ⊎ (s.setup ≡ setup))
Finished m lock setup now metadata (none, (e, s)) =
    ((e ≡ exited) ⊎ (e ≡ failed))
    × All (Target m lock setup) s.signals
    × ((s.lock ≡ lock) ⊎ (s.lock ≡ some metadata))
    × (s.setup ≡ setup)

module _ (m : Machine) (now : String) (metadata : LockMetadata) (lock : Option LockMetadata)
    (setup : Option SetupState) where
  -- all that is known of a system behind the first question
  abbrev Between : Ended × System → Type 0
  Between r =
      All (Target m lock setup) r.1.signals × (r.1.lock ≡ some metadata) × (r.1.setup ≡ setup)

  -- what the question about an interrupted setup has saved
  Saved : Ended × System → Type 0
  Saved (returned, s) =
      (state : SetupState) × (All (Target m lock setup) s.signals
        × (s.lock ≡ some metadata)
        × (s.setup ≡ some state)
        × Continues now setup state)
  Saved (exited, s) = Between (exited, s)
  Saved (failed, s) = Between (failed, s)

  gives-Finished :
      (r : Ended × System)
      → Continues now setup (fresh_state now)
      → Between r
      → Finished m lock setup now metadata (gives (fresh_state now) r)
  unfolding Finished
  gives-Finished (returned, s) c b = (refl, b.0, b.1, c, inr b.2)
  gives-Finished (exited, s) c b = (inl refl, b.0, inr b.1, b.2)
  gives-Finished (failed, s) c b = (inr refl, b.0, inr b.1, b.2)

  gives_saved-Finished :
      (r : Ended × System) → Saved r → Finished m lock setup now metadata (gives_saved r)
  unfolding Finished Saved
  gives_saved-Finished (returned, s) (state, b) = rw b.2 (refl, b.0, b.1, b.3, inl refl)
  gives_saved-Finished (exited, s) b = (inl refl, b.0, inr b.1, b.2)
  gives_saved-Finished (failed, s) b = (inr refl, b.0, inr b.1, b.2)

  resolve_active-Between :
      (existing : SetupState) (selected : Option String) (s : System)
      → IsSetup m setup existing.pid
      → Between (returned, s)
      → Between (resolve_active m existing selected s)
  unfolding resolve_active Target
  resolve_active-Between existing selected s i b =
      choose_lem Between m selected _ _ s _ b (λ choice typed.
        if_lem Between (choice == "kill") _ _
          (λ k. safe_kill_lem Between m existing.pid _ ((inr i, b.0), b.1, b.2) b)
          (λ k. if_lem Between (choice == "exit") _ _ (λ x. b) (λ x. b)))

  resolve_interrupted-Saved :
      (existing : SetupState) (selected : Option String) (s : System)
      → Continues now setup (fresh_state now)
      → Continues now setup (resumed now existing)
      → Between (returned, s)
      → Saved (resolve_interrupted m now existing selected s)
  unfolding resolve_interrupted Saved
  resolve_interrupted-Saved existing selected s c d b =
      choose_lem Saved m selected _ _ s _ b (λ choice typed.
        if_lem Saved (choice == "restart") _ _ (λ k. (fresh_state now, (b.0, b.1, refl, c)))
          (λ k.
            if_lem Saved (choice == "exit") _ _ (λ x. b)
              (λ x. (resumed now existing, (b.0, b.1, refl, d)))))

handle_setup-Finished :
    (setup : Option SetupState) (m : Machine) (now : String) (metadata : LockMetadata)
    (lock : Option LockMetadata) (selected : Option String) (s : System)
    → Between m now metadata lock setup (returned, s)
    → Finished m lock setup now metadata
        (handle_conflict (inspect_existing_setup m setup) m now selected s)
unfolding Finished Continues inspect_existing_setup IsSetup
handle_setup-Finished none m now metadata lock selected s b = (refl, b.0, b.1, refl, inl refl)
handle_setup-Finished (some existing) m now metadata lock selected s b =
    elim (Bool-cases (existing.status == "completed")) [
      | inl c ↦ rw c (refl, b.0, b.1, inl refl, inl refl)
      | inr c ↦
          elim (Bool-cases (
            existing.status == "started"
            && (not (existing.pid == 0) && process_exists m existing.pid))) [
              | inl a ↦
                  rw (c, a)
                    (gives-Finished m now metadata lock (some existing) _ (inl refl) (
                      resolve_active-Between m now metadata lock (some existing) existing selected s
                        (ground (arith, a)) b))
              | inr a ↦
                  rw (c, a)
                    (gives_saved-Finished m now metadata lock (some existing) _ (
                      resolve_interrupted-Saved m now metadata lock (some existing) existing
                        selected s (inl refl) (inr (c, refl)) b))
            ]
    ]

then_handle-Finished :
    (m : Machine) (now : String) (metadata : LockMetadata) (choices : SetupChoices)
    (lock : Option LockMetadata) (setup : Option SetupState) (r : Ended × System)
    → Begun m lock setup r
    → Finished m lock setup now metadata (
        then_handle r (λ s1.
          handle_existing_setup m now choices.setup_choice (record s1 { lock = some metadata })))
unfolding Finished Begun handle_existing_setup
then_handle-Finished m now metadata choices lock setup (returned, s) b =
    subst
      (λ found. Finished m lock setup now metadata (
        handle_conflict (inspect_existing_setup m found) m now choices.setup_choice
          (record s { lock = some metadata })))
      (sym b.1)
      (handle_setup-Finished setup m now metadata lock choices.setup_choice _ (b.0, refl, b.1))
then_handle-Finished m now metadata choices lock setup (exited, s) b = (inl refl, b.0, inl b.2, b.1)
then_handle-Finished m now metadata choices lock setup (failed, s) b = (inr refl, b.0, inl b.2, b.1)

-- Where initialize_setup returns a state, that is a fresh one or the stored one of a setup that was not
-- completed, with its progress kept; the app lock is the setup's own, and the setup file has the state that is
-- returned or is as it was. Where it ends with an exception the setup file is as it was, and the app lock is the one it has
-- found or its own. In both cases only two processes can have been sent a SIGTERM: the
-- instance of the app lock that was found, if that lives and is verified, and the setup that is marked as started, if
-- it lives.
pub initialize_setup-Finished :
    (m : Machine) (now : String) (metadata : LockMetadata) (choices : SetupChoices) (s : System)
    → s.signals ≡ []
    → Finished m s.lock s.setup now metadata (initialize_setup m now metadata choices s)
unfolding initialize_setup handle_existing_app_lock
initialize_setup-Finished m now metadata choices s e =
    then_handle-Finished m now metadata choices s.lock s.setup _
      (handle_app_lock-Begun s.lock m choices.app_lock_choice s (rw e tt, refl, refl))
