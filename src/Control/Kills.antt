-- ===== src/Control/Kills.antt =====
-- Which processes the start of the service sends a SIGTERM: src/runtime/control.py.
use tele_cli.Prelude.{
  ℕ, ◌≡◌, refl, ◌⊎◌, inl, inr, String, Bool, true, not, ◌&&◌, Option, none, some, [], ◌==◌,
  string_eq, nat_eq, Bool-cases, arith, All,
}
use tele_cli.Models.{LockMetadata}
use tele_cli.Control.{
  Machine, System, Ended, done, process_exists, safe_kill, is_live, is_same_app, is_owned_codex,
}
use tele_cli.Control.Service.{
  Choices, classify_service_conflict, kill_child_if, kill_instance, resolve_live, resolve_unknown,
  resolve_orphan, resolve_child, resolve_stale, resolve, handle_lock, handle_service_conflict,
  prepare_service_lock,
}
use tele_cli.Control.Steps.{and_then_lem, choose_lem, if_lem, safe_kill_lem}

-- The instance of the lock, if it lives, is verified and a terminal is there, or its child if that is a Codex of
-- the lock's directory.
pub Allowed : Machine → LockMetadata → ℕ → Type 0
Allowed m metadata pid =
    ((pid ≡ metadata.pid)
      × (is_live m metadata ≡ true)
      × (is_same_app m metadata ≡ true)
      × (m.isatty ≡ true))
    ⊎ ((metadata.child_codex_pid ≡ some pid) × (is_owned_codex m pid metadata.cwd ≡ true))

pub AllowedFor : Machine → Option LockMetadata → ℕ → Type 0
AllowedFor m none pid = ⊥
AllowedFor m (some metadata) pid = Allowed m metadata pid

module _ (m : Machine) (metadata : LockMetadata) where
  abbrev Safe : Ended × System → Type 0
  Safe r = All (Allowed m metadata) r.1.signals

  kill_child_if-Safe :
      (wanted : ℕ → Bool) (child : Option ℕ) (s : System)
      → metadata.child_codex_pid ≡ child
      → ((pid : ℕ) → wanted pid ≡ true → is_owned_codex m pid metadata.cwd ≡ true)
      → All (Allowed m metadata) s.signals
      → Safe (kill_child_if m wanted child s)
  unfolding Allowed
  kill_child_if-Safe wanted none s e h a = a
  kill_child_if-Safe wanted (some pid) s e h a =
      if_lem Safe (not (pid == 0) && wanted pid) (safe_kill m pid s) (done s)
        (λ w. safe_kill_lem Safe m pid s (inr (e, h pid (ground (arith, w))), a) a) (λ w. a)

  kill_instance-Safe :
      (s : System)
      → is_live m metadata ≡ true
      → is_same_app m metadata ≡ true
      → m.isatty ≡ true
      → All (Allowed m metadata) s.signals
      → Safe (kill_instance m metadata s)
  unfolding kill_instance Allowed
  kill_instance-Safe s live same tty a =
      and_then_lem Safe Safe (safe_kill m metadata.pid s) _
        (safe_kill_lem Safe m metadata.pid s (inl (refl, live, same, tty), a) a)
        (λ s1 a1.
          and_then_lem Safe Safe
            (kill_child_if m (λ pid. is_owned_codex m pid metadata.cwd) metadata.child_codex_pid s1)
            _
            (kill_child_if-Safe (λ pid. is_owned_codex m pid metadata.cwd) metadata.child_codex_pid
              s1 refl (λ pid w. w) a1)
            (λ s2 a2. a2) (λ s2 a2. a2) (λ s2 a2. a2))
        (λ s1 a1. a1) (λ s1 a1. a1)

  resolve_live-Safe :
      (selected : Option String) (s : System)
      → is_live m metadata ≡ true
      → is_same_app m metadata ≡ true
      → All (Allowed m metadata) s.signals
      → Safe (resolve_live m metadata selected s)
  unfolding resolve_live
  resolve_live-Safe selected s live same a =
      if_lem Safe (not m.isatty) _ _ (λ e. a)
        (λ e. choose_lem Safe m selected _ _ s _ a (λ choice typed.
          if_lem Safe (choice == "kill") _ _
            (λ k. kill_instance-Safe _ live same (ground (arith, e)) a)
            (λ k. if_lem Safe (choice == "exit") _ _ (λ x. a) (λ x. a))))

  resolve_unknown-Safe :
      (selected : Option String) (s : System)
      → All (Allowed m metadata) s.signals
      → Safe (resolve_unknown m metadata selected s)
  unfolding resolve_unknown
  resolve_unknown-Safe selected s a =
      if_lem Safe (not m.isatty) _ _ (λ e. a)
        (λ e.
          choose_lem Safe m selected _ _ s _ a
            (λ choice typed. if_lem Safe (choice == "exit") _ _ (λ x. a) (λ x. a)))

  resolve_child-Safe :
      (child : Option ℕ) (selected : Option String) (s : System)
      → metadata.child_codex_pid ≡ child
      → All (Allowed m metadata) s.signals
      → Safe (resolve_child m metadata child selected s)
  unfolding resolve_orphan Allowed
  resolve_child-Safe none selected s e a = a
  resolve_child-Safe (some pid) selected s e a =
      if_lem Safe (not (pid == 0) && process_exists m pid) _ _
        (λ w. choose_lem Safe m selected _ _ s _ a (λ choice typed.
          if_lem Safe (choice == "kill" && is_owned_codex m pid metadata.cwd) _ _
            (λ k. safe_kill_lem Safe m pid _ (inr (e, ground (arith, k)), a) a)
            (λ k. if_lem Safe (choice == "exit") _ _ (λ x. a) (λ x. a))))
        (λ w. a)

  resolve_stale-Safe :
      (choices : Choices) (s : System)
      → All (Allowed m metadata) s.signals
      → Safe (resolve_stale m metadata choices s)
  unfolding resolve_stale
  resolve_stale-Safe choices s a =
      let cleared : (s1 : System)
          → All (Allowed m metadata) s1.signals
          → All (Allowed m metadata) s1.signals =
        λ s1 a1. a1 in
      if_lem Safe (not m.isatty) _ _
        (λ e.
          and_then_lem Safe Safe _ _
            (kill_child_if-Safe (λ pid. process_exists m pid && is_owned_codex m pid metadata.cwd)
              metadata.child_codex_pid _ refl (λ pid w. ground (arith, w)) a)
            cleared cleared cleared)
        (λ e. choose_lem Safe m choices.conflict_choice _ _ s _ a (λ choice typed.
          if_lem Safe (choice == "heal") _ _
            (λ k.
              and_then_lem Safe Safe _ _
                (resolve_child-Safe metadata.child_codex_pid choices.orphan_choice _ refl a) cleared
                cleared cleared)
            (λ k. if_lem Safe (choice == "exit") _ _ (λ x. a) (λ x. a))))

  resolve-Safe :
      (choices : Choices) (s : System)
      → All (Allowed m metadata) s.signals
      → Safe (resolve (classify_service_conflict m metadata) m metadata choices s)
  unfolding classify_service_conflict
  resolve-Safe choices s a = elim (Bool-cases (is_live m metadata)) [
    | inl e ↦ elim (Bool-cases (is_same_app m metadata)) [
      | inl f ↦ rw (e, f) (resolve_live-Safe choices.conflict_choice s e f a)
      | inr f ↦ rw (e, f) (resolve_unknown-Safe choices.conflict_choice s a)
    ]
    | inr e ↦ rw e (resolve_stale-Safe choices s a)
  ]

handle_lock-Allowed :
    (lock : Option LockMetadata) (m : Machine) (choices : Choices) (s : System)
    → s.signals ≡ []
    → All (AllowedFor m lock) (handle_lock lock m choices s).1.signals
unfolding AllowedFor
handle_lock-Allowed none m choices s e = rw e tt
handle_lock-Allowed (some metadata) m choices s e = resolve-Safe m metadata choices s (rw e tt)

-- Whatever is chosen, prepare_service_lock sends a SIGTERM only to the instance of the lock it has found, if that lives,
-- is verified to be this app and a terminal is there, and to the child of that lock, if it is a
-- Codex that the lock's directory owns. Without a lock nothing is killed.
pub prepare_service_lock-Allowed :
    (m : Machine) (metadata : LockMetadata) (choices : Choices) (s : System)
    → s.signals ≡ []
    → All (AllowedFor m s.lock) (prepare_service_lock m metadata choices s).1.signals
unfolding prepare_service_lock handle_service_conflict
prepare_service_lock-Allowed m metadata choices s e =
    let Only : Ended × System → Type 0 = λ r. All (AllowedFor m s.lock) r.1.signals in
    and_then_lem Only Only (handle_lock s.lock m choices s) _
      (handle_lock-Allowed s.lock m choices s e) (λ s1 a. a) (λ s1 a. a) (λ s1 a. a)
