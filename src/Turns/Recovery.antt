-- ===== src/Turns/Recovery.antt =====
-- What recover_inflight_sessions of src/runtime/app_server_runtime.py leaves.
use mathlib.Core.List.{Memᴰ}
use tele_cli.Prelude.{
  ◌≡◌, refl, sym, subst, ◌∙◌, inl, inr, ℕ, String, true, false, not, ◌&&◌, Option, none, some, List,
  [], ◌∷◌, ◌==◌, string_eq, is_text, any, All, All-mono, All-map, All-every, arith, Bool-cases,
  eq_iff,
}
use tele_cli.Models.{SessionRecord}
use tele_cli.Sessions.Types.{Tables, Workspace, order_rows}
use tele_cli.Sessions.Rows.{load, bind_session}
use tele_cli.Sessions.Detached.{ordered-All}
use tele_cli.Sessions.Saving.Written.{save-All, All-Mem}
use tele_cli.Turns.Stale.{is_stale_active_turn}
use tele_cli.Turns.Sends.{is_inflight, forget_turn, recover_session, recover_inflight_sessions}

-- no session is recovering, and a turn that runs is one, and has not died
pub record IsSettled (parse : String → Option ℕ) (now : ℕ) (s : SessionRecord) : Type 0 where
  pub not_recovering : (s.status == "RECOVERING_TURN") ≡ false
  pub has_turn : (s.status == "RUNNING_TURN") ≡ true → is_text s.active_turn_id ≡ true
  pub is_fresh : (s.status == "RUNNING_TURN") ≡ true → is_stale_active_turn parse now s ≡ false

module _ (parse : String → Option ℕ) (now : ℕ) where
  forget_turn-id : (s : SessionRecord) → (forget_turn s).session_id ≡ s.session_id
  unfolding forget_turn
  forget_turn-id s = ground arith

  recover_session-id :
      (s : SessionRecord) → (recover_session parse now s).0.session_id ≡ s.session_id
  unfolding recover_session
  recover_session-id s = ground (arith, forget_turn-id s)

  settled_status :
      (s : SessionRecord)
      → is_inflight s ≡ false
      → ((s.status == "RECOVERING_TURN") ≡ false) × ((s.status == "RUNNING_TURN") ≡ false)
  unfolding is_inflight
  settled_status s h = (ground (arith, h), ground (arith, h))

  running-not_recovering :
      (s : SessionRecord)
      → (s.status == "RUNNING_TURN") ≡ true
      → (s.status == "RECOVERING_TURN") ≡ false
  running-not_recovering s e = rw ((eq_iff s.status "RUNNING_TURN").0 e)

  running_fresh :
      (s : SessionRecord)
      → is_stale_active_turn parse now s ≡ false
      → is_stale_active_turn parse now (record s { status = "RUNNING_TURN" }) ≡ false
  unfolding is_stale_active_turn
  running_fresh s h = h

  bound-IsSettled :
      (w : Workspace) (s : SessionRecord)
      → IsSettled parse now s
      → IsSettled parse now (bind_session w none s)
  unfolding bind_session is_stale_active_turn
  bound-IsSettled w s h = record {
    not_recovering = h.not_recovering;
    has_turn = h.has_turn;
    is_fresh = h.is_fresh;
  }

  recover_session-IsSettled :
      (s : SessionRecord) → IsSettled parse now (recover_session parse now s).0
  unfolding recover_session
  recover_session-IsSettled s = elim (Bool-cases (is_inflight s)) [
    | inr out ↦ rw out (record {
      not_recovering = (settled_status s out).0;
      has_turn = λ q. cc (sym q ∙ (settled_status s out).1);
      is_fresh = λ q. cc (sym q ∙ (settled_status s out).1);
    })
    | inl inside ↦
        elim (Bool-cases (is_text s.active_turn_id && not (is_stale_active_turn parse now s))) [
          | inr dead ↦
              rw (inside, dead)
                (record { not_recovering = refl; has_turn = λ q. cc q; is_fresh = λ q. cc q })
          | inl alive ↦ elim (Bool-cases (s.status == "RUNNING_TURN")) [
            | inl running ↦
                rw (inside, alive, running)
                  (record {
                    not_recovering = running-not_recovering s running;
                    has_turn = λ q. ground (arith, alive);
                    is_fresh = λ q. ground (arith, alive);
                  })
            | inr other ↦
                rw (inside, alive, other)
                  (record {
                    not_recovering = refl;
                    has_turn = λ q. ground (arith, alive);
                    is_fresh = λ q. running_fresh s (ground (arith, alive));
                  })
          ]
        ]
  ]

  unchanged :
      (s : SessionRecord)
      → (recover_session parse now s).1 ≡ false
      → (recover_session parse now s).0 ≡ s
  unfolding recover_session
  unchanged s h = ground (arith, h)

  any-All :
      (xs : List SessionRecord)
      → any (λ s. (recover_session parse now s).1) xs ≡ false
      → All (IsSettled parse now) xs
  any-All [] h = tt
  any-All (s ∷ xs) h = (
    subst (IsSettled parse now) (unchanged s (ground (arith, h))) (recover_session-IsSettled s),
    any-All xs (ground (arith, h)),
  )

-- recover_inflight_sessions always succeeds. Behind it no session of the table is recovering a turn, and every
-- session that is running one has a turn which is not stale.
pub recover_inflight_sessions-IsSettled :
    (parse : String → Option ℕ) (now : ℕ) (resolve : Option String → SessionRecord → Workspace)
    (utc_now : String) (t : Tables)
    → (after : Tables) × (recover_inflight_sessions parse now resolve utc_now t ≡ some after)
      × All (IsSettled parse now) after.sessions
unfolding recover_inflight_sessions load
recover_inflight_sessions-IsSettled parse now resolve utc_now t =
    elim (Bool-cases (any (λ s. (recover_session parse now s).1) (load t))) [
      | inl e ↦ rw e (
          save-All resolve utc_now (λ s. (recover_session parse now s).0) (IsSettled parse now) t
            (recover_session-id parse now)
            (All-map (IsSettled parse now) (IsSettled parse now)
              (λ s. bind_session (resolve none s) none s) _
              (λ s h. bound-IsSettled parse now (resolve none s) s h)
              (All-map (λ s. Unit {0}) (IsSettled parse now) (λ s. (recover_session parse now s).0)
                (load t) (λ s u. recover_session-IsSettled parse now s)
                (All-every (λ s. Unit {0}) (load t) (λ s. tt)))))
      | inr e ↦ rw e (
        t,
        refl,
        All-mono (λ r. Memᴰ r (order_rows t.sessions)) (IsSettled parse now) t.sessions
            (λ r m.
              All-Mem (IsSettled parse now) (order_rows t.sessions) r
                (any-All parse now (order_rows t.sessions) e) m)
            (ordered-All t.sessions),
      )
    ]
