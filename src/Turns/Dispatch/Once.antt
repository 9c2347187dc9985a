-- ===== src/Turns/Dispatch/Once.antt =====
-- How often _start_or_steer_turn of src/runtime/app_server_runtime.py hands a message over.
use mathlib.Core.List.{append-nil}
use tele_cli.Prelude.{
  ◌≡◌, refl, ap, subst, ◌∙◌, inl, inr, String, Bool, true, false, not, ◌&&◌, ◌||◌, Option, none,
  some, List, [], ◌∷◌, ◌++◌, ◌==◌, string_eq, option_eq, is_text, or_text, if◌then◌else◌,
  Bool-cases, option_beq_iff,
}
use tele_cli.Models.{SessionRecord}
use tele_cli.Sessions.Types.{Tables}
use tele_cli.Sessions.Rows.{bind_session}
use tele_cli.Turns.Stale.{is_stale_active_turn}
use tele_cli.Turns.Dispatch.Handed.{
  hand_overs, interrupted, hand_overs-append, interrupted-append, Handed, Clean, is_some,
}
use tele_cli.Turns.Dispatch.NewTurn.{start_new_turn-Handed}
use tele_cli.Turns.Dispatch.Steered.{steer_active_turn-Steers, steered-Handed}
use tele_cli.Turns.Dispatch.Quiet.{Quiet-trans, log_traced-Quiet, mark-Quiet, Quiet-Clean}
use tele_cli.Turns.Calls.{
  interrupt, called, Outside, State, add_effect, save, log_traced, mark, usable,
}
use tele_cli.Turns.Dispatch.{
  give_up_turn, recover_stale, join_active, prepare, dispatch, start_or_steer_turn,
}

prepare_lem :
    (o : Outside) (d : State)
    → Clean [] d
    → Clean [] (prepare o d)
      × ((prepare o d).session.active_turn_id ≡ d.session.active_turn_id)
      × ((prepare o d).session.thread_id ≡ usable d.session.thread_id)
unfolding prepare save
prepare_lem o d c =
    let said =
      save o
        (record d { session = record (d.session) { last_user_message_at = some o.utc_now } }) in
    let logged = log_traced "ai.dispatch.started" said in
    let told = mark o "ai_dispatch_started" logged in
    let quiet =
      Quiet-trans said logged told (log_traced-Quiet "ai.dispatch.started" said)
        (mark-Quiet o "ai_dispatch_started" logged) in
    let turn = ap (λ s. s.active_turn_id) quiet.2 in
    let thread = ap (λ s. s.thread_id) quiet.2 in
    let clean = Quiet-Clean [] said told quiet c in
    elim (Bool-cases (told.session.thread_id == usable told.session.thread_id)) [
      | inl e ↦ rw e (
        clean,
        turn,
        (option_beq_iff told.session.thread_id (usable told.session.thread_id)).0 e
            ∙ ap usable thread,
      )
      | inr e ↦ rw e (clean, turn, ap usable thread)
    ]

text_of : (x : Option String) → is_text x ≡ true → x ≡ some (or_text x "")
text_of none h = cc
text_of (some s) h = elim (Bool-cases (s == "")) [ inl e ↦ cc (rw e at h) | inr e ↦ rw e ]

interrupt-Clean :
    (turn : String) (returns : Bool) (d : State)
    → Clean [] d
    → (interrupted (d.effects ++ called (interrupt turn) returns ∷ []) ≡ turn ∷ [])
      × (hand_overs (d.effects ++ called (interrupt turn) returns ∷ []) ≡ [])
interrupt-Clean turn returns d c =
    let e = called (interrupt turn) returns in
    (
      interrupted-append d.effects e ∙ ap (λ ts. ts ++ turn ∷ []) c.0,
      hand_overs-append d.effects e ∙ append-nil _ ∙ c.1,
    )

module _ (o : Outside) (text : String) where
  recover_stale-Handed :
      (thread : Option String) (turn : String) (d : State)
      → Clean [] d
      → d.session.thread_id ≡ thread
      → Handed o text (turn ∷ []) true false (recover_stale o text thread turn d)
  unfolding recover_stale add_effect save give_up_turn
  recover_stale-Handed thread turn d c t =
      let told = add_effect (called (interrupt turn) true) d in
      let after = log_traced "ai.dispatch.recovered_stale_turn" told in
      let quiet = log_traced-Quiet "ai.dispatch.recovered_stale_turn" told in
      let given_up = save o (record after { session = give_up_turn after.session }) in
      elim (Bool-cases o.server.interrupts) [
        | inl e ↦ rw e (
            start_new_turn-Handed o text (turn ∷ []) true thread given_up
              (Quiet-Clean (turn ∷ []) told after quiet (interrupt-Clean turn true d c))
              (ap (λ s. s.thread_id) quiet.2 ∙ t))
        | inr e ↦ rw e (interrupt-Clean turn false d c)
      ]

  join_active-Handed :
      (thread : Option String) (turn : String) (d : State)
      → Clean [] d
      → d.session.thread_id ≡ thread
      → d.session.active_turn_id ≡ some turn
      → Handed o text [] (not (is_some thread)) (is_some thread) (join_active o text thread turn d)
  unfolding join_active save give_up_turn
  join_active-Handed none turn d c t a =
      start_new_turn-Handed o text [] true none
        (save o
          (record d { session = record (give_up_turn d.session) { streaming_message_ids = [] } }))
        c t
  join_active-Handed (some thread) turn d c t a =
      steered-Handed o text [] thread turn d _ t a
        (steer_active_turn-Steers [] o.steer_deadline thread turn text o.server.attempts d d refl c)

  dispatch-Handed :
      (stale : Bool) (d : State)
      → Clean [] d
      → let busy = is_text d.session.active_turn_id in
        let threaded = is_some d.session.thread_id in
        Handed o text
          (if busy && stale then or_text d.session.active_turn_id "" ∷ [] else [])
          (busy && (stale || not threaded))
          (busy && (not stale && threaded))
          (dispatch o stale text d)
  unfolding dispatch
  dispatch-Handed stale d c =
      let thread = d.session.thread_id in
      let turn = or_text d.session.active_turn_id "" in
      elim (Bool-cases (is_text d.session.active_turn_id)) [
        | inr idle ↦ rw idle (start_new_turn-Handed o text [] false thread d c refl)
        | inl busy ↦ rw busy (
            branch stale (recover_stale-Handed thread turn d c refl)
              (join_active-Handed thread turn d c refl (text_of d.session.active_turn_id busy)))
      ]
    where
      branch :
          (b : Bool)
          → Handed o text
              (or_text d.session.active_turn_id "" ∷ [])
              true
              false
              (recover_stale o text d.session.thread_id (or_text d.session.active_turn_id "") d)
          → Handed o text []
              (not (is_some d.session.thread_id))
              (is_some d.session.thread_id)
              (join_active o text d.session.thread_id (or_text d.session.active_turn_id "") d)
          → Handed o text
              (if b then or_text d.session.active_turn_id "" ∷ [] else [])
              (b || not (is_some d.session.thread_id))
              (not b && is_some d.session.thread_id)
              (if b
                then recover_stale o text d.session.thread_id
                    (or_text d.session.active_turn_id "")
                    d
                else join_active o text d.session.thread_id (or_text d.session.active_turn_id "") d)
      branch true p q = p
      branch false p q = q

-- _start_or_steer_turn of a session that is not recovering a turn: where it returns, the agent has got the message
-- exactly once, and the session is RUNNING_TURN. It got it by a steering of the session's turn if that
-- turn runs, is not stale and its thread is known, and otherwise by the start of a turn on the
-- session's thread, with an input that ends with the message; the turn that the server
-- answers is then the session's. Where it raises, or still tries to steer, no call that returned has given it to the agent. In all
-- cases the agent is told to interrupt a turn exactly if it is stale; and what is returned is true exactly if a turn was given
-- up, being stale or without a thread.
pub start_or_steer_turn-Handed :
    (o : Outside) (s : SessionRecord) (text : String) (resumed_threads : List String) (t : Tables)
    → (s.status == "RECOVERING_TURN") ≡ false
    → let busy = is_text s.active_turn_id in
      let stale = is_stale_active_turn o.parse o.now s in
      let threaded = is_some (usable s.thread_id) in
      Handed o text
        (if busy && stale then or_text s.active_turn_id "" ∷ [] else [])
        (busy && (stale || not threaded))
        (busy && (not stale && threaded))
        (start_or_steer_turn o s text resumed_threads t)
unfolding start_or_steer_turn is_stale_active_turn bind_session
start_or_steer_turn-Handed o s text resumed_threads t ready =
    let once = bind_session (o.resolve none s) none s in
    let bound : State = record {
      session = bind_session (o.resolve none once) none once;
      tables = t;
      resumed_threads = resumed_threads;
      effects = [];
    } in
    let stale = is_stale_active_turn o.parse o.now s in
    let (clean, turn, thread) = prepare_lem o bound (refl, refl) in
    rw ready (
      subst
        (λ active.
          Handed o text (if is_text active && stale then or_text active "" ∷ [] else [])
            (is_text active && (stale || not (is_some (usable s.thread_id))))
            (is_text active && (not stale && is_some (usable s.thread_id)))
            (dispatch o stale text (prepare o bound)))
        turn
        (subst
          (λ known.
            let active = (prepare o bound).session.active_turn_id in
            Handed o text (if is_text active && stale then or_text active "" ∷ [] else [])
              (is_text active && (stale || not (is_some known)))
              (is_text active && (not stale && is_some known))
              (dispatch o stale text (prepare o bound)))
          thread (dispatch-Handed o text stale (prepare o bound) clean)))
