-- ===== src/Turns/Dispatch/Steered.antt =====
-- _steer_active_turn of src/runtime/app_server_runtime.py gives the message to the turn that runs.
use mathlib.Core.List.{append-nil}
use tele_cli.Prelude.{
  ◌≡◌, refl, ap, ◌∙◌, inl, inr, ℕ, String, Bool, true, false, Option, none, some, List, [], ◌∷◌,
  ◌++◌, string_eq, option_eq, Bool-cases, lower_contains, leb,
}
use tele_cli.Turns.Dispatch.Handed.{
  hand_overs, interrupted, hand_overs-append, interrupted-append, Handed, Clean,
}
use tele_cli.Turns.Dispatch.Quiet.{Quiet-Handed, told-Quiet, called-Clean}
use tele_cli.Turns.Calls.{
  steer, called, Attempt, accepted, refused, Outside, State, add_effect, save, log_traced,
  update_trace, mark,
}
use tele_cli.Turns.Dispatch.{steer_active_turn, steered}

-- what _steer_active_turn does
pub Steers :
    (turns : List String) → (thread turn text : String) → State → Option Bool × State → Type 0
Steers turns thread turn text d (some true, d') =
    (d'.session ≡ d.session)
    × (interrupted d'.effects ≡ turns)
    × (hand_overs d'.effects ≡ called (steer thread turn text) true ∷ [])
Steers turns thread turn text d (some false, d') = Clean turns d'
Steers turns thread turn text d (none, d') = Clean turns d'

pub steer_active_turn-Steers :
    (turns : List String) (deadline : ℕ) (thread turn text : String) (attempts : List Attempt)
    (d start : State)
    → d.session ≡ start.session
    → Clean turns d
    → Steers turns thread turn text start (steer_active_turn deadline thread turn text attempts d)
unfolding Steers steer_active_turn add_effect
steer_active_turn-Steers turns deadline thread turn text [] d start e c = c
steer_active_turn-Steers turns deadline thread turn text (accepted ∷ attempts) d start e c =
    let call = called (steer thread turn text) true in
    (
      e,
      interrupted-append d.effects call ∙ append-nil _ ∙ c.0,
      hand_overs-append d.effects call ∙ ap (λ es. es ++ call ∷ []) c.1,
    )
steer_active_turn-Steers turns deadline thread turn text (refused error now ∷ attempts) d start e
      c =
    let tried = called-Clean turns (called (steer thread turn text) false) d refl refl c in
    let after = add_effect (called (steer thread turn text) false) d in
    elim (Bool-cases (lower_contains error "no active turn to steer")) [
      | inr f ↦ rw f tried
      | inl f ↦ elim (Bool-cases (leb deadline now)) [
        | inl late ↦ rw (f, late) tried
        | inr early ↦
            rw (f, early)
              (steer_active_turn-Steers turns deadline thread turn text attempts after start e
                tried)
      ]
    ]

pub steered-Handed :
    (o : Outside) (text : String) (turns : List String) (thread turn : String) (d : State)
    (r : Option Bool × State)
    → d.session.thread_id ≡ some thread
    → d.session.active_turn_id ≡ some turn
    → Steers turns thread turn text d r
    → Handed o text turns false true (steered o thread r)
unfolding Steers steered save
steered-Handed o text turns thread turn d (none, d') t a h = h
steered-Handed o text turns thread turn d (some false, d') t a h = h
steered-Handed o text turns thread turn d (some true, d') t a (same, told, given) =
    let saved = save o (record d' { session = record (d'.session) { status = "RUNNING_TURN" } }) in
    Quiet-Handed o text turns false true false saved
      (mark o "turn_registered" (
        log_traced "ai.turn.steered"
          (update_trace (some thread) saved.session.active_turn_id saved)))
      (told-Quiet o (some thread) saved.session.active_turn_id "ai.turn.steered" "turn_registered"
        saved)
      (
        refl,
        refl,
        told,
        (
          called (steer thread turn text) true,
          given,
          (refl, refl, ap (λ s. s.thread_id) same ∙ t, ap (λ s. s.active_turn_id) same ∙ a),
        ),
      )
