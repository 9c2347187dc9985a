-- ===== src/Turns/Dispatch/NewTurn.antt =====
-- A new turn that _start_or_steer_turn of src/runtime/app_server_runtime.py starts gets the message once.
use mathlib.Core.List.{append-nil}
use text.Mathlib.TextLemmas.{nil-append, append_assoc}
use tele_cli.Prelude.{
  ◌≡◌, refl, sym, ap, ◌∙◌, inl, inr, String, Bool, true, false, Option, none, some, List, [], ◌∷◌,
  ◌++◌, ◌==◌, string_eq, option_eq, is_text, or_text, any, ◌<>◌, Bool-cases, Option-cases,
}
use tele_cli.Models.{SessionRecord}
use tele_cli.Turns.Input.{
  Memory, build_turn_input, build_refresh_instructions, user_request, with_instructions,
}
use tele_cli.Turns.Dispatch.Handed.{hand_overs-append, interrupted-append, Handed, Clean}
use tele_cli.Turns.Dispatch.Quiet.{
  update_trace-Quiet, Quiet-Clean, Quiet-Handed, told-Quiet, thread_ready-Quiet, called-Clean,
}
use tele_cli.Turns.Calls.{
  resume, start_thread, start_turn, called, Outside, State, Ended, returned, add_effect, save,
  log_traced, update_trace, mark, usable,
}
use tele_cli.Turns.Dispatch.{
  begin_thread, resume_thread, turn_started, thread_resumed, with_turn, with_thread, thread_ready,
  with_resumed, start_turn_on, retry_thread, start_new_turn,
}

-- the input of a turn ends with the message
user_request-ends :
    (recovered : Bool) (text : String)
    → (before : String) × (user_request recovered text ≡ before <> text)
unfolding user_request
user_request-ends true text = (_, refl)
user_request-ends false text = ("", sym (nil-append text))

with_instructions-ends :
    (instructions request text : String)
    → (before : String) × (request ≡ before <> text)
    → (before : String) × (with_instructions instructions request ≡ before <> text)
with_instructions-ends instructions request text (before, e) = (
  (instructions <> "\n\nUser request:\n") <> before,
  ap (λ r. (instructions <> "\n\nUser request:\n") <> r) e ∙ sym (append_assoc _ before text),
)

build_turn_input-ends :
    (m : Memory) (s : SessionRecord) (text : String) (recovered : Bool)
    → ((before : String) × ((build_turn_input m s text recovered).1 ≡ before <> text))
      × ((build_turn_input m s text recovered).0.thread_id ≡ s.thread_id)
unfolding build_turn_input
build_turn_input-ends m s text recovered =
    let request = user_request-ends recovered text in
    elim (Bool-cases s.instructions_dirty) [
      | inr e ↦ rw e (request, refl)
      | inl e ↦ elim (Bool-cases (is_text s.thread_id)) [
        | inr f ↦ elim (Bool-cases (m.session_instructions == "")) [
          | inl g ↦ rw (e, f, g) (request, refl)
          | inr g ↦ rw (e, f, g) (with_instructions-ends _ _ text request, refl)
        ]
        | inl f ↦
            elim (Bool-cases ((build_refresh_instructions m s.last_seen_generation).0 == "")) [
              | inl g ↦ rw (e, f, g) (request, refl)
              | inr g ↦ rw (e, f, g) (with_instructions-ends _ _ text request, refl)
            ]
      ]
    ]

module _ (o : Outside) (text : String) (turns : List String) (recovered : Bool) where
  -- what is left of the function is right for every thread that it may be given
  Goes : (Option String → State → Ended × State) → Type 0
  Goes k =
      (thread : Option String) (d : State)
      → Clean turns d
      → d.session.thread_id ≡ thread
      → Handed o text turns recovered false (k thread d)

  with_turn-Handed :
      (turn : Option String) (thread before : String) (d : State)
      → o.server.started_turn ≡ some turn
      → Clean turns d
      → d.session.thread_id ≡ some thread
      → Handed o text turns recovered false
          (returned recovered, with_turn o turn (start_turn thread (before <> text)) d)
  unfolding with_turn save add_effect
  with_turn-Handed turn thread before d a c t =
      let e = called (start_turn thread (before <> text)) true in
      (
        refl,
        refl,
        interrupted-append d.effects e ∙ append-nil _ ∙ c.0,
        (
          e,
          hand_overs-append d.effects e ∙ ap (λ es. es ++ e ∷ []) c.1,
          (refl, t, a, (before, refl)),
        ),
      )

  turn_started-Handed :
      (answer : Option (Option String)) (thread before : String) (d : State)
      → o.server.started_turn ≡ answer
      → Clean turns d
      → d.session.thread_id ≡ some thread
      → Handed o text turns recovered false
          (turn_started o recovered answer (start_turn thread (before <> text)) d)
  unfolding turn_started add_effect
  turn_started-Handed none thread before d a c t =
      called-Clean turns (called (start_turn thread (before <> text)) false) d refl refl c
  turn_started-Handed (some turn) thread before d a c t =
      let call = start_turn thread (before <> text) in
      let saved = with_turn o turn call d in
      Quiet-Handed o text turns recovered false recovered saved
        (mark o "turn_registered" (
          log_traced "ai.turn.registered"
            (update_trace saved.session.thread_id saved.session.active_turn_id saved)))
        (told-Quiet o saved.session.thread_id saved.session.active_turn_id _ _ saved)
        (with_turn-Handed turn thread before d a c t)

  start_turn_on-Goes :
      (input : String)
      → (before : String) × (input ≡ before <> text)
      → Goes (start_turn_on o recovered input)
  unfolding Goes start_turn_on save
  start_turn_on-Goes input ends none d c t = c
  start_turn_on-Goes input (before, e) (some thread) d c t =
      rw e (turn_started-Handed _ thread before _ refl c t)

  with_thread-Clean :
      (thread : Option String) (d : State) → Clean turns d → Clean turns (with_thread o thread d)
  unfolding with_thread save add_effect
  with_thread-Clean thread d c = called-Clean turns (called start_thread true) d refl refl c

  Goes-ready :
      (k : Option String → State → Ended × State) (trigger thread : String) (d : State)
      → Goes k
      → Clean turns d
      → d.session.thread_id ≡ some thread
      → Handed o text turns recovered false (k (some thread) (thread_ready o trigger thread d))
  unfolding Goes
  Goes-ready k trigger thread d goes c t =
      let quiet = thread_ready-Quiet o trigger thread d in
      goes (some thread) (thread_ready o trigger thread d)
        (Quiet-Clean turns d (thread_ready o trigger thread d) quiet c)
        (ap (λ s. s.thread_id) quiet.2 ∙ t)

  begin_thread-Handed :
      (answer : Option (Option String)) (trigger : String) (d : State)
      (k : Option String → State → Ended × State)
      → Clean turns d
      → Goes k
      → Handed o text turns recovered false (begin_thread o answer trigger d k)
  unfolding Goes begin_thread add_effect
  begin_thread-Handed none trigger d k c goes =
      called-Clean turns (called start_thread false) d refl refl c
  begin_thread-Handed (some answer) trigger d k c goes = elim (Option-cases (usable answer)) [
    | inl e ↦
        rw (e, begin_thread)
          (rw e (goes none (with_thread o none d) (with_thread-Clean none d c) refl))
    | inr (t, e) ↦
        rw (e, begin_thread)
          (rw e (
            Goes-ready k trigger t (update_trace (some t) none (with_thread o (some t) d)) goes
              (Quiet-Clean turns (with_thread o (some t) d)
                (update_trace (some t) none (with_thread o (some t) d))
                (update_trace-Quiet (some t) none (with_thread o (some t) d))
                (with_thread-Clean (some t) d c))
              (ap (λ s. s.thread_id)
                (update_trace-Quiet (some t) none (with_thread o (some t) d)).2)))
  ]

  with_resumed-Clean :
      (thread : String) (after : Option String) (d : State)
      → Clean turns d
      → Clean turns (with_resumed thread after d)
  unfolding with_resumed add_effect
  with_resumed-Clean thread after d c =
      called-Clean turns (called (resume thread) true) d refl refl c

  thread_resumed-Handed :
      (answer : Option (Option String)) (thread : String) (d : State)
      (k : Option String → State → Ended × State)
      → Clean turns d
      → Goes k
      → Handed o text turns recovered false (thread_resumed o answer thread d k)
  unfolding Goes thread_resumed save add_effect with_resumed
  thread_resumed-Handed none thread d k c goes =
      goes none _ (called-Clean turns (called (resume thread) false) d refl refl c) refl
  thread_resumed-Handed (some answer) thread d k c goes =
      elim (Option-cases (usable (some (or_text answer thread)))) [
        | inl e ↦
            rw (e, thread_resumed)
              (rw e
                (goes none (with_resumed thread none d) (with_resumed-Clean thread none d c) refl))
        | inr (after, e) ↦
            rw (e, thread_resumed)
              (rw e (
                Goes-ready k "thread_resume" after (with_resumed thread (some after) d) goes
                  (with_resumed-Clean thread (some after) d c) refl))
      ]

  resume_thread-Handed :
      (thread : String) (d : State) (k : Option String → State → Ended × State)
      → Clean turns d
      → d.session.thread_id ≡ some thread
      → Goes k
      → Handed o text turns recovered false (resume_thread o thread d k)
  unfolding Goes resume_thread
  resume_thread-Handed thread d k c t goes =
      elim (Bool-cases (any (λ x. x == thread) d.resumed_threads)) [
        | inl known ↦ rw known (goes (some thread) d c t)
        | inr new ↦ rw new (thread_resumed-Handed o.server.resumed_thread thread d k c goes)
      ]

  retry_thread-Goes :
      (input : String)
      → (before : String) × (input ≡ before <> text)
      → Goes (retry_thread o recovered input)
  unfolding Goes retry_thread
  retry_thread-Goes input ends (some thread) d c t =
      start_turn_on-Goes input ends (some thread) d c t
  retry_thread-Goes input ends none d c t =
      begin_thread-Handed o.server.second_thread "thread_start_retry" d
        (start_turn_on o recovered input) c (start_turn_on-Goes input ends)

  pub start_new_turn-Handed :
      (thread : Option String) (d : State)
      → Clean turns d
      → d.session.thread_id ≡ thread
      → Handed o text turns recovered false (start_new_turn o recovered text thread d)
  unfolding start_new_turn
  start_new_turn-Handed none d c t =
      let input = (build_turn_input o.memory d.session text recovered).1 in
      let ends = build_turn_input-ends o.memory d.session text recovered in
      begin_thread-Handed o.server.first_thread "thread_start" _ (retry_thread o recovered input) c
        (retry_thread-Goes input ends.0)
  start_new_turn-Handed (some thread) d c t =
      let input = (build_turn_input o.memory d.session text recovered).1 in
      let ends = build_turn_input-ends o.memory d.session text recovered in
      resume_thread-Handed thread _ (retry_thread o recovered input) c (ends.1 ∙ t)
        (retry_thread-Goes input ends.0)
