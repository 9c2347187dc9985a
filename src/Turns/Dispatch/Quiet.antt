-- ===== src/Turns/Dispatch/Quiet.antt =====
-- The lines of _start_or_steer_turn of src/runtime/app_server_runtime.py that log, trace and measure.
use tele_cli.Prelude.{
  ◌≡◌, refl, sym, ap, subst, ◌∙◌, inl, inr, String, Bool, Option, List, [], ◌∷◌, ◌++◌, string_eq,
  option_eq, is_text, Bool-cases,
}
use tele_cli.Turns.Dispatch.Handed.{
  hand_overs, interrupted, hand_overs-append, interrupted-append, Handed, Clean, Carries,
}
use tele_cli.Turns.Calls.{
  Effect, trace_updated, marked, Outside, State, returned, add_effect, log_traced, update_trace,
  mark,
}
use tele_cli.Turns.Dispatch.{thread_ready}
use mathlib.Core.List.{append-nil}

-- The session is as it was, and so are the effects, but for some that neither hand over nor interrupt.
abbrev pub Quiet : State → State → Type 0
Quiet d d' =
    (interrupted d'.effects ≡ interrupted d.effects)
    × (hand_overs d'.effects ≡ hand_overs d.effects)
    × (d'.session ≡ d.session)

pub Quiet-trans : (a b c : State) → Quiet a b → Quiet b c → Quiet a c
Quiet-trans a b c p q = (q.0 ∙ p.0, q.1 ∙ p.1, q.2 ∙ p.2)

pub effect-Quiet :
    (e : Effect) (d : State)
    → interrupted (e ∷ []) ≡ []
    → hand_overs (e ∷ []) ≡ []
    → Quiet d (add_effect e d)
unfolding add_effect
effect-Quiet e d h k = (
  interrupted-append d.effects e ∙ rw h (append-nil _),
  hand_overs-append d.effects e ∙ rw k (append-nil _),
  refl,
)

pub log_traced-Quiet : (event_type : String) (d : State) → Quiet d (log_traced event_type d)
unfolding log_traced
log_traced-Quiet event_type d = elim (Bool-cases (is_text d.session.current_trace_id)) [
  | inl e ↦ rw e (refl, refl, refl)
  | inr e ↦ rw e (refl, refl, refl)
]

pub update_trace-Quiet :
    (thread turn : Option String) (d : State) → Quiet d (update_trace thread turn d)
unfolding update_trace
update_trace-Quiet thread turn d = elim (Bool-cases (is_text d.session.current_trace_id)) [
  | inl e ↦ rw e (effect-Quiet (trace_updated thread turn) d refl refl)
  | inr e ↦ rw e (refl, refl, refl)
]

pub mark-Quiet : (o : Outside) (name : String) (d : State) → Quiet d (mark o name d)
unfolding mark
mark-Quiet o name d = elim (Bool-cases o.has_performance) [
  | inl e ↦ rw e (effect-Quiet (marked name) d refl refl)
  | inr e ↦ rw e (refl, refl, refl)
]

pub Quiet-Clean : (turns : List String) (d d' : State) → Quiet d d' → Clean turns d → Clean turns d'
Quiet-Clean turns d d' q c = (q.0 ∙ c.0, q.1 ∙ c.1)

pub Quiet-Handed :
    (o : Outside) (text : String) (turns : List String) (recovered steers b : Bool) (d d' : State)
    → Quiet d d'
    → Handed o text turns recovered steers (returned b, d)
    → Handed o text turns recovered steers (returned b, d')
Quiet-Handed o text turns recovered steers b d d' q (same, status, told, (e, given, carries)) = (
  same,
  ap (λ s. s.status) q.2 ∙ status,
  q.0 ∙ told,
  (e, q.1 ∙ given, subst (λ s. Carries o text steers s e) (sym q.2) carries),
)

-- the three lines behind a turn that has begun
pub told-Quiet :
    (o : Outside) (thread turn : Option String) (event_type name : String) (d : State)
    → Quiet d (mark o name (log_traced event_type (update_trace thread turn d)))
told-Quiet o thread turn event_type name d =
    let traced = update_trace thread turn d in
    let logged = log_traced event_type traced in
    let measured = mark o name logged in
    Quiet-trans d traced measured (update_trace-Quiet thread turn d) (
      Quiet-trans traced logged measured (log_traced-Quiet event_type traced)
        (mark-Quiet o name logged))

-- the lines that make a thread known
pub thread_ready-Quiet :
    (o : Outside) (trigger thread : String) (d : State) → Quiet d (thread_ready o trigger thread d)
unfolding thread_ready
thread_ready-Quiet o trigger thread d =
    let known = record d { resumed_threads = thread ∷ d.resumed_threads } in
    let logged = log_traced "ai.thread.ready" known in
    let measured = mark o trigger logged in
    Quiet-trans d known measured (refl, refl, refl)
      (Quiet-trans known logged measured (log_traced-Quiet "ai.thread.ready" known)
        (mark-Quiet o trigger logged))

-- a call that neither hands over nor interrupts
pub called-Clean :
    (turns : List String) (e : Effect) (d : State)
    → interrupted (e ∷ []) ≡ []
    → hand_overs (e ∷ []) ≡ []
    → Clean turns d
    → (interrupted (d.effects ++ e ∷ []) ≡ turns) × (hand_overs (d.effects ++ e ∷ []) ≡ [])
called-Clean turns e d h k c = (
  interrupted-append d.effects e ∙ rw h (append-nil _) ∙ c.0,
  hand_overs-append d.effects e ∙ rw k (append-nil _) ∙ c.1,
)
