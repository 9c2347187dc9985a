-- ===== src/Turns/Dispatch/Handed.antt =====
-- What _start_or_steer_turn of src/runtime/app_server_runtime.py hands over to the agent.
use tele_cli.Prelude.{
  ◌≡◌, refl, ap, inl, inr, String, Bool, true, false, some, List, [], ◌∷◌, ◌++◌, string_eq,
  option_eq, filter, ◌<>◌, Bool-cases, Option, none,
}
use tele_cli.Models.{SessionRecord}
use tele_cli.Turns.Calls.{
  interrupt, steer, resume, start_thread, start_turn, Effect, called, trace_updated, marked,
  Outside, State, Ended, returned, raised, waiting,
}

-- a call that returns and by which the agent gets the message
abbrev pub is_hand_over : Effect → Bool
is_hand_over (called (steer thread turn text) returns) = returns
is_hand_over (called (start_turn thread input) returns) = returns
is_hand_over _ = false

abbrev pub hand_overs : List Effect → List Effect
hand_overs effects = filter is_hand_over effects

-- the turns that the agent is told to interrupt
abbrev pub interrupted : List Effect → List String
interrupted [] = []
interrupted (called (interrupt turn) returns ∷ effects) = turn ∷ interrupted effects
interrupted (e ∷ effects) = interrupted effects

pub hand_overs-append :
    (effects : List Effect) (e : Effect)
    → hand_overs (effects ++ e ∷ []) ≡ hand_overs effects ++ hand_overs (e ∷ [])
hand_overs-append [] e = refl
hand_overs-append (f ∷ effects) e = elim (Bool-cases (is_hand_over f)) [
  | inl t ↦ rw t (ap (◌∷◌ f) (hand_overs-append effects e))
  | inr t ↦ rw t (hand_overs-append effects e)
]

pub interrupted-append :
    (effects : List Effect) (e : Effect)
    → interrupted (effects ++ e ∷ []) ≡ interrupted effects ++ interrupted (e ∷ [])
interrupted-append [] e = refl
interrupted-append (called (interrupt turn) r ∷ effects) e =
    ap (◌∷◌ turn) (interrupted-append effects e)
interrupted-append (called (steer th tu x) r ∷ effects) e = interrupted-append effects e
interrupted-append (called (resume th) r ∷ effects) e = interrupted-append effects e
interrupted-append (called start_thread r ∷ effects) e = interrupted-append effects e
interrupted-append (called (start_turn th x) r ∷ effects) e = interrupted-append effects e
interrupted-append (trace_updated th tu ∷ effects) e = interrupted-append effects e
interrupted-append (marked m ∷ effects) e = interrupted-append effects e

-- x is not None
abbrev pub is_some : Option String → Bool
is_some none = false
is_some (some x) = true

-- what the agent got: a steering of the session's turn with the text, or the start of a turn on the
-- session's thread with an input that ends with the text, and the turn that the server answered
abbrev pub Carries : Outside → (text : String) → (steers : Bool) → SessionRecord → Effect → Type 0
Carries o text steers s (called (steer thread turn x) r) =
    (steers ≡ true) × (x ≡ text) × (s.thread_id ≡ some thread) × (s.active_turn_id ≡ some turn)
Carries o text steers s (called (start_turn thread input) r) =
    (steers ≡ false)
    × (s.thread_id ≡ some thread)
    × (o.server.started_turn ≡ some s.active_turn_id)
    × ((before : String) × (input ≡ before <> text))
Carries o text steers s _ = ⊥

-- The message is handed over once where it returns, and never where it raises or waits.
abbrev pub Handed :
    Outside
    → (text : String) → (turns : List String) → (recovered steers : Bool) → Ended × State
    → Type 0
Handed o text turns recovered steers (returned b, d) =
    (b ≡ recovered)
    × (d.session.status ≡ "RUNNING_TURN")
    × (interrupted d.effects ≡ turns)
    × ((e : Effect) × (hand_overs d.effects ≡ e ∷ []) × Carries o text steers d.session e)
Handed o text turns recovered steers (raised, d) =
    (interrupted d.effects ≡ turns) × (hand_overs d.effects ≡ [])
Handed o text turns recovered steers (waiting, d) =
    (interrupted d.effects ≡ turns) × (hand_overs d.effects ≡ [])

-- nothing is handed over so far
abbrev pub Clean : List String → State → Type 0
Clean turns d = (interrupted d.effects ≡ turns) × (hand_overs d.effects ≡ [])
