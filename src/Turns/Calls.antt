-- ===== src/Turns/Calls.antt =====
-- src/runtime/app_server_runtime.py: what _start_or_steer_turn of AppServerSession works on, the calls of the agent's
-- server, and the statements that it repeats.
use tele_cli.Prelude.{
  ℕ, String, Bool, Option, none, some, List, [], ◌∷◌, ◌++◌, ◌==◌, string_eq, option_eq, is_text,
  strip, if◌then◌else◌,
}
use tele_cli.Models.{SessionRecord}
use tele_cli.Sessions.Types.{Tables, EventRow, Workspace}
use tele_cli.Sessions.Rows.{save_session}
use tele_cli.Turns.Input.{Memory}

-- a call of the agent's server
pub data Call : Type 0 where
  interrupt : (turn : String) → Call
  steer : (thread turn text : String) → Call
  resume : (thread : String) → Call
  start_thread : Call
  start_turn : (thread input : String) → Call

-- A call with whether it returns (or raises), and what is written beside the tables: update_trace and the
-- marks of the PerformanceTracker.
pub data Effect : Type 0 where
  called : Call → (returns : Bool) → Effect
  trace_updated : (thread turn : Option String) → Effect
  marked : String → Effect

-- an attempt of _steer_active_turn: the call returns, or it raises with a text, and then the clock is read
pub data Attempt : Type 0 where
  accepted : Attempt
  refused : (error : String) → (now : ℕ) → Attempt

-- What the server answers. Of a call that raises there is none; of one that returns, the id in the dict.
pub record Server : Type 0 where
  pub interrupts : Bool
  pub attempts : List Attempt
  pub resumed_thread : Option (Option String)
  pub first_thread : Option (Option String)
  pub second_thread : Option (Option String)
  pub started_turn : Option (Option String)

pub record Outside : Type 0 where
  pub resolve : Option String → SessionRecord → Workspace
  pub utc_now : String
  pub now : ℕ
  pub parse : String → Option ℕ
  pub steer_deadline : ℕ
  pub has_performance : Bool
  pub memory : Memory
  pub server : Server

-- the session that the caller holds, the tables, _resumed_threads and what has been done
pub record State : Type 0 where
  pub session : SessionRecord
  pub tables : Tables
  pub resumed_threads : List String
  pub effects : List Effect

-- how it ends; `waiting` is the loop of _steer_active_turn, behind the attempts that are given
pub data Ended : Type 0 where
  returned : Bool → Ended
  raised waiting : Ended

unfoldable pub add_effect : Effect → State → State
add_effect e d = record d { effects = d.effects ++ e ∷ [] }

unfoldable pub save : Outside → State → State
save o d = record d { tables = save_session o.resolve o.utc_now d.session d.tables }

-- trace_store.log_event, if the session has a trace
unfoldable pub log_traced : (event_type : String) → State → State
log_traced event_type d =
    let row : EventRow = record {
      source = "service";
      event_type = event_type;
      session_id = some d.session.session_id;
    } in
    if is_text d.session.current_trace_id
    then record d { tables = record (d.tables) { events = d.tables.events ++ row ∷ [] } }
    else d

-- trace_store.update_trace, if the session has a trace
unfoldable pub update_trace : (thread turn : Option String) → State → State
unfolding add_effect
update_trace thread turn d =
    if is_text d.session.current_trace_id then add_effect (trace_updated thread turn) d else d

-- a mark of the PerformanceTracker, if there is one
unfoldable pub mark : Outside → String → State → State
unfolding add_effect
mark o name d = if o.has_performance then add_effect (marked name) d else d

-- a text that is not blank, of an optional one
unfoldable pub usable : Option String → Option String
unfolding strip
usable none = none
usable (some thread) = if strip thread == "" then none else some thread
