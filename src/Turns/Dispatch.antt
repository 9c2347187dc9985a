-- ===== src/Turns/Dispatch.antt =====
-- src/runtime/app_server_runtime.py: _start_or_steer_turn of AppServerSession.
pub mod Handed
pub mod Quiet
pub mod NewTurn
pub mod Steered
pub mod Once
use tele_cli.Prelude.{
  ℕ, String, Bool, true, false, not, Option, none, some, List, [], ◌∷◌, ◌++◌, ◌==◌, string_eq,
  option_eq, is_text, or_text, strip, leb, any, lower_contains, if◌then◌else◌,
}
use tele_cli.Models.{SessionRecord}
use tele_cli.Sessions.Types.{Tables, EventRow, Workspace}
use tele_cli.Sessions.Rows.{bind_session, save_session}
use tele_cli.Turns.Stale.{is_stale_active_turn}
use tele_cli.Turns.Input.{Memory, build_turn_input}
use tele_cli.Turns.Calls.{
  Call, interrupt, steer, resume, start_thread, start_turn, called, Attempt, accepted, refused,
  Outside, State, Ended, returned, raised, waiting, add_effect, save, log_traced, update_trace,
  mark, usable,
}

-- _steer_active_turn: how it ends (none: the attempts do not end it), and the calls
unfoldable pub steer_active_turn :
    (deadline : ℕ) → (thread turn text : String) → List Attempt → State → Option Bool × State
unfolding add_effect
steer_active_turn deadline thread turn text [] d = (none, d)
steer_active_turn deadline thread turn text (accepted ∷ attempts) d =
    (some true, add_effect (called (steer thread turn text) true) d)
steer_active_turn deadline thread turn text (refused error now ∷ attempts) d =
    let tried = add_effect (called (steer thread turn text) false) d in
    let again = steer_active_turn deadline thread turn text attempts tried in
    if not (lower_contains error "no active turn to steer")
    then (some false, tried)
    else if leb deadline now
    then (some false, tried)
    else again

-- the lines behind _steer_active_turn
unfoldable pub steered : Outside → (thread : String) → Option Bool × State → Ended × State
unfolding save update_trace log_traced mark
steered o thread (none, d) = (waiting, d)
steered o thread (some false, d) = (raised, d)
steered o thread (some true, d) =
    let saved = save o (record d { session = record (d.session) { status = "RUNNING_TURN" } }) in
    let traced = update_trace (some thread) saved.session.active_turn_id saved in
    (returned false, mark o "turn_registered" (log_traced "ai.turn.steered" traced))

-- the session and the tables behind a thread_start that returns
unfoldable pub with_thread : Outside → Option String → State → State
unfolding add_effect save
with_thread o thread d = save o (record (add_effect (called start_thread true) d) {
  session = record (d.session) { thread_id = thread };
})

-- the lines that make a thread known
unfoldable pub thread_ready : Outside → (trigger thread : String) → State → State
unfolding log_traced mark
thread_ready o trigger t d =
    let known = record d { resumed_threads = t ∷ d.resumed_threads } in
    mark o trigger (log_traced "ai.thread.ready" known)

-- The call of thread_start, which answers so, and the lines behind it up to the mark with this trigger. The rest goes on
-- with the thread, if there is one.
unfoldable pub begin_thread :
    Outside
    → (answer : Option (Option String)) → (trigger : String) → State
    → (Option String → State → Ended × State)
    → Ended × State
unfolding add_effect usable with_thread update_trace thread_ready
begin_thread o none trigger d k = (raised, add_effect (called start_thread false) d)
begin_thread o (some answer) trigger d k =
    let thread = usable answer in
    let saved = with_thread o thread d in
    elim thread [
      | none ↦ k none saved
      | some t ↦ k (some t) (thread_ready o trigger t (update_trace (some t) none saved))
    ]

unfoldable pub with_resumed : (thread : String) → (after : Option String) → State → State
unfolding add_effect
with_resumed thread after d = record (add_effect (called (resume thread) true) d) {
  session = record (d.session) { thread_id = after };
}

-- the answer of thread_resume, and the lines behind it
unfoldable pub thread_resumed :
    Outside
    → Option (Option String)
    → (thread : String) → State
    → (Option String → State → Ended × State)
    → Ended × State
unfolding add_effect usable save with_resumed thread_ready
thread_resumed o none thread d k = k none (
    save o (record (add_effect (called (resume thread) false) d) {
      session = record (d.session) { thread_id = none };
    }))
thread_resumed o (some answer) thread d k =
    let after = usable (some (or_text answer thread)) in
    let got = with_resumed thread after d in
    elim after [ none ↦ k none got | some t ↦ k (some t) (thread_ready o "thread_resume" t got) ]

-- thread_resume of a thread that is not known yet
unfoldable pub resume_thread :
    Outside → (thread : String) → State → (Option String → State → Ended × State) → Ended × State
unfolding thread_resumed
resume_thread o thread d k =
    if any (λ t. t == thread) d.resumed_threads
    then k (some thread) d
    else thread_resumed o o.server.resumed_thread thread d k

-- the session and the tables with the turn that the server answered
unfoldable pub with_turn : Outside → Option String → Call → State → State
unfolding add_effect save
with_turn o turn call d = save o (record (add_effect (called call true) d) {
  session = record (d.session) {
    active_turn_id = turn;
    pending_output_text = "";
    status = "RUNNING_TURN";
    instructions_dirty = false;
    last_seen_generation = o.memory.generation;
  };
})

-- the answer of turn_start, and the lines behind it
unfoldable pub turn_started :
    Outside → (recovered : Bool) → Option (Option String) → Call → State → Ended × State
unfolding add_effect with_turn update_trace log_traced mark
turn_started o recovered none call d = (raised, add_effect (called call false) d)
turn_started o recovered (some turn) call d =
    let saved = with_turn o turn call d in
    let traced = update_trace saved.session.thread_id saved.session.active_turn_id saved in
    (returned recovered, mark o "turn_registered" (log_traced "ai.turn.registered" traced))

-- the lines behind the three attempts to get a thread
unfoldable pub start_turn_on :
    Outside → (recovered : Bool) → (input : String) → Option String → State → Ended × State
unfolding save turn_started
start_turn_on o recovered input none d = (raised, d)
start_turn_on o recovered input (some thread) d =
    turn_started o recovered o.server.started_turn (start_turn thread input) (
      save o (record d {
        session = record (d.session) {
          last_delivered_output_text = "";
          streaming_message_id = none;
          thinking_message_id = none;
          streaming_output_text = "";
          streaming_phase = "";
          thinking_message_text = "";
        };
      }))

-- `if not thread_id:` with its second thread_start
unfoldable pub retry_thread :
    Outside → (recovered : Bool) → (input : String) → Option String → State → Ended × State
unfolding begin_thread start_turn_on
retry_thread o recovered input (some thread) d = start_turn_on o recovered input (some thread) d
retry_thread o recovered input none d =
    begin_thread o o.server.second_thread "thread_start_retry" d (start_turn_on o recovered input)

-- the lines from _build_turn_input on
unfoldable pub start_new_turn :
    Outside
    → (recovered : Bool) → (text : String) → (thread : Option String) → State
    → Ended × State
unfolding build_turn_input begin_thread resume_thread retry_thread
start_new_turn o recovered text thread d =
    let (session, input) = build_turn_input o.memory d.session text recovered in
    let built = record d { session = session } in
    elim thread [
      | some t ↦ resume_thread o t built (retry_thread o recovered input)
      | none ↦
          begin_thread o o.server.first_thread "thread_start" built (retry_thread o recovered input)
    ]

-- what both branches that give up a turn set
unfoldable pub give_up_turn : SessionRecord → SessionRecord
give_up_turn s = record s {
  active_turn_id = none;
  pending_output_text = "";
  pending_output_updated_at = none;
  streaming_message_id = none;
  thinking_message_id = none;
  streaming_output_text = "";
  streaming_phase = "";
  thinking_message_text = "";
  status = "ACTIVE";
}

-- the branch of a stale turn
unfoldable pub recover_stale :
    Outside → (text : String) → (thread : Option String) → (turn : String) → State → Ended × State
unfolding add_effect log_traced give_up_turn save start_new_turn
recover_stale o text thread turn d =
    let after =
      log_traced "ai.dispatch.recovered_stale_turn" (add_effect (called (interrupt turn) true) d) in
    if o.server.interrupts
    then start_new_turn o true text thread
        (save o (record after { session = give_up_turn after.session }))
    else (raised, add_effect (called (interrupt turn) false) d)

-- the branch of a turn that is not stale
unfoldable pub join_active :
    Outside → (text : String) → (thread : Option String) → (turn : String) → State → Ended × State
unfolding steer_active_turn steered give_up_turn save start_new_turn
join_active o text (some thread) turn d =
    steered o thread (steer_active_turn o.steer_deadline thread turn text o.server.attempts d)
join_active o text none turn d =
    start_new_turn o true text none (
      save o
        (record d { session = record (give_up_turn d.session) { streaming_message_ids = [] } }))

-- the lines from mark_user_message to the normalized thread id
unfoldable pub prepare : Outside → State → State
unfolding save log_traced mark usable
prepare o d =
    let said =
      save o
        (record d { session = record (d.session) { last_user_message_at = some o.utc_now } }) in
    let told = mark o "ai_dispatch_started" (log_traced "ai.dispatch.started" said) in
    let active = record told {
      session = record (told.session) {
        status = if told.session.status == "ARCHIVED" then "ARCHIVED" else "ACTIVE";
      };
    } in
    let thread = usable active.session.thread_id in
    if active.session.thread_id == thread
    then active
    else save o (record active { session = record (active.session) { thread_id = thread } })

-- the branches on the active turn
unfoldable pub dispatch : Outside → (stale : Bool) → (text : String) → State → Ended × State
unfolding recover_stale join_active start_new_turn
dispatch o stale text d =
    if not (is_text d.session.active_turn_id)
    then start_new_turn o false text d.session.thread_id d
    else if stale
    then recover_stale o text d.session.thread_id (or_text d.session.active_turn_id "") d
    else join_active o text d.session.thread_id (or_text d.session.active_turn_id "") d

-- _start_or_steer_turn; ensure_session_workspace and workspace_path_for_session both bind the session
unfoldable pub start_or_steer_turn :
    Outside
    → SessionRecord
    → (text : String) → (resumed_threads : List String) → Tables
    → Ended × State
unfolding is_stale_active_turn bind_session prepare dispatch
start_or_steer_turn o s text resumed_threads t =
    let once = bind_session (o.resolve none s) none s in
    let bound : State = record {
      session = bind_session (o.resolve none once) none once;
      tables = t;
      resumed_threads = resumed_threads;
      effects = [];
    } in
    if bound.session.status == "RECOVERING_TURN"
    then (raised, bound)
    else dispatch o (is_stale_active_turn o.parse o.now bound.session) text (prepare o bound)
