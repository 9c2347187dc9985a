-- ===== src/Turns/Examples.antt =====
-- A session with a turn that has not been heard of for long, and a message that comes then.
use tele_cli.Prelude.{
  ◌≡◌, refl, pos, ℕ, String, true, ◌&&◌, ◌||◌, not, none, some, Option, [], ◌∷◌, is_text, or_text,
  ◌==◌, string_eq, All, if◌then◌else◌,
}
use tele_cli.Models.{SessionRecord, new_session}
use tele_cli.Sessions.Types.{Tables, Workspace}
use tele_cli.Turns.Stale.{is_stale_active_turn}
use tele_cli.Turns.Calls.{Outside, usable}
use tele_cli.Turns.Dispatch.{start_or_steer_turn}
use tele_cli.Turns.Dispatch.Handed.{is_some, Handed}
use tele_cli.Turns.Dispatch.Once.{start_or_steer_turn-Handed}
use tele_cli.Turns.Sends.{recover_inflight_sessions}
use tele_cli.Turns.Recovery.{IsSettled, recover_inflight_sessions-IsSettled}

abbrev root : Option String → SessionRecord → Workspace
root visible s = record {
  workspace_id = "w";
  workspace_kind = "root";
  relpath = "workspace";
  agents_md_relpath = "workspace/AGENTS.md";
  long_memory_relpath = none;
  visible_name = none;
}

-- timestamps of the example, in seconds
abbrev clock : String → Option ℕ
clock value = if value == "1" then some 1 else none

abbrev busy_session : SessionRecord
busy_session = record (new_session "a" "telegram" (some (pos 7)) (some (pos 7)) "1") {
  thread_id = some "thread";
  active_turn_id = some "turn";
  status = "RUNNING_TURN";
  last_user_message_at = some "1";
}

abbrev tables : Tables
tables = record {
  sessions =
      busy_session ∷ record busy_session { session_id = "b"; status = "RECOVERING_TURN" } ∷ [];
  short_memory = [];
  events = [];
  approvals = [];
  traces = [];
  message_groups = [];
  outbound_queue = [];
}

abbrev world : Outside
world = record {
  resolve = root;
  utc_now = "2";
  now = 40000000;
  parse = clock;
  steer_deadline = 40000001;
  has_performance = true;
  memory = record {
    generation = 0;
    lessons = [];
    rules = "";
    personality = "";
    long_memory = "";
    session_instructions = "Be brief.";
  };
  server = record {
    interrupts = true;
    attempts = [];
    resumed_thread = some none;
    first_thread = none;
    second_thread = none;
    started_turn = some (some "next");
  };
}

start_or_steer_turn-Handed_example :
    let busy = is_text busy_session.active_turn_id in
    let stale = is_stale_active_turn clock 40000000 busy_session in
    let threaded = is_some (usable busy_session.thread_id) in
    Handed world "hello"
      (if busy && stale then or_text busy_session.active_turn_id "" ∷ [] else [])
      (busy && (stale || not threaded))
      (busy && (not stale && threaded))
      (start_or_steer_turn world busy_session "hello" [] tables)
unfolding new_session
start_or_steer_turn-Handed_example =
    start_or_steer_turn-Handed world busy_session "hello" [] tables refl

recover_inflight_sessions-IsSettled_example :
    (after : Tables) × (recover_inflight_sessions clock 40000000 root "2" tables ≡ some after)
    × All (IsSettled clock 40000000) after.sessions
recover_inflight_sessions-IsSettled_example =
    recover_inflight_sessions-IsSettled clock 40000000 root "2" tables
