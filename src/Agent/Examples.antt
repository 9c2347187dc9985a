-- ===== src/Agent/Examples.antt =====
-- A server whose login fails, and a process that dies behind a start which worked.
use tele_cli.Prelude.{◌≡◌, refl, pos, ℕ, String, true, false, none, some, Option, List, [], ◌∷◌}
use tele_cli.Models.{AuthState, SessionRecord}
use tele_cli.Sessions.Types.{Workspace, order_rows}
use tele_cli.Pairing.{is_auth_paired}
use tele_cli.Agent.Json.{boolean, text, end, field}
use tele_cli.Agent.Start.{Peer, Store, ok, error, start_app_server_session}
use tele_cli.Agent.Start.Started.{IsEnded, start_app_server_session-IsEnded}
use tele_cli.Agent.Supervise.{Round, alive, begin_supervision, maintain_rounds}

abbrev operator : AuthState
operator = record {
  bot_token = "token";
  telegram_user_id = some (pos 7);
  telegram_chat_id = some (pos 7);
  telegram_topic_id = none;
  paired_at = some "noon";
  pairing_code = none;
  pending_user_id = none;
  pending_chat_id = none;
  pending_topic_id = none;
  pending_issued_at = none;
}

abbrev root : Option String → SessionRecord → Workspace
root visible s = record {
  workspace_id = "w";
  workspace_kind = "root";
  relpath = "workspace";
  agents_md_relpath = "workspace/AGENTS.md";
  long_memory_relpath = none;
  visible_name = none;
}

abbrev clock : String → Option ℕ
clock value = none

abbrev peer : Peer
peer = record {
  transport_name = "stdio://";
  opened = none;
  rpc_started = none;
  initialize = ok (field "userAgent" (text "codex/1") end);
  initialized = none;
  account = ok (field "requiresOpenaiAuth" (boolean true) end);
  login = error "no browser";
  rpc_closed = none;
  utc_now = "1";
  now = 5;
  parse = clock;
  resolve = root;
}

abbrev broken : Peer
broken = record peer { account = error "gone" }

abbrev store : Store
store = record {
  live = record {
    session_id = "s";
    service_state = "RUNNING";
    codex_state = "STOPPED";
    telegram_state = "RUNNING";
    recorder_state = "STOPPED";
    debug_state = "STOPPED";
    codex_pid = none;
    started_at = "1";
    last_output_at = none;
  };
  saved = none;
  server_state = none;
  tables = record {
    sessions = [];
    short_memory = [];
    events = [];
    approvals = [];
    traces = [];
    message_groups = [];
    outbound_queue = [];
  };
  needs_close = false;
}

-- the first start works; the process is dead at 20, and the start at 25 fails
abbrev at : ℕ → Peer → Round
at now p = record { now = now; probe = alive false; auth = operator; peer = p }

abbrev rounds : List Round
rounds = at 20 peer ∷ at 25 broken ∷ at 27 peer ∷ at 40 peer ∷ []

start_app_server_session-IsEnded_example : IsEnded peer (start_app_server_session peer store)
start_app_server_session-IsEnded_example = start_app_server_session-IsEnded peer store refl

-- the test of the times
started_at_test :
    (maintain_rounds
      (pos 5)
      (pos 60)
      rounds
      (begin_supervision (pos 5) (pos 60) 11 (at 10 peer) store)).started_at
    ≡ 40 ∷ 25 ∷ 10 ∷ []
unfolding maintain_rounds begin_supervision is_auth_paired order_rows
started_at_test = refl
