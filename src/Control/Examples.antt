-- ===== src/Control/Examples.antt =====
-- Starts beside a running instance, behind one that has left its Codex, and behind a setup that did not finish.
use tele_cli.Prelude.{
  ℕ, ◌≡◌, refl, String, true, false, Option, none, some, [], ◌∷◌, path_name, contains_text, strip,
  lower_is, ◌==◌, nat_eq, if◌then◌else◌, All,
}
use tele_cli.Models.{LockMetadata, SetupState}
use tele_cli.Control.{Machine, System, is_live, is_same_app, choose, safe_kill, is_owned_codex}
use tele_cli.Control.Service.{
  Choices, classify_service_conflict, resolve_live, resolve_stale, handle_service_conflict,
  prepare_service_lock,
}
use tele_cli.Control.Setup.{SetupChoices, initialize_setup}
use tele_cli.Control.Kills.{AllowedFor, prepare_service_lock-Allowed}
use tele_cli.Control.Unattended.{Unattended, handle_service_conflict-Unattended}
use tele_cli.Control.Setup.Started.{Finished, initialize_setup-Finished}

abbrev found_lock : LockMetadata
found_lock = record {
  pid = 10;
  hostname = "h";
  username = "u";
  started_at = none;
  mode = "service";
  timestamp = "t";
  app_version = "1";
  child_codex_pid = some 11;
  command = "/usr/bin/python3" ∷ "/opt/tele-cli/cli.py" ∷ [];
  cwd = some "/home/u/.tele-cli";
}

abbrev own_lock : LockMetadata
own_lock = record found_lock { pid = 20; child_codex_pid = none }

abbrev command_of : ℕ → Option String
command_of pid =
    if pid == 10
    then some "python3 /opt/tele-cli/cli.py run"
    else if pid == 11
    then some "codex --cd /home/u/.tele-cli"
    else none

-- both processes live, at a terminal
abbrev running : Machine
running = record {
  responds = λ pid. true;
  read_process_command = command_of;
  terminates = λ pid. true;
  isatty = true;
}

-- only the Codex is left, and there is no terminal
abbrev orphaned : Machine
orphaned = record running { responds = λ pid. pid == 11; isatty = false }

abbrev unfinished : SetupState
unfinished = record {
  status = "failed";
  pid = 9;
  timestamp = "t";
  npm_installed = true;
  codex_installed = true;
  telegram_token_saved = false;
  telegram_validated = false;
}

abbrev system : System
system = record {
  lock = some found_lock;
  setup = some unfinished;
  signals = [];
  log = [];
  typed = "what?" ∷ " KILL " ∷ [];
}

abbrev no_choices : Choices
no_choices = record { conflict_choice = none; orphan_choice = none }

killed_both : (prepare_service_lock running own_lock no_choices system).1.signals ≡ 11 ∷ 10 ∷ []
unfolding prepare_service_lock classify_service_conflict is_live is_same_app path_name contains_text
    resolve_live choose strip lower_is safe_kill is_owned_codex
killed_both = refl

killed_orphan : (handle_service_conflict orphaned no_choices system).1.signals ≡ 11 ∷ []
unfolding handle_service_conflict classify_service_conflict is_live resolve_stale is_owned_codex
    contains_text safe_kill
killed_orphan = refl

prepare_service_lock-Allowed_example :
    All
      (AllowedFor running system.lock)
      (prepare_service_lock running own_lock no_choices system).1.signals
prepare_service_lock-Allowed_example =
    prepare_service_lock-Allowed running own_lock no_choices system refl

handle_service_conflict-Unattended_example :
    Unattended orphaned system system.lock (handle_service_conflict orphaned no_choices system)
handle_service_conflict-Unattended_example =
    handle_service_conflict-Unattended orphaned no_choices system refl

abbrev kill_and_resume : SetupChoices
kill_and_resume = record { app_lock_choice = some "kill"; setup_choice = none }

initialize_setup-Finished_example :
    Finished running system.lock system.setup "now" own_lock
      (initialize_setup running "now" own_lock kill_and_resume system)
initialize_setup-Finished_example =
    initialize_setup-Finished running "now" own_lock kill_and_resume system refl
