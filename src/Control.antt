-- ===== src/Control.antt =====
-- What a start of the service or of the setup does about a lock that it finds: src/runtime/control.py,
-- src/setup/recovery.py, src/core/locks.py, and of src/core/process.py and src/core/prompts.py what they use.
pub mod Service
pub mod Kills
pub mod Locks
pub mod Unattended
pub mod Setup
mod Examples
pub mod Steps
use tele_cli.Prelude.{
  ℕ, String, Bool, true, false, not, ◌&&◌, ◌||◌, Option, none, some, List, [], ◌∷◌, ◌==◌, string_eq,
  nat_eq, any, map, filter, if◌then◌else◌, strip, is_text, contains_text, lower_is, path_name, find,
}
use tele_cli.Models.{LockMetadata, SetupState}

-- What is asked of the operating system. read_process_command reads /proc or runs ps; `terminates` tells
-- whether os.kill(pid, SIGTERM) raises nothing.
pub record Machine : Type 0 where
  pub responds : ℕ → Bool
  pub read_process_command : ℕ → Option String
  pub terminates : ℕ → Bool
  pub isatty : Bool

-- an entry of the recovery log: what was decided about, the decision, and the pid that is named
pub record Entry : Type 0 where
  pub what : String
  pub choice : String
  pub pid : Option ℕ

-- The files and the effects: the app lock, the setup lock, the processes that were sent a SIGTERM and the
-- recovery log, both latest first, and the lines that will be typed.
pub record System : Type 0 where
  pub lock : Option LockMetadata
  pub setup : Option SetupState
  pub signals : List ℕ
  pub log : List Entry
  pub typed : List String

-- how a step ends: it returns, or with SystemExit(1), or with another exception
pub data Ended : Type 0 where
  returned : Ended
  exited : Ended
  failed : Ended

-- the statements behind one that may raise
abbrev pub and_then : Ended × System → (System → Ended × System) → Ended × System
and_then (returned, s) next = next s
and_then (exited, s) next = (exited, s)
and_then (failed, s) next = (failed, s)

abbrev pub done : System → Ended × System
done s = (returned, s)

-- log_recovery_event
abbrev pub log_recovery_event : String → String → Option ℕ → System → System
log_recovery_event what choice pid s = record s {
  log = record { what = what; choice = choice; pid = pid } ∷ s.log;
}

-- os.kill(pid, 0) for a positive pid
unfoldable pub process_exists : Machine → ℕ → Bool
process_exists m pid = if pid == 0 then false else m.responds pid

-- safe_kill
unfoldable pub safe_kill : Machine → ℕ → System → Ended × System
safe_kill m pid s =
    if m.terminates pid then (returned, record s { signals = pid ∷ s.signals }) else (failed, s)

-- any(marker and marker in command for marker in own_markers)
unfoldable pub has_marker : List String → String → Bool
has_marker args command =
    any (λ marker. not (marker == "") && contains_text command marker)
      (map path_name (filter (λ arg. not (arg == "")) args))

-- is_same_app_process, by the command that is read
unfoldable pub names_app : List String → Option String → Bool
unfolding has_marker
names_app args none = false
names_app args (some command) = if command == "" then false else has_marker args command

unfoldable pub is_same_app_process : Machine → LockMetadata → Bool
unfolding names_app
is_same_app_process m metadata = names_app metadata.command (m.read_process_command metadata.pid)

-- cwd and cwd not in command
abbrev pub is_elsewhere : Option String → String → Bool
is_elsewhere none command = false
is_elsewhere (some cwd) command = not (cwd == "") && not (contains_text command cwd)

-- is_owned_codex, by the command that is read
unfoldable pub names_codex : Option String → Option String → Bool
names_codex cwd none = false
names_codex cwd (some command) =
    if command == "" || not (contains_text command "codex")
    then false
    else not (is_elsewhere cwd command)

unfoldable pub is_owned_codex : Machine → ℕ → Option String → Bool
unfolding names_codex
is_owned_codex m pid cwd = names_codex cwd (m.read_process_command pid)

-- LockInspection of LockFile.inspect, where there is a lock
unfoldable pub is_live : Machine → LockMetadata → Bool
unfolding process_exists
is_live m metadata = process_exists m metadata.pid

unfoldable pub is_same_app : Machine → LockMetadata → Bool
unfolding is_live is_same_app_process
is_same_app m metadata = is_live m metadata && is_same_app_process m metadata

-- raw in choice_set
unfoldable pub choice_of : String → List String → Option String
choice_of raw choices = find (λ choice. lower_is raw choice) choices

-- one round of the loop of ask_choice: `rest` are the later ones
abbrev pub answer_or :
    Option String → List String → Option (String × List String) → Option (String × List String)
answer_or none lines rest = rest
answer_or (some choice) lines rest = some (choice, lines)

-- the loop of ask_choice on the lines typed; behind the last line input() raises EOFError
unfoldable pub ask_again : List String → String → List String → Option (String × List String)
unfolding choice_of
ask_again choices default [] = none
ask_again choices default (line ∷ lines) =
    let rest = ask_again choices default lines in
    if strip line == ""
    then some (default, lines)
    else answer_or (choice_of (strip line) choices) lines rest

-- ask_choice, with a default that is no empty text
unfoldable pub ask_choice :
    Machine → List String → String → List String → Option (String × List String)
unfolding ask_again
ask_choice m choices default typed =
    if m.isatty then ask_again choices default typed else some (default, typed)

-- what is done with an answer, and the exception of input() where there is none
abbrev pub with_answer :
    Option (String × List String) → System → (String → System → Ended × System) → Ended × System
with_answer none s next = (failed, record s { typed = [] })
with_answer (some answer) s next = next answer.0 (record s { typed = answer.1 })

-- selected or ask_choice(…)
unfoldable pub choose :
    Machine
    → Option String
    → List String
    → String
    → System
    → (String → System → Ended × System)
    → Ended × System
unfolding ask_choice
choose m none choices default s next = with_answer (ask_choice m choices default s.typed) s next
choose m (some selected) choices default s next =
    if selected == ""
    then with_answer (ask_choice m choices default s.typed) s next
    else next selected s
