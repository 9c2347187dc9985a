-- ===== src/Lib.antt =====
-- Verification library of tele-cli, a service that runs a coding agent and serves its conversations
-- to one operator, over Telegram and over local channels.
--
-- The parts of the program that are modelled, and how they interact:
--
-- * The Telegram delivery queue (src/storage/telegram_queue.py; error texts of
--   src/integrations/telegram.py, chunks of src/storage/telegram_groups.py). The service enqueues
--   what it sends; one worker claims a row, calls Telegram and settles the row. It is modelled in
--   Queue: Types has the row of telegram_outbound_queue and the tables around it, Enqueue is enqueue,
--   Process is process_next, Stale the test of a row that is not wanted any more, Deliver _execute_row
--   and its fallbacks, Outcome and Outcome.Promote the branches that settle a row, Backoff the global
--   pause, ChunkKey the dedupe keys of chunks, Wait _wait_for_completion. process_next is one function
--   of a Store and of the record Outside, which has what comes from outside it.
-- * Pairing (src/integrations/telegram.py, src/setup/pairing.py, reset_auth of
--   src/runtime/control.py): who is authorized. Pairing has the operations on an AuthState,
--   Pairing.Complete the loop that asks for the code, Pairing.Trace the sequences of operations.
-- * The session store (src/runtime/session_store.py, bind_session of src/runtime/workspaces.py): which
--   conversation belongs to a topic or channel. Sessions.Types has the tables and the predicates, Rows
--   how a session is stabilized, saved and deleted, Telegram get_or_create and create_new for topics
--   and for channels, Local the queries and the pending output, Saving the write of all sessions at once. Its AuthState is the one of Pairing.
-- * The approval store (src/runtime/approval_store.py): the agent's questions that wait for an answer.
--   Approvals has every operation.
-- * The runs of the service (ServiceRunStore of src/storage/operations.py), in Runs. A run that starts
--   puts back the rows of the delivery queue that a dead run has claimed; the rows are those of Queue.
-- * The groups of messages (src/storage/telegram_groups.py), in Groups: the chunks that an answer is cut
--   into and the messages of Telegram that show them. Their rows are the chunks of Queue. Groups.Messages
--   has _sync_telegram_message_chunks of src/runtime/service.py, which edits and sends these messages.
-- * The start of the service and of the setup (src/runtime/control.py, src/setup/recovery.py,
--   src/core/locks.py, process_exists and the like of src/core/process.py, ask_choice of
--   src/core/prompts.py), in Control: what is done about a lock that is found. Control has the processes and the questions, Control.Service
--   and Control.Setup the two starts. A start gives how it ends and what it has written and killed by then.
-- * The JSON-RPC client of the agent's server (src/runtime/jsonrpc.py), in Rpc: the requests that wait and
--   the thread that reads lines, as a state and the events that the threads cause, in any order.
-- * Of src/runtime/service.py, which connects the parts: Splitting has split_telegram_text, which cuts an
--   answer into the messages of the queue; Merging what a text of the agent adds to an answer; Polling the
--   thread that polls Telegram for updates, and the delays behind failures.
-- * The workspaces (src/runtime/workspaces.py): which directory belongs to a conversation. Workspaces.Names has the
--   names of directories, Rows the table with its constraints, Paths _allocate_topic_relpath, Resolve the workspace of
--   the root, of a topic or channel and of a session.
-- * The dispatch of messages to the agent (AppServerSession and recover_inflight_sessions of
--   src/runtime/app_server_runtime.py, build_refresh_instructions of src/runtime/sleep.py, load_lesson_texts of
--   src/runtime/instructions.py), in Turns: Stale tells a turn that has died, Input what the agent is given,
--   Calls has the calls of the server, Dispatch starts or steers a turn, Sends has send, interrupt and the recovery of turns. The sessions are those of
--   Sessions; a call of the server is an entry of the list of effects.
-- * The agent's process, in Agent: States has what src/runtime/app_server_runtime.py concludes from the JSON values of
--   Json, Start the start of a session with the server, which ends with the recovery of Turns, and Supervise how
--   src/runtime/service.py starts it, finds it dead and starts it again, with the delays of Polling.
-- * Of src/runtime/service.py there are also Notifications, which session a notification of the agent belongs
--   to, and Thinking, what a session keeps of the agent's thinking.
-- * The store of handled updates (src/runtime/telegram_update_store.py), in Updates.
-- * Models has the records of src/core/models.py that these share; Prelude has lists, texts and
--   integers as Python's operations on them need them.
--
-- Conventions. A function of the model stands for the function of the source whose name it has, or
-- that the comment above it names. A table is a list of rows, a transaction a function from the tables
-- to the tables; an operation that ends in an exception gives a constructor or none, with the tables
-- that are committed by then. A time is a number, of microseconds where the code adds to it: the texts
-- that utc_now() gives are ordered as the times are. Numbers have no width, as in Python; a Telegram id may
-- be negative and is a ℤ. The loop of split_telegram_text runs on fuel, one more than the length of
-- its text, which is enough as each round takes off a character; so does the search for a free serial number of a
-- directory, with a round more than there are rows, each of which takes at most one number, and str() of an integer,
-- with a round more than the integer. The retry of a Telegram call is at most
-- once for each fallback, the loop that asks for a code recurs on the lines typed and the wait on the
-- rounds that its deadline leaves.
--
-- Parameters. What the code draws or reads from outside is an argument: the clock, uuid4 and randint,
-- the answers of Telegram, ast.literal_eval, the sizes of JSON texts, the lines typed, the workspace that
-- is resolved for a session where Sessions or Turns uses it, the answers of the agent's server, what
-- datetime.fromisoformat reads, the texts of the memory files, and the processes of the machine with their commands.
-- Theorems assume of them only what their comments say: that a time is not before another one, that
-- getUpdates gives what the Bot API documents for an offset, that a message is sent or edited.
--
-- Not modelled: the handling of updates and of the agent's notifications in src/runtime/service.py, which
-- connects these parts, the files and git of workspaces, the sleep cycle and the files of the memory,
-- performance tracing, the HTML of messages, logs and their maintenance, the rest of the setup and
-- host service management, the shells and demos. Outside Rpc threads are left out: every operation on the
-- database runs in a transaction or under the store's lock, and the theorems speak of sequences of
-- operations.
pub mod Prelude
pub mod Models
pub mod Queue
pub mod Pairing
pub mod Sessions
pub mod Approvals
pub mod Updates
pub mod Runs
pub mod Groups
pub mod Control
pub mod Rpc
pub mod Splitting
pub mod Merging
pub mod Polling
pub mod Workspaces
pub mod Turns
pub mod Agent
pub mod Notifications
pub mod Thinking
