-- ===== src/Rpc.antt =====
-- src/runtime/jsonrpc.py: JsonRpcClient, the requests that wait for the agent's server and the thread that reads
-- its lines, as a state and the events that change it. An event that cannot happen in a state leaves it alone.
pub mod Responses
pub mod Puts
pub mod Own
pub mod Answers
pub mod Routed
mod Examples
use tele_cli.Prelude.{
  ℕ, zero, suc, ◌+◌, ℤ, pos, negsuc, String, Bool, true, false, not, ◌&&◌, Option, none, some, List,
  [], ◌∷◌, ◌++◌, ◌==◌, nat_eq, find, filter, map, if◌then◌else◌,
}

-- payload["id"]: no key, null, a value that int() reads, or another one
pub data IdField : Type 0 where
  absent : IdField
  null : IdField
  number : ℤ → IdField
  unreadable : IdField

-- a JSON object, its values as JSON texts
pub record Payload : Type 0 where
  pub id : IdField
  pub method : Option String
  pub params : Option String
  pub result : Option String
  pub error : Option String

-- a line: a JSON object, or a text that json.loads refuses or that is no object
pub data Line : Type 0 where
  object : Payload → Line
  no_object : Line

-- how far request() is: behind _pending[id] = …, in response_queue.get, behind its return or its exception,
-- or gone with an exception of write_line, which no finally follows
pub data Phase : Type 0 where
  writing : Phase
  waiting : Phase
  received : Payload → Phase
  expired : Phase
  abandoned : Phase

-- an entry of _pending, with its queue of one place
pub record Slot : Type 0 where
  pub id : ℕ
  pub method : String
  pub params : String
  pub queue : Option Payload
  pub phase : Phase

-- The thread of _reader_loop: at read_line, in response_queue.put on the full queue of a request, in
-- such a put on a queue that nobody reads any more, or ended by an exception.
pub data Reader : Type 0 where
  reading : Reader
  blocked : ℕ → Payload → Reader
  stuck : Reader
  ended : Reader

pub record Incoming : Type 0 where
  pub id : Option ℤ
  pub method : String
  pub params : Option String

-- the client: `notifications` and `requests` are its queues, `written` the requests on the transport
pub record Client : Type 0 where
  pub next_id : ℕ
  pub pending : List Slot
  pub reader : Reader
  pub notifications : List Incoming
  pub requests : List Incoming
  pub written : List Slot

-- JsonRpcClient(transport), started
unfoldable pub new_client : Client
new_client = record {
  next_id = 1;
  pending = [];
  reader = reading;
  notifications = [];
  requests = [];
  written = [];
}

abbrev pub has_id : ℕ → Slot → Bool
has_id i slot = slot.id == i

unfoldable pub change : ℕ → (Slot → Slot) → Client → Client
change i f c = record c { pending = map (λ slot. if has_id i slot then f slot else slot) c.pending }

-- request() up to self._pending[request_id] = response_queue, the id being allocated at once
unfoldable pub begin_request : String → String → Client → Client
begin_request method params c = record c {
  next_id = suc c.next_id;
  pending =
      c.pending
      ++ record { id = c.next_id; method = method; params = params; queue = none; phase = writing }
        ∷ [];
}

-- the phase behind write_line
abbrev pub written_phase : Bool → Phase → Phase
written_phase true writing = waiting
written_phase false writing = abandoned
written_phase ok phase = phase

-- write_line of a request, which may raise
unfoldable pub write_request : ℕ → Bool → Client → Client
unfolding change
write_request i ok c =
    let after = change i (λ slot. record slot { phase = written_phase ok slot.phase }) c in
    if ok then record after { written = c.written ++ filter (has_id i) c.pending } else after

-- response_queue.get, by the phase and the queue
unfoldable pub received_slot : Phase → Option Payload → Slot → Slot
received_slot waiting (some p) slot = record slot { queue = none; phase = received p }
received_slot phase queue slot = slot

unfoldable pub get_response : ℕ → Client → Client
unfolding change received_slot
get_response i c = change i (λ slot. received_slot slot.phase slot.queue slot) c

-- queue.Empty out of response_queue.get, by the phase and the queue
unfoldable pub expired_slot : Phase → Option Payload → Slot → Slot
expired_slot waiting none slot = record slot { phase = expired }
expired_slot phase queue slot = slot

unfoldable pub expire : ℕ → Client → Client
unfolding change expired_slot
expire i c = change i (λ slot. expired_slot slot.phase slot.queue slot) c

-- the finally of request() runs
abbrev pub is_over : Phase → Bool
is_over writing = false
is_over waiting = false
is_over (received p) = true
is_over expired = true
is_over abandoned = false

abbrev pub is_full : Option Payload → Bool
is_full none = false
is_full (some p) = true

-- the reader where the slot of a request is taken away: its put ends never if the queue is full
unfoldable pub left_reader : ℕ → Reader → Slot → Reader
left_reader i (blocked j p) slot = if j == i && is_full slot.queue then stuck else blocked j p
left_reader i reader slot = reader

-- self._pending.pop(request_id, None), by the slot of the id
abbrev pub pop_found : Option Slot → ℕ → Client → Client
pop_found none i c = c
pop_found (some slot) i c =
    if is_over slot.phase
    then record c {
      pending = filter (λ s. not (has_id i s)) c.pending;
      reader = left_reader i c.reader slot;
    }
    else c

unfoldable pub drop : ℕ → Client → Client
unfolding left_reader
drop i c = pop_found (find (has_id i) c.pending) i c

-- response_queue.put(payload) on the queue of a slot
abbrev pub offer : Option Slot → ℕ → Payload → Client → Client
offer none i p c = record c { reader = reading }
offer (some slot) i p c =
    if is_full slot.queue
    then record c { reader = blocked i p }
    else record (change i (λ s. record s { queue = some p }) c) { reader = reading }

-- what the reader does with a response, by its id
unfoldable pub accept_response : IdField → Payload → Client → Client
unfolding change
accept_response absent p c = c
accept_response null p c = c
accept_response (number (pos i)) p c = offer (find (has_id i) c.pending) i p c
accept_response (number (negsuc i)) p c = c
accept_response unreadable p c = record c { reader = ended }

-- what it does with a request or a notification
unfoldable pub accept_call : IdField → String → Option String → Client → Client
accept_call absent method params c = record c {
  notifications = c.notifications ++ record { id = none; method = method; params = params } ∷ [];
}
accept_call (number i) method params c = record c {
  requests = c.requests ++ record { id = some i; method = method; params = params } ∷ [];
}
accept_call null method params c = record c { reader = ended }
accept_call unreadable method params c = record c { reader = ended }

abbrev pub accept : Option String → Payload → Client → Client
accept none p c = accept_response p.id p c
accept (some method) p c = accept_call p.id method p.params c

-- one round of _reader_loop on a line
unfoldable pub read_line : Reader → Line → Client → Client
unfolding accept_response accept_call
read_line reading no_object c = record c { reader = ended }
read_line reading (object p) c = accept p.method p c
read_line reader line c = c

-- the put of a reader that is blocked goes on
unfoldable pub resume : Reader → Client → Client
unfolding change
resume (blocked i p) c = offer (find (has_id i) c.pending) i p c
resume reader c = c

pub data Event : Type 0 where
  begun : (method params : String) → Event
  wrote : ℕ → Bool → Event
  read : Line → Event
  resumed : Event
  got : ℕ → Event
  timed_out : ℕ → Event
  dropped : ℕ → Event

unfoldable pub apply : Event → Client → Client
unfolding begin_request write_request read_line resume get_response expire drop
apply (begun method params) c = begin_request method params c
apply (wrote i ok) c = write_request i ok c
apply (read line) c = read_line c.reader line c
apply resumed c = resume c.reader c
apply (got i) c = get_response i c
apply (timed_out i) c = expire i c
apply (dropped i) c = drop i c

unfoldable pub run : List Event → Client → Client
unfolding apply
run [] c = c
run (e ∷ es) c = run es (apply e c)

-- how request() ends behind response_queue.get
pub data Reply : Type 0 where
  result_is : String → Reply
  json_rpc_error : String → Reply

unfoldable pub reply : Payload → Reply
reply p = elim p.error [
  | some e ↦ json_rpc_error e
  | none ↦ elim p.result [ some r ↦ result_is r | none ↦ result_is "{}" ]
]
