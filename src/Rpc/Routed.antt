-- ===== src/Rpc/Routed.antt =====
-- Every request is numbered once and is given only its own responses: src/runtime/jsonrpc.py.
use tele_cli.Prelude.{
  ℕ, suc, ◌≡◌, ◌<◌, refl, inl, inr, pos, negsuc, String, Bool, true, false, not, ◌&&◌, Option, none,
  some, List, [], ◌∷◌, ◌==◌, nat_eq, find, All-append, All-filter, All-mono, arith, Bool-cases,
}
use tele_cli.Rpc.{
  IdField, absent, null, number, unreadable, Payload, Line, object, no_object, Phase, writing,
  waiting, received, expired, abandoned, Slot, Reader, reading, blocked, stuck, ended, Client,
  new_client, has_id, begin_request, written_phase, write_request, received_slot, get_response,
  expired_slot, expire, is_over, is_full, left_reader, pop_found, drop, offer, accept_response,
  accept_call, accept, read_line, resume, Event, begun, wrote, read, resumed, got, timed_out,
  dropped, apply, run,
}
use tele_cli.Rpc.Own.{
  IsResponse, OwnQueue, OwnPhase, OwnSlot, OwnPut, IsRouted, change-IsRouted, filter-Unique,
  append-Unique, find-OwnSlot,
}

OwnPut-suc : (n : ℕ) (reader : Reader) → OwnPut n reader → OwnPut (suc n) reader
OwnPut-suc n (blocked i p) o = (omega arith, o.1)
OwnPut-suc n reading o = tt
OwnPut-suc n stuck o = tt
OwnPut-suc n ended o = tt

begin_request-IsRouted :
    (method params : String) (c : Client) → IsRouted c → IsRouted (begin_request method params c)
unfolding IsRouted begin_request
begin_request-IsRouted method params c r = (
  All-append (OwnSlot (suc c.next_id)) c.pending _
      (All-mono (OwnSlot c.next_id) (OwnSlot (suc c.next_id)) c.pending
        (λ s o. (omega arith, o.1, o.2)) r.0)
      ((omega arith, tt, tt), tt),
  append-Unique _ c.pending
      (All-mono (OwnSlot c.next_id) (λ s. s.id < c.next_id) c.pending (λ s o. o.0) r.0) r.1,
  OwnPut-suc c.next_id c.reader r.2,
)

written-OwnPhase :
    (i : ℕ) (ok : Bool) (phase : Phase) → OwnPhase i phase → OwnPhase i (written_phase ok phase)
written-OwnPhase i true writing o = tt
written-OwnPhase i false writing o = tt
written-OwnPhase i true waiting o = o
written-OwnPhase i false waiting o = o
written-OwnPhase i true (received p) o = o
written-OwnPhase i false (received p) o = o
written-OwnPhase i true expired o = o
written-OwnPhase i false expired o = o
written-OwnPhase i true abandoned o = o
written-OwnPhase i false abandoned o = o

write_request-IsRouted :
    (j : ℕ) (ok : Bool) (c : Client) → IsRouted c → IsRouted (write_request j ok c)
unfolding write_request IsRouted
write_request-IsRouted j true c r =
    change-IsRouted j (λ s. record s { phase = written_phase true s.phase }) (λ s. refl) c
      (λ s e o. (o.0, o.1, written-OwnPhase s.id true s.phase o.2)) r
write_request-IsRouted j false c r =
    change-IsRouted j (λ s. record s { phase = written_phase false s.phase }) (λ s. refl) c
      (λ s e o. (o.0, o.1, written-OwnPhase s.id false s.phase o.2)) r

received-OwnSlot :
    (n : ℕ) (phase : Phase) (queue : Option Payload) (s : Slot)
    → OwnQueue s.id queue
    → OwnSlot n s
    → ((received_slot phase queue s).id ≡ s.id) × OwnSlot n (received_slot phase queue s)
unfolding received_slot
received-OwnSlot n waiting (some p) s q o = (refl, (o.0, tt, q))
received-OwnSlot n waiting none s q o = (refl, o)
received-OwnSlot n writing queue s q o = (refl, o)
received-OwnSlot n (received p) queue s q o = (refl, o)
received-OwnSlot n expired queue s q o = (refl, o)
received-OwnSlot n abandoned queue s q o = (refl, o)

received_slot-id :
    (phase : Phase) (queue : Option Payload) (s : Slot) → (received_slot phase queue s).id ≡ s.id
unfolding received_slot
received_slot-id waiting (some p) s = refl
received_slot-id waiting none s = refl
received_slot-id writing queue s = refl
received_slot-id (received p) queue s = refl
received_slot-id expired queue s = refl
received_slot-id abandoned queue s = refl

expired-OwnSlot :
    (n : ℕ) (phase : Phase) (queue : Option Payload) (s : Slot)
    → OwnSlot n s
    → OwnSlot n (expired_slot phase queue s)
unfolding expired_slot
expired-OwnSlot n waiting none s o = (o.0, o.1, tt)
expired-OwnSlot n waiting (some p) s o = o
expired-OwnSlot n writing queue s o = o
expired-OwnSlot n (received p) queue s o = o
expired-OwnSlot n expired queue s o = o
expired-OwnSlot n abandoned queue s o = o

expired_slot-id :
    (phase : Phase) (queue : Option Payload) (s : Slot) → (expired_slot phase queue s).id ≡ s.id
unfolding expired_slot
expired_slot-id waiting none s = refl
expired_slot-id waiting (some p) s = refl
expired_slot-id writing queue s = refl
expired_slot-id (received p) queue s = refl
expired_slot-id expired queue s = refl
expired_slot-id abandoned queue s = refl

left_reader-OwnPut :
    (n i : ℕ) (reader : Reader) (s : Slot) → OwnPut n reader → OwnPut n (left_reader i reader s)
unfolding left_reader
left_reader-OwnPut n i (blocked j p) s o = elim (Bool-cases (j == i && is_full s.queue)) [
  | inl e ↦ rw e tt
  | inr e ↦ rw e o
]
left_reader-OwnPut n i reading s o = o
left_reader-OwnPut n i stuck s o = o
left_reader-OwnPut n i ended s o = o

drop-IsRouted :
    (i : ℕ) (c : Client) (found : Option Slot) → IsRouted c → IsRouted (pop_found found i c)
unfolding IsRouted
drop-IsRouted i c none r = r
drop-IsRouted i c (some s) r = elim (Bool-cases (is_over s.phase)) [
  | inl e ↦ rw e (
    All-filter (OwnSlot c.next_id) (λ t. not (has_id i t)) c.pending r.0,
    filter-Unique (λ t. not (has_id i t)) c.pending r.1,
    left_reader-OwnPut c.next_id i c.reader s r.2,
  )
  | inr e ↦ rw e r
]

offer-IsRouted :
    (i : ℕ) (p : Payload) (c : Client) (found : Option Slot)
    → find (has_id i) c.pending ≡ found
    → IsResponse i p
    → IsRouted c
    → IsRouted (offer found i p c)
unfolding IsRouted
offer-IsRouted i p c none e h r = (r.0, r.1, tt)
offer-IsRouted i p c (some s) e h r = elim (Bool-cases (is_full s.queue)) [
  | inl q ↦ rw q (r.0, r.1, (find-OwnSlot c.next_id i c.pending s r.0 e, h))
  | inr q ↦
      let put =
        change-IsRouted i (λ t. record t { queue = some p }) (λ t. refl) c
          (λ t z o. (o.0, (rw z h), o.2)) r in
      rw q (put.0, put.1, tt)
]

accept_response-IsRouted :
    (id : IdField) (p : Payload) (c : Client)
    → p.id ≡ id
    → c.reader ≡ reading
    → IsRouted c
    → IsRouted (accept_response id p c)
unfolding accept_response IsRouted
accept_response-IsRouted (number (pos i)) p c e z r =
    offer-IsRouted i p c (find (has_id i) c.pending) refl e r
accept_response-IsRouted (number (negsuc i)) p c e z r = r
accept_response-IsRouted absent p c e z r = r
accept_response-IsRouted null p c e z r = r
accept_response-IsRouted unreadable p c e z r = (r.0, r.1, tt)

accept_call-IsRouted :
    (id : IdField) (method : String) (params : Option String) (c : Client)
    → IsRouted c
    → IsRouted (accept_call id method params c)
unfolding accept_call IsRouted
accept_call-IsRouted absent method params c r = r
accept_call-IsRouted (number i) method params c r = r
accept_call-IsRouted null method params c r = (r.0, r.1, tt)
accept_call-IsRouted unreadable method params c r = (r.0, r.1, tt)

accept-IsRouted :
    (method : Option String) (p : Payload) (c : Client)
    → c.reader ≡ reading
    → IsRouted c
    → IsRouted (accept method p c)
accept-IsRouted none p c z r = accept_response-IsRouted p.id p c refl z r
accept-IsRouted (some method) p c z r = accept_call-IsRouted p.id method p.params c r

read_line-IsRouted :
    (reader : Reader) (line : Line) (c : Client)
    → c.reader ≡ reader
    → IsRouted c
    → IsRouted (read_line reader line c)
unfolding read_line IsRouted
read_line-IsRouted reading (object p) c z r = accept-IsRouted p.method p c z r
read_line-IsRouted reading no_object c z r = (r.0, r.1, tt)
read_line-IsRouted (blocked i p) line c z r = r
read_line-IsRouted stuck line c z r = r
read_line-IsRouted ended line c z r = r

resume-IsRouted :
    (reader : Reader) (c : Client)
    → OwnPut c.next_id reader
    → IsRouted c
    → IsRouted (resume reader c)
unfolding resume
resume-IsRouted (blocked i p) c o r = offer-IsRouted i p c (find (has_id i) c.pending) refl o.1 r
resume-IsRouted reading c o r = r
resume-IsRouted stuck c o r = r
resume-IsRouted ended c o r = r

apply-IsRouted : (event : Event) (c : Client) → IsRouted c → IsRouted (apply event c)
unfolding apply get_response expire drop IsRouted
apply-IsRouted (begun method params) c r = begin_request-IsRouted method params c r
apply-IsRouted (wrote i ok) c r = write_request-IsRouted i ok c r
apply-IsRouted (read line) c r = read_line-IsRouted c.reader line c refl r
apply-IsRouted resumed c r = resume-IsRouted c.reader c r.2 r
apply-IsRouted (got i) c r =
    change-IsRouted i (λ s. received_slot s.phase s.queue s)
      (λ s. received_slot-id s.phase s.queue s) c
      (λ s e o. (received-OwnSlot c.next_id s.phase s.queue s o.1 o).1) r
apply-IsRouted (timed_out i) c r =
    change-IsRouted i (λ s. expired_slot s.phase s.queue s) (λ s. expired_slot-id s.phase s.queue s)
      c (λ s e o. expired-OwnSlot c.next_id s.phase s.queue s o) r
apply-IsRouted (dropped i) c r = drop-IsRouted i c (find (has_id i) c.pending) r

run_each-IsRouted : (es : List Event) (c : Client) → IsRouted c → IsRouted (run es c)
unfolding run
run_each-IsRouted [] c r = r
run_each-IsRouted (event ∷ es) c r = run_each-IsRouted es (apply event c) (apply-IsRouted event c r)

-- Whatever requests are begun and lines are read, in whatever order the threads run: the numbers of the
-- pending requests are distinct and have been given out, and every response that a request has taken, has in its queue
-- or is about to get has the request's number.
pub run-IsRouted : (es : List Event) → IsRouted (run es new_client)
unfolding IsRouted new_client
run-IsRouted es = run_each-IsRouted es new_client (tt, tt, tt)
