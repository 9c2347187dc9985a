-- ===== src/Rpc/Answers.antt =====
-- A response reaches its request: src/runtime/jsonrpc.py.
use tele_cli.Prelude.{
  ℕ, ◌≡◌, refl, sym, ◌∙◌, ap, subst, String, Bool, true, false, Option, none, some, List, [], ◌∷◌,
  ◌++◌, nat_eq, find, ◌<◌, All-mono, All, arith,
}
use tele_cli.Rpc.{
  Payload, Line, object, no_object, writing, Slot, Reader, reading, blocked, stuck, ended, Client,
  has_id, new_client, begin_request, written_phase, write_request, received_slot, get_response,
  expired_slot, expire, drop, accept, read_line, Event, begun, wrote, read, resumed, got, timed_out,
  dropped, apply, run,
}
use tele_cli.Rpc.Responses.{
  answer, answer_of, at, answered, or_first, response_to, hears, first_response, Spares, Waits,
  Hears, find-appended, changed-at, changed-Hears, written_phase-answer, received_slot_lem,
  expired_slot_lem, or_first-none, or_first_assoc,
}
use tele_cli.Rpc.Puts.{
  same-Hears, drop-Hears, resume-Hears, accept_response-Hears, accept_call-Hears,
}
use tele_cli.Rpc.Own.{IsRouted, OwnSlot, OwnPut}
use tele_cli.Rpc.Routed.{run-IsRouted}

accept-Hears :
    (i : ℕ) (method : Option String) (p : Payload) (c : Client) (slot : Slot)
    → at i c ≡ some slot
    → c.reader ≡ reading
    → Hears i slot
        (elim method [ none ↦ response_to i p.id p | some name ↦ none ])
        (accept method p c)
accept-Hears i none p c slot e r = accept_response-Hears i p.id p c slot e r
accept-Hears i (some method) p c slot e r = accept_call-Hears i p.id method p.params c slot e r

read_line-Hears :
    (i : ℕ) (reader : Reader) (line : Line) (c : Client) (slot : Slot)
    → at i c ≡ some slot
    → c.reader ≡ reader
    → Waits i reader (answer slot.phase slot.queue)
    → Hears i slot (hears i (read line) reader) (read_line reader line c)
unfolding read_line hears at
read_line-Hears i reading (object p) c slot e r w = accept-Hears i p.method p c slot e r
read_line-Hears i reading no_object c slot e r w =
    same-Hears i c (record c { reader = ended }) slot refl e tt
read_line-Hears i (blocked j q) line c slot e r w =
    same-Hears i c c slot refl e (subst (λ u. Waits i u (answer slot.phase slot.queue)) (sym r) w)
read_line-Hears i stuck line c slot e r w =
    same-Hears i c c slot refl e (subst (λ u. Waits i u (answer slot.phase slot.queue)) (sym r) w)
read_line-Hears i ended line c slot e r w =
    same-Hears i c c slot refl e (subst (λ u. Waits i u (answer slot.phase slot.queue)) (sym r) w)

write_request-Hears :
    (i j : ℕ) (ok : Bool) (c : Client) (slot : Slot)
    → at i c ≡ some slot
    → Waits i c.reader (answer slot.phase slot.queue)
    → Hears i slot none (write_request j ok c)
unfolding write_request at
write_request-Hears i j true c slot e w =
    changed-Hears i j (λ s. record s { phase = written_phase true s.phase }) c slot (λ s. refl)
      (written_phase-answer true slot.phase slot.queue) e w
write_request-Hears i j false c slot e w =
    changed-Hears i j (λ s. record s { phase = written_phase false s.phase }) c slot (λ s. refl)
      (written_phase-answer false slot.phase slot.queue) e w

apply-Hears :
    (i : ℕ) (event : Event) (c : Client) (slot : Slot)
    → Spares i event
    → at i c ≡ some slot
    → Waits i c.reader (answer slot.phase slot.queue)
    → Hears i slot (hears i event c.reader) (apply event c)
unfolding apply hears at begin_request get_response expire drop
apply-Hears i (begun method params) c slot spares e w =
    let x : Slot = record {
      id = c.next_id;
      method = method;
      params = params;
      queue = none;
      phase = writing;
    } in
    same-Hears i c (begin_request method params c) slot (find-appended i x c.pending slot e ∙ sym e)
      e w
apply-Hears i (wrote j ok) c slot spares e w = write_request-Hears i j ok c slot e w
apply-Hears i (read line) c slot spares e w = read_line-Hears i c.reader line c slot e refl w
apply-Hears i resumed c slot spares e w = resume-Hears i c.reader c slot e refl w
apply-Hears i (got j) c slot spares e w =
    changed-Hears i j (λ s. received_slot s.phase s.queue s) c slot
      (λ s. (received_slot_lem s.phase s.queue s).0)
      ((received_slot_lem slot.phase slot.queue slot).1 refl refl) e w
apply-Hears i (timed_out j) c slot spares e w =
    same-Hears i c (expire j c) slot
      (changed-at i j (λ s. expired_slot s.phase s.queue s) c slot
          (λ s. expired_slot_lem s.phase s.queue s) e
        ∙ ground (arith, spares, e))
      e w
apply-Hears i (dropped j) c slot spares e w =
    drop-Hears i j c slot spares e w (find (has_id j) c.pending)

run-answered :
    (i : ℕ) (es : List Event) (c : Client) (slot : Slot)
    → All (Spares i) es
    → at i c ≡ some slot
    → Waits i c.reader (answer slot.phase slot.queue)
    → answered i (run es c) ≡ or_first (answer slot.phase slot.queue) (first_response i es c)
unfolding answered run first_response
run-answered i [] c slot spares e w = ap answer_of e ∙ sym (or_first-none _)
run-answered i (event ∷ es) c slot spares e w =
    let step = apply-Hears i event c slot spares.0 e w in
    run-answered i es (apply event c) step.0 spares.1 step.1.0 step.1.2
    ∙ ap (λ a. or_first a (first_response i es (apply event c))) step.1.1
    ∙ or_first_assoc (answer slot.phase slot.queue) (hears i event c.reader)
        (first_response i es (apply event c))

find-fresh :
    (x : Slot) (slots : List Slot)
    → All (λ s. s.id < x.id) slots
    → find (has_id x.id) (slots ++ x ∷ []) ≡ some x
find-fresh x [] a = ground arith
find-fresh x (s ∷ slots) a = ground (arith, a, find-fresh x slots a.1)

OwnPut-Waits : (n : ℕ) (reader : Reader) → OwnPut n reader → Waits n reader none
OwnPut-Waits n (blocked j p) o = λ e. absurd (omega arith)
OwnPut-Waits n reading o = tt
OwnPut-Waits n stuck o = tt
OwnPut-Waits n ended o = tt

-- However the threads have run so far: when a request is begun, and from then on the other threads do whatever they do, in
-- any order, while the request does not time out and is not given up, what has arrived for it is at every
-- moment exactly the first response with its number that the reader has read since. So a response that is read
-- reaches its request at once, is never lost, and no later one takes its place.
pub response-answered :
    (earlier : List Event) (method params : String) (es : List Event)
    → let before = run earlier new_client in
      All (Spares before.next_id) es
      → answered before.next_id (run es (apply (begun method params) before))
        ≡ first_response before.next_id es (apply (begun method params) before)
unfolding apply begin_request at IsRouted
response-answered earlier method params es spares =
    let before = run earlier new_client in
    let r = run-IsRouted earlier in
    let x : Slot = record {
      id = before.next_id;
      method = method;
      params = params;
      queue = none;
      phase = writing;
    } in
    run-answered before.next_id es (apply (begun method params) before) x spares
      (find-fresh x before.pending (
        All-mono (OwnSlot before.next_id) (λ s. s.id < before.next_id) before.pending (λ s o. o.0)
          r.0))
      (OwnPut-Waits before.next_id before.reader r.2)
