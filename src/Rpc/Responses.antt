-- ===== src/Rpc/Responses.antt =====
-- What a request has been answered, and the changes of its slot: src/runtime/jsonrpc.py.
use tele_cli.Prelude.{
  ℕ, ◌≡◌, ◌≢◌, refl, sym, ◌∙◌, subst, inl, inr, pos, negsuc, Bool, true, false, not, Option, none,
  some, List, [], ◌∷◌, ◌++◌, ◌==◌, nat_eq, find, filter, map, if◌then◌else◌, arith, Bool-cases,
}
use tele_cli.Rpc.{
  IdField, absent, null, number, unreadable, Payload, Line, object, no_object, Phase, writing,
  waiting, received, expired, abandoned, Slot, Reader, reading, blocked, stuck, ended, Client,
  has_id, change, written_phase, received_slot, expired_slot, is_full, Event, begun, wrote, read,
  resumed, got, timed_out, dropped, apply,
}

-- what has arrived for a request: what it has taken, or else what its queue has
abbrev pub answer : Phase → Option Payload → Option Payload
answer (received p) queue = some p
answer writing queue = queue
answer waiting queue = queue
answer expired queue = queue
answer abandoned queue = queue

abbrev pub answer_of : Option Slot → Option Payload
answer_of none = none
answer_of (some slot) = answer slot.phase slot.queue

unfoldable pub at : ℕ → Client → Option Slot
at i c = find (has_id i) c.pending

unfoldable pub answered : ℕ → Client → Option Payload
unfolding at
answered i c = answer_of (at i c)

abbrev pub or_first : Option Payload → Option Payload → Option Payload
or_first none later = later
or_first (some p) later = some p

-- the id of a response
abbrev pub response_to : ℕ → IdField → Payload → Option Payload
response_to i (number (pos j)) p = if j == i then some p else none
response_to i (number (negsuc j)) p = none
response_to i absent p = none
response_to i null p = none
response_to i unreadable p = none

-- the response to a request that a line is
abbrev pub heard_line : ℕ → Line → Option Payload
heard_line i (object p) = elim p.method [ none ↦ response_to i p.id p | some method ↦ none ]
heard_line i no_object = none

abbrev pub if_reading : Reader → Option Payload → Option Payload
if_reading reading heard = heard
if_reading (blocked j q) heard = none
if_reading stuck heard = none
if_reading ended heard = none

-- the response to a request that the reader reads in an event
unfoldable pub hears : ℕ → Event → Reader → Option Payload
hears i (read line) reader = if_reading reader (heard_line i line)
hears i (begun method params) reader = none
hears i (wrote j ok) reader = none
hears i resumed reader = none
hears i (got j) reader = none
hears i (timed_out j) reader = none
hears i (dropped j) reader = none

-- the first response to a request that the reader reads
unfoldable pub first_response : ℕ → List Event → Client → Option Payload
unfolding hears
first_response i [] c = none
first_response i (e ∷ es) c = or_first (hears i e c.reader) (first_response i es (apply e c))

-- The event is not the timeout or the end of the request.
abbrev pub Spares : ℕ → Event → Type 0
Spares i (timed_out j) = j ≢ i
Spares i (dropped j) = j ≢ i
Spares i (begun method params) = Unit
Spares i (wrote j ok) = Unit
Spares i (read line) = Unit
Spares i resumed = Unit
Spares i (got j) = Unit

find-changed :
    (i j : ℕ) (f : Slot → Slot) (slots : List Slot)
    → ((s : Slot) → (f s).id ≡ s.id)
    → find (has_id i) (map (λ s. if has_id j s then f s else s) slots) ≡ (
        if j == i
        then elim (find (has_id i) slots) [ none ↦ none | some s ↦ some (f s) ]
        else find (has_id i) slots)
find-changed i j f [] h = ground arith
find-changed i j f (s ∷ slots) h = ground (arith, h s, find-changed i j f slots h)

pub find-appended :
    (i : ℕ) (x : Slot) (slots : List Slot) (s : Slot)
    → find (has_id i) slots ≡ some s
    → find (has_id i) (slots ++ x ∷ []) ≡ some s
find-appended i x [] s h = ground (arith, h)
find-appended i x (y ∷ slots) s h = ground (arith, h, find-appended i x slots s)

pub find-dropped :
    (i j : ℕ) (slots : List Slot)
    → j ≢ i
    → find (has_id i) (filter (λ s. not (has_id j s)) slots) ≡ find (has_id i) slots
find-dropped i j [] n = refl
find-dropped i j (s ∷ slots) n = ground (arith, n, find-dropped i j slots n)

-- A reader that is blocked on the request's queue has found an answer there or taken.
abbrev pub Waits : ℕ → Reader → Option Payload → Type 0
Waits i (blocked j p) a = j ≡ i → is_full a ≡ true
Waits i reading a = Unit
Waits i stuck a = Unit
Waits i ended a = Unit

-- What an event leaves of the request's slot: it is there, and its answer is the one it had or else the one heard.
abbrev pub Hears : ℕ → Slot → Option Payload → Client → Type 0
Hears i slot heard after =
    (s : Slot) × ((at i after ≡ some s)
      × (answer s.phase s.queue ≡ or_first (answer slot.phase slot.queue) heard)
      × Waits i after.reader (answer s.phase s.queue))

pub or_first-none : (a : Option Payload) → or_first a none ≡ a
or_first-none none = refl
or_first-none (some p) = refl

pub or_first_assoc :
    (a b d : Option Payload) → or_first (or_first a b) d ≡ or_first a (or_first b d)
or_first_assoc none b d = refl
or_first_assoc (some p) b d = refl

pub changed-at :
    (i j : ℕ) (f : Slot → Slot) (c : Client) (slot : Slot)
    → ((s : Slot) → (f s).id ≡ s.id)
    → at i c ≡ some slot
    → at i (change j f c) ≡ some (if j == i then f slot else slot)
unfolding at change
changed-at i j f c slot h e = find-changed i j f c.pending h ∙ rw e (ground arith)

-- A change that keeps ids and answers.
pub changed-Hears :
    (i j : ℕ) (f : Slot → Slot) (c : Client) (slot : Slot)
    → ((s : Slot) → (f s).id ≡ s.id)
    → answer (f slot).phase (f slot).queue ≡ answer slot.phase slot.queue
    → at i c ≡ some slot
    → Waits i c.reader (answer slot.phase slot.queue)
    → Hears i slot none (change j f c)
unfolding change
changed-Hears i j f c slot h k e w = elim (Bool-cases (j == i)) [
  | inl q ↦ (
    f slot,
    (
      changed-at i j f c slot h e ∙ ground (arith, q),
      k ∙ sym (or_first-none _),
      subst (Waits i c.reader) (sym k) w,
    ),
  )
  | inr q ↦ (slot, (changed-at i j f c slot h e ∙ ground (arith, q), sym (or_first-none _), w))
]

pub written_phase-answer :
    (ok : Bool) (phase : Phase) (queue : Option Payload)
    → answer (written_phase ok phase) queue ≡ answer phase queue
written_phase-answer true writing queue = refl
written_phase-answer false writing queue = refl
written_phase-answer true waiting queue = refl
written_phase-answer false waiting queue = refl
written_phase-answer true (received p) queue = refl
written_phase-answer false (received p) queue = refl
written_phase-answer true expired queue = refl
written_phase-answer false expired queue = refl
written_phase-answer true abandoned queue = refl
written_phase-answer false abandoned queue = refl

pub received_slot_lem :
    (phase : Phase) (queue : Option Payload) (slot : Slot)
    → ((received_slot phase queue slot).id ≡ slot.id)
      × (slot.phase ≡ phase
          → slot.queue ≡ queue
          → answer (received_slot phase queue slot).phase (received_slot phase queue slot).queue
            ≡ answer phase queue)
unfolding received_slot
received_slot_lem waiting (some p) slot = (refl, λ a b. refl)
received_slot_lem waiting none slot = (refl, λ a b. rw (a, b))
received_slot_lem writing queue slot = (refl, λ a b. rw (a, b))
received_slot_lem (received p) queue slot = (refl, λ a b. rw a)
received_slot_lem expired queue slot = (refl, λ a b. rw (a, b))
received_slot_lem abandoned queue slot = (refl, λ a b. rw (a, b))

pub expired_slot_lem :
    (phase : Phase) (queue : Option Payload) (slot : Slot)
    → (expired_slot phase queue slot).id ≡ slot.id
unfolding expired_slot
expired_slot_lem waiting none slot = refl
expired_slot_lem waiting (some p) slot = refl
expired_slot_lem writing queue slot = refl
expired_slot_lem (received p) queue slot = refl
expired_slot_lem expired queue slot = refl
expired_slot_lem abandoned queue slot = refl
