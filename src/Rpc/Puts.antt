-- ===== src/Rpc/Puts.antt =====
-- What the reader's puts and the end of other requests do to a request: src/runtime/jsonrpc.py.
use tele_cli.Prelude.{
  ℕ, ◌≡◌, ◌≢◌, refl, sym, ◌∙◌, subst, inl, inr, pos, negsuc, String, true, false, not, ◌&&◌, Option,
  none, some, ◌==◌, nat_eq, find, filter, arith, Bool-cases,
}
use tele_cli.Rpc.{
  IdField, absent, null, number, unreadable, Payload, Phase, writing, waiting, received, expired,
  abandoned, Slot, Reader, reading, blocked, stuck, ended, Client, has_id, change, is_over, is_full,
  left_reader, pop_found, offer, accept_response, accept_call, resume,
}
use tele_cli.Rpc.Responses.{
  answer, at, or_first, response_to, Waits, Hears, find-dropped, changed-at, or_first-none,
}

-- The slot, its answer and the queue it stands in are left alone.
pub same-Hears :
    (i : ℕ) (c after : Client) (slot : Slot)
    → at i after ≡ at i c
    → at i c ≡ some slot
    → Waits i after.reader (answer slot.phase slot.queue)
    → Hears i slot none after
same-Hears i c after slot s e w = (slot, (s ∙ e, sym (or_first-none _), w))

left_reader-Waits :
    (i j : ℕ) (reader : Reader) (s : Slot) (a : Option Payload)
    → Waits i reader a
    → Waits i (left_reader j reader s) a
unfolding left_reader
left_reader-Waits i j (blocked k p) s a w = elim (Bool-cases (k == j && is_full s.queue)) [
  | inl q ↦ rw q tt
  | inr q ↦ rw q w
]
left_reader-Waits i j reading s a w = w
left_reader-Waits i j stuck s a w = w
left_reader-Waits i j ended s a w = w

pub drop-Hears :
    (i j : ℕ) (c : Client) (slot : Slot)
    → j ≢ i
    → at i c ≡ some slot
    → Waits i c.reader (answer slot.phase slot.queue)
    → (found : Option Slot) → Hears i slot none (pop_found found j c)
unfolding at
drop-Hears i j c slot n e w none = same-Hears i c c slot refl e w
drop-Hears i j c slot n e w (some s) = elim (Bool-cases (is_over s.phase)) [
  | inl q ↦ rw q (
      same-Hears i c
        (record c {
          pending = filter (λ t. not (has_id j t)) c.pending;
          reader = left_reader j c.reader s;
        })
        slot (find-dropped i j c.pending n) e
        (left_reader-Waits i j c.reader s (answer slot.phase slot.queue) w))
  | inr q ↦ rw q (same-Hears i c c slot refl e w)
]

full-answer :
    (phase : Phase) (queue : Option Payload)
    → is_full queue ≡ true
    → is_full (answer phase queue) ≡ true
full-answer phase none f = absurd (ground (arith, f))
full-answer writing (some p) f = refl
full-answer waiting (some p) f = refl
full-answer (received q) (some p) f = refl
full-answer expired (some p) f = refl
full-answer abandoned (some p) f = refl

or_first-full : (a heard : Option Payload) → is_full a ≡ true → a ≡ or_first a heard
or_first-full none heard f = absurd (ground (arith, f))
or_first-full (some p) heard f = refl

put-answer :
    (phase : Phase) (queue : Option Payload) (p : Payload)
    → is_full queue ≡ false
    → answer phase (some p) ≡ or_first (answer phase queue) (some p)
put-answer phase (some q) p f = absurd (ground (arith, f))
put-answer writing none p f = refl
put-answer waiting none p f = refl
put-answer (received q) none p f = refl
put-answer expired none p f = refl
put-answer abandoned none p f = refl

-- response_queue.put on the queue of the request itself
offer-Hears :
    (i : ℕ) (p : Payload) (c : Client) (slot : Slot)
    → at i c ≡ some slot
    → Hears i slot (some p) (offer (some slot) i p c)
unfolding change at
offer-Hears i p c slot e = elim (Bool-cases (is_full slot.queue)) [
  | inl q ↦ rw q (
      let f = full-answer slot.phase slot.queue q in
      (slot, (e, or_first-full _ (some p) f, (λ z. f))))
  | inr q ↦ rw q (
    record slot { queue = some p },
    (
      changed-at i i (λ s. record s { queue = some p }) c slot (λ s. refl) e ∙ ground arith,
      put-answer slot.phase slot.queue p q,
      tt,
    ),
  )
]

-- response_queue.put on another one
offer_other-Hears :
    (i j : ℕ) (p : Payload) (c : Client) (slot : Slot) (found : Option Slot)
    → j ≢ i
    → at i c ≡ some slot
    → Hears i slot none (offer found j p c)
unfolding change at
offer_other-Hears i j p c slot none n e =
    same-Hears i c (record c { reader = reading }) slot refl e tt
offer_other-Hears i j p c slot (some s) n e = elim (Bool-cases (is_full s.queue)) [
  | inl q ↦
      rw q (same-Hears i c (record c { reader = blocked j p }) slot refl e (λ z. absurd (n z)))
  | inr q ↦ rw q (
      same-Hears i c (record (change j (λ t. record t { queue = some p }) c) { reader = reading })
        slot
        (changed-at i j (λ t. record t { queue = some p }) c slot (λ t. refl) e
          ∙ ground (arith, n, e))
        e tt)
]

-- The put of a blocked reader brings nothing new to the request.
pub resume-Hears :
    (i : ℕ) (reader : Reader) (c : Client) (slot : Slot)
    → at i c ≡ some slot
    → c.reader ≡ reader
    → Waits i reader (answer slot.phase slot.queue)
    → Hears i slot none (resume reader c)
unfolding resume at
resume-Hears i (blocked j p) c slot e r w = elim (Bool-cases (j == i)) [
  | inl q ↦
      let same : j ≡ i = ground (arith, q) in
      let own = offer-Hears i p c slot e in
      let full = w same in
      subst (λ k. Hears i slot none (offer (find (has_id k) c.pending) k p c)) (sym same)
        (rw e (
          own.0,
          (
            own.1.0,
            own.1.1 ∙ sym (or_first-full _ (some p) full) ∙ or_first-full _ none full,
            own.1.2,
          ),
        ))
  | inr q ↦ offer_other-Hears i j p c slot (find (has_id j) c.pending) (λ z. ground (arith, q, z)) e
]
resume-Hears i reading c slot e r w =
    same-Hears i c c slot refl e (subst (λ u. Waits i u (answer slot.phase slot.queue)) (sym r) w)
resume-Hears i stuck c slot e r w =
    same-Hears i c c slot refl e (subst (λ u. Waits i u (answer slot.phase slot.queue)) (sym r) w)
resume-Hears i ended c slot e r w =
    same-Hears i c c slot refl e (subst (λ u. Waits i u (answer slot.phase slot.queue)) (sym r) w)

pub accept_response-Hears :
    (i : ℕ) (id : IdField) (p : Payload) (c : Client) (slot : Slot)
    → at i c ≡ some slot
    → c.reader ≡ reading
    → Hears i slot (response_to i id p) (accept_response id p c)
unfolding accept_response at
accept_response-Hears i (number (pos j)) p c slot e r = elim (Bool-cases (j == i)) [
  | inl q ↦
      let same : j ≡ i = ground (arith, q) in
      rw q (
        subst (λ k. Hears i slot (some p) (offer (find (has_id k) c.pending) k p c)) (sym same)
          (rw e (offer-Hears i p c slot e)))
  | inr q ↦
      rw q
        (offer_other-Hears i j p c slot (find (has_id j) c.pending) (λ z. ground (arith, q, z)) e)
]
accept_response-Hears i (number (negsuc j)) p c slot e r = same-Hears i c c slot refl e (rw r tt)
accept_response-Hears i absent p c slot e r = same-Hears i c c slot refl e (rw r tt)
accept_response-Hears i null p c slot e r = same-Hears i c c slot refl e (rw r tt)
accept_response-Hears i unreadable p c slot e r =
    same-Hears i c (record c { reader = ended }) slot refl e tt

pub accept_call-Hears :
    (i : ℕ) (id : IdField) (method : String) (params : Option String) (c : Client) (slot : Slot)
    → at i c ≡ some slot
    → c.reader ≡ reading
    → Hears i slot none (accept_call id method params c)
unfolding accept_call at
accept_call-Hears i absent method params c slot e r =
    same-Hears i c (accept_call absent method params c) slot refl e (rw r tt)
accept_call-Hears i (number j) method params c slot e r =
    same-Hears i c (accept_call (number j) method params c) slot refl e (rw r tt)
accept_call-Hears i null method params c slot e r =
    same-Hears i c (record c { reader = ended }) slot refl e tt
accept_call-Hears i unreadable method params c slot e r =
    same-Hears i c (record c { reader = ended }) slot refl e tt
