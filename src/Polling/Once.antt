-- ===== src/Polling/Once.antt =====
-- The polling thread puts every update into the queue once: src/runtime/service.py.
use tele_cli.Prelude.{
  ℕ, suc, ◌≤◌, ◌≡◌, inl, inr, refl, sym, ◌∙◌, ap, subst, ℤ, pos, negsuc, Bool, false, not, ◌||◌,
  Option, none, some, List, [], ◌∷◌, ◌++◌, ltb, if◌then◌else◌, arith, Bool-cases,
}
use tele_cli.Polling.{
  retry_delay, unexpected_retry_delay, Update, Poller, new_poller, Answer, updates, telegram_error,
  other_error, next_offset, enqueue_each, back_off, handle_answer, poll_round,
}

-- one round of the loop: whether it may poll, the time before and behind the call, and how the call ends if it is made
pub record Round : Type 0 where
  pub may_poll : Bool
  pub now : ℕ
  pub later : ℕ
  pub answer : Answer

-- the loop of worker
abbrev pub poll_rounds : (backoff_seconds backoff_max_seconds : ℤ) → List Round → Poller → Poller
poll_rounds b m [] p = p
poll_rounds b m (r ∷ rounds) p =
    poll_rounds b m rounds (poll_round b m r.may_poll r.now r.later r.answer p)

-- the least id that a call asks for
abbrev pub asked_from : Option ℤ → ℕ
asked_from none = 0
asked_from (some (pos n)) = n
asked_from (some (negsuc n)) = 0

-- The updates have the ids of an increasing sequence of numbers from low on and below high.
abbrev pub Within : ℕ → ℕ → List Update → Type 0
Within low high [] = low ≤ high
Within low high (u ∷ us) =
    (i : ℕ) × ((u.update_id ≡ some (pos i)) × (low ≤ i) × Within (suc i) high us)

-- What the Bot API documents of getUpdates: the ids of the updates are increasing, and none is below the offset.
abbrev pub Documented : ℕ → Answer → Type 0
Documented low (updates us) = (high : ℕ) × Within low high us
Documented low telegram_error = Unit
Documented low other_error = Unit

-- Every answer of the rounds is as documented, for the offset that it is asked with.
unfoldable pub AllDocumented : ℤ → ℤ → List Round → Poller → Type 0
AllDocumented b m [] p = Unit
AllDocumented b m (r ∷ rounds) p =
    Documented (asked_from p.offset) r.answer
    × AllDocumented b m rounds (poll_round b m r.may_poll r.now r.later r.answer p)

-- the updates that one call gives
abbrev pub given : Answer → List Update
given (updates us) = us
given telegram_error = []
given other_error = []

-- the updates that all calls give, one call behind the other
pub all_given : ℤ → ℤ → List Round → Poller → List Update
all_given b m [] p = []
all_given b m (r ∷ rounds) p =
    (if p.ended || not r.may_poll || ltb r.now p.next_poll_at then [] else given r.answer)
    ++ all_given b m rounds (poll_round b m r.may_poll r.now r.later r.answer p)

Within-lower :
    (low mid high : ℕ) (us : List Update) → low ≤ mid → Within mid high us → Within low high us
Within-lower low mid high [] h w = omega arith
Within-lower low mid high (u ∷ us) h (i, w) = (i, (w.0, omega arith, w.2))

Within-le : (low high : ℕ) (us : List Update) → Within low high us → low ≤ high
Within-le low high [] w = w
Within-le low high (u ∷ us) (i, w) = let h = Within-le (suc i) high us w.2 in omega arith

Within-append :
    (low mid high : ℕ) (us vs : List Update)
    → Within low mid us
    → Within mid high vs
    → Within low high (us ++ vs)
Within-append low mid high [] vs w v = Within-lower low mid high vs w v
Within-append low mid high (u ∷ us) vs (i, w) v =
    (i, (w.0, w.1, Within-append (suc i) mid high us vs w.2 v))

-- The queue has got the updates below the offset, each once and in order.
abbrev pub IsOnce : Poller → Type 0
IsOnce p = Within 0 (asked_from p.offset) p.enqueued

enqueue_each-IsOnce :
    (us : List Update) (p : Poller) (high : ℕ)
    → Within (asked_from p.offset) high us
    → IsOnce p
    → IsOnce (enqueue_each us p)
unfolding enqueue_each
enqueue_each-IsOnce [] p high w o = o
enqueue_each-IsOnce (u ∷ us) p high (i, w) o =
    let after : Poller = record p {
      offset = next_offset u.update_id p.offset;
      enqueued = p.enqueued ++ u ∷ [];
    } in
    let moved : asked_from (next_offset u.update_id p.offset) ≡ suc i =
      ap (λ id. asked_from (next_offset id p.offset)) w.0 in
    enqueue_each-IsOnce us after high (subst (λ n. Within n high us) (sym moved) w.2) (
      subst (λ n. Within 0 n (p.enqueued ++ u ∷ [])) (sym moved)
        (Within-append 0 (asked_from p.offset) (suc i) p.enqueued (u ∷ []) o
          (i, (w.0, w.1, omega arith))))

append-nil : (us : List Update) → us ++ [] ≡ us
append-nil [] = refl
append-nil (u ∷ us) = ap (λ vs. u ∷ vs) (append-nil us)

append_assoc : (us vs ws : List Update) → (us ++ vs) ++ ws ≡ us ++ (vs ++ ws)
append_assoc [] vs ws = refl
append_assoc (u ∷ us) vs ws = ap (λ xs. u ∷ xs) (append_assoc us vs ws)

enqueue_each-enqueued :
    (us : List Update) (p : Poller) → (enqueue_each us p).enqueued ≡ p.enqueued ++ us
unfolding enqueue_each
enqueue_each-enqueued [] p = sym (append-nil p.enqueued)
enqueue_each-enqueued (u ∷ us) p =
    enqueue_each-enqueued us
      (record p { offset = next_offset u.update_id p.offset; enqueued = p.enqueued ++ u ∷ [] })
    ∙ append_assoc p.enqueued (u ∷ []) us

back_off-enqueued :
    (now : ℕ) (delay : Option ℕ) (p : Poller) → (back_off now delay p).enqueued ≡ p.enqueued
back_off-enqueued now none p = refl
back_off-enqueued now (some d) p = refl

module _ (b m : ℤ) where
  back_off-IsOnce :
      (now : ℕ) (delay : Option ℕ) (p : Poller) → IsOnce p → IsOnce (back_off now delay p)
  back_off-IsOnce now none p o = o
  back_off-IsOnce now (some d) p o = o

  handle_answer-IsOnce :
      (now : ℕ) (answer : Answer) (p : Poller)
      → Documented (asked_from p.offset) answer
      → IsOnce p
      → IsOnce (handle_answer b m now answer p)
  handle_answer-IsOnce now (updates us) p (high, w) o =
      enqueue_each-IsOnce us
        (record p { telegram_failures = 0; next_poll_at = 0; is_backoff = false }) high w o
  handle_answer-IsOnce now telegram_error p d o =
      back_off-IsOnce now (retry_delay b m (suc p.telegram_failures)) p o
  handle_answer-IsOnce now other_error p d o =
      back_off-IsOnce now (unexpected_retry_delay b m (suc p.telegram_failures)) p o

  poll_round-IsOnce :
      (r : Round) (p : Poller)
      → Documented (asked_from p.offset) r.answer
      → IsOnce p
      → IsOnce (poll_round b m r.may_poll r.now r.later r.answer p)
  unfolding poll_round
  poll_round-IsOnce r p d o =
      elim (Bool-cases (p.ended || not r.may_poll || ltb r.now p.next_poll_at)) [
        | inl q ↦ rw q o
        | inr q ↦ rw q (handle_answer-IsOnce r.later r.answer p d o)
      ]

  all_rounds-IsOnce :
      (rounds : List Round) (p : Poller)
      → AllDocumented b m rounds p
      → IsOnce p
      → IsOnce (poll_rounds b m rounds p)
  unfolding AllDocumented
  all_rounds-IsOnce [] p d o = o
  all_rounds-IsOnce (r ∷ rounds) p d o =
      all_rounds-IsOnce rounds (poll_round b m r.may_poll r.now r.later r.answer p) d.1
        (poll_round-IsOnce r p d.0 o)

  handle_answer-enqueued :
      (now : ℕ) (answer : Answer) (p : Poller)
      → (handle_answer b m now answer p).enqueued ≡ p.enqueued ++ given answer
  handle_answer-enqueued now (updates us) p =
      enqueue_each-enqueued us
        (record p { telegram_failures = 0; next_poll_at = 0; is_backoff = false })
  handle_answer-enqueued now telegram_error p =
      back_off-enqueued now (retry_delay b m (suc p.telegram_failures)) p
      ∙ sym (append-nil p.enqueued)
  handle_answer-enqueued now other_error p =
      back_off-enqueued now (unexpected_retry_delay b m (suc p.telegram_failures)) p
      ∙ sym (append-nil p.enqueued)

  poll_round-enqueued :
      (r : Round) (p : Poller)
      → (poll_round b m r.may_poll r.now r.later r.answer p).enqueued
        ≡ p.enqueued
          ++ (if p.ended || not r.may_poll || ltb r.now p.next_poll_at then [] else given r.answer)
  unfolding poll_round
  poll_round-enqueued r p =
      elim (Bool-cases (p.ended || not r.may_poll || ltb r.now p.next_poll_at)) [
        | inl q ↦ rw q (sym (append-nil p.enqueued))
        | inr q ↦ rw q (handle_answer-enqueued r.later r.answer p)
      ]

  poll_rounds-enqueued :
      (rounds : List Round) (p : Poller)
      → (poll_rounds b m rounds p).enqueued ≡ p.enqueued ++ all_given b m rounds p
  unfolding all_given
  poll_rounds-enqueued [] p = sym (append-nil p.enqueued)
  poll_rounds-enqueued (r ∷ rounds) p =
      let after = poll_round b m r.may_poll r.now r.later r.answer p in
      poll_rounds-enqueued rounds after
      ∙ ap (λ us. us ++ all_given b m rounds after) (poll_round-enqueued r p)
      ∙ append_assoc p.enqueued _ (all_given b m rounds after)

  -- However polls, delays and failures follow each other: the thread has put into the queue all updates that its calls have
  -- given, call behind call. Where the answers of getUpdates are as documented for the offset they are asked
  -- with, these have increasing ids, all below the offset that it asks with next. So no update is put there twice,
  -- and none out of order.
  pub poll_rounds-IsOnce :
      (rounds : List Round)
      → AllDocumented b m rounds new_poller
      → IsOnce (poll_rounds b m rounds new_poller)
        × ((poll_rounds b m rounds new_poller).enqueued ≡ all_given b m rounds new_poller)
  unfolding new_poller
  poll_rounds-IsOnce rounds d =
      (all_rounds-IsOnce rounds new_poller d (omega arith), poll_rounds-enqueued rounds new_poller)
