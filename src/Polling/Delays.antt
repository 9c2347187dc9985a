-- ===== src/Polling/Delays.antt =====
-- How long a failure holds the next call back, and when the polling thread ends: src/runtime/service.py.
use tele_cli.Prelude.{
  ℕ, zero, suc, ◌*◌, ◌≤◌, ◌<◌, max, ◌≡◌, ◌↔◌, inl, inr, refl, ℤ, Bool, true, false, not, ◌||◌,
  Option, none, some, List, [], ◌∷◌, ◌++◌, ◌==◌, nat_eq, leb, ltb, WhenSome, arith, Bool-cases,
}
use Prim.Native.Nat.{◌^◌, ◌-◌}
use Prim.Native.Nat.pow
use tele_cli.Polling.{
  at_least_zero, retry_delay, unexpected_retry_delay, Update, Poller, Answer, updates,
  telegram_error, other_error, next_offset, enqueue_each, back_off, handle_answer, poll_round,
}

grown : (base exponent : ℕ) → base ≤ base * 2 ^ exponent
grown base zero = omega arith
grown base (suc e) = let h = grown base e in let q = pow.suc 2 e in rw q (omega arith)

-- The delay behind a failure is at least the configured one and at most the larger of the two that are
-- configured, and it is the configured one behind the first failure. There is none, but an OverflowError, exactly
-- behind more than 1024 failures in a row, unless no delay is configured.
pub retry_delay-bounds :
    (backoff_seconds backoff_max_seconds : ℤ) (failure_count : ℕ)
    → let base = at_least_zero backoff_seconds in
      let delay = retry_delay backoff_seconds backoff_max_seconds failure_count in
      WhenSome (λ d. (base ≤ d) × (d ≤ max (at_least_zero backoff_max_seconds) base)) delay
      × ((delay ≡ none) ↔ ((0 < base) × (1024 < failure_count)))
      × (retry_delay backoff_seconds backoff_max_seconds 1 ≡ some base)
unfolding retry_delay
retry_delay-bounds b m n = elim (Bool-cases (at_least_zero b == 0)) [
  | inl e ↦ ground (arith, e)
  | inr e ↦ elim (Bool-cases (leb 1024 (n - 1))) [
    | inl f ↦ ground (arith, e, f)
    | inr f ↦ ground (arith, e, f, grown (at_least_zero b) (n - 1))
  ]
]

unexpected_retry_delay-none :
    (b m : ℤ) (n : ℕ) → (unexpected_retry_delay b m n ≡ none) ↔ ((0 < at_least_zero b) × (1025 < n))
unfolding unexpected_retry_delay
unexpected_retry_delay-none b m n = ground (arith, (retry_delay-bounds b m (n - 1)).1)

enqueue_each-ended : (us : List Update) (p : Poller) → (enqueue_each us p).ended ≡ p.ended
unfolding enqueue_each
enqueue_each-ended [] p = refl
enqueue_each-ended (u ∷ us) p =
    enqueue_each-ended us
      (record p { offset = next_offset u.update_id p.offset; enqueued = p.enqueued ++ u ∷ [] })

back_off-ended :
    (now : ℕ) (delay : Option ℕ) (p : Poller)
    → p.ended ≡ false
    → ((back_off now delay p).ended ≡ true) ↔ (delay ≡ none)
back_off-ended now none p e = ground arith
back_off-ended now (some d) p e = ground (arith, e)

-- what an answer ends the thread behind so many failures
abbrev pub IsFatal : ℤ → ℕ → Answer → Type 0
IsFatal backoff_seconds failures (updates us) = ⊥
IsFatal backoff_seconds failures telegram_error =
    (0 < at_least_zero backoff_seconds) × (1024 ≤ failures)
IsFatal backoff_seconds failures other_error =
    (0 < at_least_zero backoff_seconds) × (1025 ≤ failures)

module _ (b m : ℤ) where
  handle_answer-ended :
      (now : ℕ) (answer : Answer) (p : Poller)
      → p.ended ≡ false
      → ((handle_answer b m now answer p).ended ≡ true) ↔ IsFatal b p.telegram_failures answer
  handle_answer-ended now (updates us) p e = ground (
    arith,
    e,
    enqueue_each-ended us
        (record p { telegram_failures = 0; next_poll_at = 0; is_backoff = false }),
  )
  handle_answer-ended now telegram_error p e = ground (
    arith,
    back_off-ended now (retry_delay b m (suc p.telegram_failures)) p e,
    (retry_delay-bounds b m (suc p.telegram_failures)).1,
  )
  handle_answer-ended now other_error p e = ground (
    arith,
    back_off-ended now (unexpected_retry_delay b m (suc p.telegram_failures)) p e,
    unexpected_retry_delay-none b m (suc p.telegram_failures),
  )

  -- The polling thread, while it lives, is ended by a round exactly if the round polls (it may, and it is not held back
  -- by a delay) and fails behind 1024 failures in a row (1025 where the error is not Telegram's), unless no
  -- delay is configured: the delay itself raises then.
  pub poll_round-ended :
      (may_poll : Bool) (now later : ℕ) (answer : Answer) (p : Poller)
      → p.ended ≡ false
      → ((poll_round b m may_poll now later answer p).ended ≡ true)
        ↔ ((may_poll ≡ true) × (p.next_poll_at ≤ now) × IsFatal b p.telegram_failures answer)
  unfolding poll_round
  poll_round-ended may_poll now later answer p e =
      elim (Bool-cases (p.ended || not may_poll || ltb now p.next_poll_at)) [
        | inl q ↦ ground (arith, e, q)
        | inr q ↦ ground (arith, e, q, handle_answer-ended later answer p e)
      ]
