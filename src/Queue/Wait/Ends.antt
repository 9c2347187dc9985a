-- ===== src/Queue/Wait/Ends.antt =====
-- src/storage/telegram_queue.py: the wait of enqueue_and_wait ends, and what it returns was read.
use tele_cli.Prelude.{
  ℕ, ℤ, ◌≡◌, ◌∙◌, String, Bool, true, false, ◌&&◌, Option, none, some, List, [], ◌∷◌, ◌==◌,
  string_eq, option_eq, int_eq, find, any, arith, beq_refl, ap, if◌then◌else◌, Option-cases,
  Bool-cases, inl, inr,
}
use tele_cli.Queue.Types.{Status, completed, Row}
use tele_cli.Queue.Errors.{ErrorLiteral}
use tele_cli.Queue.Wait.{
  Waited, disappeared, timed_out, sent, Reading, wait_round, wait_for_completion, read_row,
  completed_result,
}

is_completed : Status → Bool
is_completed completed = true
is_completed _ = false

-- the row with this key is completed in the reading, with this message id
unfoldable pub shows_sent : String → ℤ → Reading → Bool
unfolding is_completed
shows_sent id m reading =
    any (λ r. r.queue_id == id && is_completed r.status && r.telegram_message_id == some m)
      reading.rows

module _ (literal_eval : String → Option ErrorLiteral) (allow_paused_return : Bool)
    (id : String) where
  round-deadline :
      (reading : Reading)
      → reading.past_deadline ≡ true
      → (w : Waited) × (wait_round literal_eval allow_paused_return id reading ≡ some w)
  unfolding wait_round
  round-deadline reading p = elim (Option-cases (find (λ r. r.queue_id == id) reading.rows)) [
    | inl e ↦ (disappeared, rw (e, wait_round))
    | inr (r, e) ↦ elim (Option-cases (read_row literal_eval allow_paused_return reading.now r)) [
      | inl n ↦ (timed_out, rw (e, n, p, wait_round))
      | inr (w, s) ↦ (w, rw (e, s, wait_round))
    ]
  ]

  late-sent : (m : ℤ) (late : Bool) → (if late then some timed_out else none) ≡ some (sent m) → ⊥
  late-sent m true h = ground (arith, h)
  late-sent m false h = ground (arith, h)

  find-sent :
      (m : ℤ) (r : Row) (rows : List Row)
      → find (λ r. r.queue_id == id) rows ≡ some r
      → (is_completed r.status && r.telegram_message_id == some m) ≡ true
      → any (λ r. r.queue_id == id && is_completed r.status && r.telegram_message_id == some m) rows
        ≡ true
  find-sent m r [] e h = absurd (ground (arith, e))
  find-sent m r (x ∷ rows) e h = elim (Bool-cases (x.queue_id == id)) [
    | inl q ↦ let same : x ≡ r = ground (arith, rw q at e) in rw (q, same, h)
    | inr q ↦ rw q (find-sent m r rows (rw q at e) h)
  ]

  read_row-sent :
      (now : ℕ) (m : ℤ) (r : Row)
      → read_row literal_eval allow_paused_return now r ≡ some (sent m)
      → (is_completed r.status && r.telegram_message_id == some m) ≡ true
  unfolding read_row is_completed completed_result
  read_row-sent now m r e = ground (arith, e, beq_refl (some m))

  round-sent :
      (m : ℤ) (reading : Reading)
      → wait_round literal_eval allow_paused_return id reading ≡ some (sent m)
      → shows_sent id m reading ≡ true
  unfolding shows_sent wait_round
  round-sent m reading h = elim (Option-cases (find (λ r. r.queue_id == id) reading.rows)) [
    | inl e ↦ absurd (ground (arith, rw (e, wait_round) at h))
    | inr (r, e) ↦ elim (Option-cases (read_row literal_eval allow_paused_return reading.now r)) [
      | inl n ↦ absurd (late-sent m reading.past_deadline (rw (e, n, wait_round) at h))
      | inr (w, k) ↦
          find-sent m r reading.rows e
            (read_row-sent reading.now m r (k ∙ (rw (e, k, wait_round) at h)))
    ]
  ]

  wait_for_completion-sent :
      (m : ℤ) (readings : List Reading)
      → wait_for_completion literal_eval allow_paused_return id readings ≡ some (sent m)
      → any (shows_sent id m) readings ≡ true
  unfolding wait_for_completion
  wait_for_completion-sent m [] h = absurd (ground (arith, h))
  wait_for_completion-sent m (reading ∷ later) h =
      elim (Option-cases (wait_round literal_eval allow_paused_return id reading)) [
        | inr (w, e) ↦ rw (round-sent m reading (e ∙ (rw (e, wait_for_completion) at h)))
        | inl e ↦
            ground (arith, wait_for_completion-sent m later (rw (e, wait_for_completion) at h))
      ]

  returns :
      (readings : List Reading)
      → any (λ reading. reading.past_deadline) readings ≡ true
      → (w : Waited) × (wait_for_completion literal_eval allow_paused_return id readings ≡ some w)
  unfolding wait_for_completion
  returns [] h = absurd (ground (arith, h))
  returns (reading ∷ later) h =
      elim (Option-cases (wait_round literal_eval allow_paused_return id reading)) [
        | inr (w, e) ↦ (w, rw (e, wait_for_completion))
        | inl e ↦ elim (Bool-cases reading.past_deadline) [
          | inl p ↦ let (w, s) = round-deadline reading p in (w, rw (s, wait_for_completion))
          | inr p ↦
              let (w, s) = returns later (ground (arith, h, p)) in
              (w, rw (e, s, wait_for_completion))
        ]
      ]

  -- The wait ends at the latest with the first reading at which its deadline has passed, and it returns
  -- a message id only if a reading shows the row completed, with this message id.
  pub wait_for_completion_ends :
      (readings : List Reading)
      → any (λ reading. reading.past_deadline) readings ≡ true
      → (w : Waited) × (wait_for_completion literal_eval allow_paused_return id readings ≡ some w)
        × ((m : ℤ) → w ≡ sent m → any (shows_sent id m) readings ≡ true)
  wait_for_completion_ends readings h =
      let (w, e) = returns readings h in
      (w, e, (λ m s. wait_for_completion-sent m readings (e ∙ ap some s)))
