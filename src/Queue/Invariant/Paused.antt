-- ===== src/Queue/Invariant/Paused.antt =====
-- While the queue of src/storage/telegram_queue.py is paused, process_next does nothing.
use tele_cli.Prelude.{
  ℕ, ◌+◌, ◌*◌, ◌≤◌, ◌<◌, ◌≡◌, String, Option, none, some, List, [], ◌∷◌, true, All, arith, ℤ,
  Option-cases, Bool-cases, inl, inr, WhenSome, WhenSome-some, sym,
}
use mathlib.Core.List.{Memᴰ}
use mathlib.Core.Path.{subst}
use tele_cli.Queue.Types.{queued, OpType, Payload, Row, Store}
use tele_cli.Queue.Errors.{Error, retry_delay_from_error}
use tele_cli.Queue.Backoff.{second, load_backoff_seconds}
use tele_cli.Queue.Backoff.Bounds.{next_backoff_bounds}
use tele_cli.Queue.Stale.{stale_row_reason}
use tele_cli.Queue.Deliver.{Call, Answer, returned, raised, execute_row}
use tele_cli.Queue.Enqueue.{log_row_event}
use tele_cli.Queue.Outcome.{
  Settled, update_row, deliver_row, is_noop_error, settle_noop, settle_failed, settle_rate_limited,
}
use tele_cli.Queue.Outcome.Promote.{promote_if_sent, settle_delivered}
use tele_cli.Queue.Process.{
  Outside, Outcome, idle, skipped, settled, crashed, is_ready, select_next, claim_row, settle,
  settle_error, conclude, finish, process_claimed, process_next,
}
use tele_cli.Queue.Process.Claims.{Picked, select_next-Picked}
use tele_cli.Queue.Process.Cases.{
  process_claimed-live, process_claimed-stale, process_next-idle, process_next-claims,
}
use tele_cli.Queue.Invariant.{pause_end, WaitsFor, IsConsistent}
use tele_cli.Queue.Invariant.Consistent.{process_next-IsConsistent}

ready-available : (now t : ℕ) (r : Row) → is_ready now r ≡ true → WaitsFor t r → t ≤ now
ready-available now t r h w = ground arith

Memᴰ-All : (P : Row → Type 0) (r : Row) (rows : List Row) → Memᴰ r rows → All P rows → P r
Memᴰ-All P r [] m h = elim m [ ]
Memᴰ-All P r (x ∷ rows) (Memᴰ.head e) h = rw e h.0
Memᴰ-All P r (x ∷ rows) (Memᴰ.tail m) h = Memᴰ-All P r rows m h.1

select_next-paused :
    (s : Store) (now : ℕ)
    → IsConsistent s
    → now < pause_end s.rate_limit
    → select_next now s.rows ≡ none
select_next-paused s now c p = elim (Option-cases (select_next now s.rows)) [
  | inl e ↦ e
  | inr (r, e) ↦
      let found : Picked now s.rows (some r) = rw e at (select_next-Picked now s.rows) in
      absurd (omega (arith, ready-available now _ r found.0 (Memᴰ-All _ r s.rows found.1 c.pause)))
]

-- Before the end of the global pause, process_next on a consistent table claims no row, makes no
-- Telegram call and changes nothing.
pub process_next-paused :
    (o : Outside) (s : Store)
    → IsConsistent s
    → o.selected_at < pause_end s.rate_limit
    → process_next o s ≡ (idle, [], s)
process_next-paused o s c p = process_next-idle o s (select_next-paused s o.selected_at c p)

rate_limit-log :
    (op : OpType) (event id : String) (s : Store)
    → (log_row_event op event id s).rate_limit ≡ s.rate_limit
unfolding log_row_event
rate_limit-log op event id s = ground arith

-- a branch that requeues its row pauses the queue
abbrev Pauses : ℕ → Settled → Type 0
Pauses now r = r.final_status ≡ queued → now + 2 * second ≤ pause_end r.store.rate_limit

module _ (now : ℕ) (row : Row) (s : Store) where
  settle_rate_limited-Pauses :
      (retry_after : ℕ) (e : Error) → Pauses now (settle_rate_limited now retry_after e row s)
  unfolding settle_rate_limited
  settle_rate_limited-Pauses retry_after e _ =
      rw (rate_limit-log, rate_limit-log)
        (omega (arith, next_backoff_bounds (load_backoff_seconds s) (some retry_after)))

  settle_delivered-Pauses :
      (size : Payload → ℕ) (artifact_for : String → String) (message_id : Option ℤ)
      → WhenSome (Pauses now) (settle_delivered size artifact_for now message_id row s)
  unfolding settle_delivered
  settle_delivered-Pauses size artifact_for message_id =
      let delivered = record s {
        rows = update_row row.queue_id (deliver_row now message_id) s.rows;
      } in
      elim (Option-cases (promote_if_sent size artifact_for message_id row delivered)) [
        | inl e ↦ rw (e, WhenSome) tt
        | inr (t, e) ↦ rw (e, WhenSome) (λ h. cc)
      ]

module _ (o : Outside) (row : Row) (s : Store) where
  settle_error-Pauses :
      (e : Error) (delay : Option ℕ) → Pauses o.settled_at (settle_error o e delay row s)
  unfolding settle_error settle_failed
  settle_error-Pauses e none h = cc
  settle_error-Pauses e (some delay) h = settle_rate_limited-Pauses o.settled_at row s delay e h

  settle-Pauses : (a : Answer) → WhenSome (Pauses o.settled_at) (settle o a row s)
  unfolding settle settle_noop
  settle-Pauses (returned message_id) =
      settle_delivered-Pauses o.settled_at row s o.size o.artifact_for message_id
  settle-Pauses (raised e) = elim (Bool-cases (is_noop_error row.op_type e)) [
    | inl noop ↦ rw noop (λ h. cc)
    | inr other ↦ rw other (settle_error-Pauses e (retry_delay_from_error o.literal_eval e))
  ]

-- an outcome that requeues the row leaves the queue paused for two seconds at least
abbrev PausedBy : ℕ → Outcome × List Call × Store → Type 0
PausedBy now (settled id st _ _, _, s) = st ≡ queued → now + 2 * second ≤ pause_end s.rate_limit
PausedBy now _ = Unit

module _ (o : Outside) (row : Row) (s : Store) where
  finish-PausedBy :
      (calls : List Call) (r : Settled)
      → Pauses o.settled_at r
      → PausedBy o.settled_at ((finish row r).0, calls, (finish row r).1)
  unfolding finish
  finish-PausedBy calls r h e = rw rate_limit-log (h e)

  conclude-PausedBy :
      (calls : List Call) (a : Answer)
      → PausedBy o.settled_at (conclude row s calls (settle o a row s))
  unfolding conclude
  conclude-PausedBy calls a = elim (Option-cases (settle o a row s)) [
    | inl e ↦ rw e tt
    | inr (r, e) ↦ rw e (
        finish-PausedBy calls r
          (WhenSome-some (Pauses o.settled_at) _ r e (settle-Pauses o row s a)))
  ]

  process_claimed-PausedBy : PausedBy o.settled_at (process_claimed o row s)
  process_claimed-PausedBy = elim (Option-cases (stale_row_reason row s)) [
    | inl e ↦
        let (a, calls) = execute_row o.answer o.missing_text s row in
        subst (PausedBy o.settled_at) (sym (process_claimed-live o row s e))
          (conclude-PausedBy calls a)
    | inr (reason, e) ↦
        subst (PausedBy o.settled_at) (sym (process_claimed-stale o row s reason e)) tt
  ]

process_next-PausedBy : (o : Outside) (s : Store) → PausedBy o.settled_at (process_next o s)
process_next-PausedBy o s = elim (Option-cases (select_next o.selected_at s.rows)) [
  | inl e ↦ subst (PausedBy o.settled_at) (sym (process_next-idle o s e)) tt
  | inr (row, e) ↦
      subst (PausedBy o.settled_at) (sym (process_next-claims o s row e))
        (process_claimed-PausedBy o row (claim_row o.run_id o.claimed_at row s))
]

PausedBy-settled :
    (now : ℕ) (p : Outcome × List Call × Store) (id : String) (m : Option ℤ) (e : Option String)
    → p.0 ≡ settled id queued m e
    → PausedBy now p
    → now + 2 * second ≤ pause_end p.2.rate_limit
PausedBy-settled now (settled id st m e, calls, s) id' m' e' h p = p (ground arith)
PausedBy-settled now (idle, calls, s) id' m' e' h p = cc
PausedBy-settled now (skipped _ _, calls, s) id' m' e' h p = cc
PausedBy-settled now (crashed, calls, s) id' m' e' h p = cc

-- Once process_next has put a row back because of a rate limit, every process_next whose SELECT reads
-- the clock less than two seconds after that leaves the queue alone: no row, of any chat, is sent.
pub process_next-rate_limited :
    (o later : Outside) (s : Store) (id : String) (m : Option ℤ) (e : Option String)
    → IsConsistent s
    → (process_next o s).0 ≡ settled id queued m e
    → later.selected_at < o.settled_at + 2 * second
    → process_next later (process_next o s).2 ≡ (idle, [], (process_next o s).2)
process_next-rate_limited o later s id m e c h l =
    process_next-paused later (process_next o s).2 (process_next-IsConsistent o s c) (
      omega (
        arith,
        PausedBy-settled o.settled_at (process_next o s) id m e h (process_next-PausedBy o s),
      ))
