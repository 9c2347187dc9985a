-- ===== src/Queue/Invariant/Preserved.antt =====
-- The operations of src/storage/telegram_queue.py keep the rows consistent, and process_next leaves the
-- claimed row in the status that it returns.
use mathlib.Core.List.{Memᴰ}
use tele_cli.Prelude.{
  All-both, All-mono, ◌∙◌, ℕ, ap, sym, List, ◌==◌, string_eq, true, false, ◌≡◌, All, any, eq_iff, ℕ,
  ◌≡◌, refl, sym, some, List, [], ◌∷◌, true, false, any, ◌==◌, string_eq, arith, if◌then◌else◌, All,
  All-mono, Option-cases, inl, inr, WhenSome-some,
}
use tele_cli.Queue.Stale.{stale_row_reason}
use tele_cli.Queue.Types.{queued, queued, claimed, completed, Row, Store}
use tele_cli.Queue.Deliver.{Call, Answer, execute_row}
use tele_cli.Queue.Outcome.{Settled}
use tele_cli.Queue.Process.Cases.{process_claimed-live, process_claimed-stale, process_next-claims}
use mathlib.Core.Path.{subst}
use mathlib.Core.List.{Memᴰ}
use tele_cli.Queue.Process.Claims.{select_next-Picked, Picked}
use tele_cli.Queue.Invariant.Updates.{claim-Known}
use tele_cli.Queue.Process.{
  Outside, claim, claim_row, complete_stale, skip_stale, settle, process_claimed, process_next,
  Outcome, claim, claim_row, select_next, is_ready, idle, skipped, settled, crashed, finish,
  conclude,
}
use tele_cli.Queue.Invariant.{Distinct, IsConsistent}
use tele_cli.Queue.Invariant.Updates.{claim-Known, complete_stale-Known}
use tele_cli.Queue.Invariant.Steps.{AllKnown, update-AllKnown, log_row_event-AllKnown}
use tele_cli.Queue.Invariant.Settles.{Ends, settle-Ends}

-- The values of process_next and the rows behind them.
abbrev pub Claimed : Row → Outcome × List Call × Store → Type 0
Claimed row (idle, _, s) = ⊥
Claimed row (skipped id reason, _, s) = (id ≡ row.queue_id) × AllKnown id completed s
Claimed row (settled id st _ _, _, s) = (id ≡ row.queue_id) × AllKnown id st s
Claimed row (crashed, _, s) = AllKnown row.queue_id claimed s

module _ (o : Outside) (row : Row) (s : Store) (h : AllKnown row.queue_id claimed s) where
  skip_stale-AllKnown : AllKnown row.queue_id completed (skip_stale o.settled_at row s)
  unfolding skip_stale
  skip_stale-AllKnown = log_row_event-AllKnown row.queue_id completed _ row.op_type _ row.queue_id (
      update-AllKnown row.queue_id claimed completed
        (λ r. if r.queue_id == row.queue_id then complete_stale o.settled_at r else r) s
        (λ t r. complete_stale-Known row.queue_id t o.settled_at r) h)

  finish-Claimed :
      (calls : List Call) (r : Settled)
      → Ends row r
      → Claimed row ((finish row r).0, calls, (finish row r).1)
  unfolding finish
  finish-Claimed calls r e =
      (refl, log_row_event-AllKnown row.queue_id r.final_status _ row.op_type _ row.queue_id e)

  settled-Claimed :
      (calls : List Call) (a : Answer) → Claimed row (conclude row s calls (settle o a row s))
  unfolding conclude
  settled-Claimed calls a = elim (Option-cases (settle o a row s)) [
    | inl e ↦ rw e h
    | inr (r, e) ↦
        rw e (finish-Claimed calls r (WhenSome-some (Ends row) _ r e (settle-Ends o row s h a)))
  ]

  process_claimed-Claimed : Claimed row (process_claimed o row s)
  process_claimed-Claimed = elim (Option-cases (stale_row_reason row s)) [
    | inl e ↦
        let (a, calls) = execute_row o.answer o.missing_text s row in
        subst (Claimed row) (sym (process_claimed-live o row s e)) (settled-Claimed calls a)
    | inr (reason, e) ↦
        subst (Claimed row) (sym (process_claimed-stale o row s reason e))
          (refl, skip_stale-AllKnown)
  ]

-- A row of the table is the only one with its key.
absent-key :
    (row : Row) (rows : List Row)
    → any (λ x. x.queue_id == row.queue_id) rows ≡ false
    → All (λ r. (r.queue_id == row.queue_id) ≡ false) rows
absent-key row [] h = tt
absent-key row (x ∷ rows) h = (ground arith, absent-key row rows (ground arith))

present-key :
    (row x : Row) (rows : List Row)
    → Memᴰ row rows
    → (x.queue_id == row.queue_id) ≡ true
    → any (λ y. y.queue_id == x.queue_id) rows ≡ true
present-key row x [] m h = elim m [ ]
present-key row x (y ∷ rows) (Memᴰ.head e) h = ground (
  arith,
  eq_iff x.queue_id row.queue_id,
  eq_iff y.queue_id x.queue_id,
  ap (λ (r : Row). r.queue_id) e,
)
present-key row x (y ∷ rows) (Memᴰ.tail m) h = ground (arith, present-key row x rows m h)

Distinct-only :
    (row : Row) (rows : List Row)
    → Distinct rows
    → Memᴰ row rows
    → All (λ r. (r.queue_id == row.queue_id) ≡ true → r.status ≡ row.status) rows
Distinct-only row [] d m = elim m [ ]
Distinct-only row (x ∷ rows) d (Memᴰ.head e) = (
  (λ _. ap (λ (r : Row). r.status) (sym e)),
  All-mono _ _ rows (λ r f t. ground arith) (absent-key row rows (rw (← e) at d.0)),
)
Distinct-only row (x ∷ rows) d (Memᴰ.tail m) =
    ((λ t. ground (arith, present-key row x rows m t)), Distinct-only row rows d.1 m)

selected-AllKnown :
    (s : Store) (row : Row)
    → IsConsistent s
    → Memᴰ row s.rows
    → row.status ≡ queued
    → AllKnown row.queue_id queued s
selected-AllKnown s row c m e =
    All-mono _ _ s.rows (λ r k. record { fits = k.0.0; waits = k.0.1; here = λ t. k.1 t ∙ e })
      (All-both _ _ s.rows (All-both _ _ s.rows c.columns c.pause)
        (Distinct-only row s.rows c.keys m))

claim_row-AllKnown :
    (o : Outside) (s : Store) (row : Row)
    → AllKnown row.queue_id queued s
    → AllKnown row.queue_id claimed (claim_row o.run_id o.claimed_at row s)
unfolding claim_row
claim_row-AllKnown o s row h =
    log_row_event-AllKnown row.queue_id claimed _ row.op_type _ row.queue_id (
      update-AllKnown row.queue_id queued claimed
        (λ r. if r.queue_id == row.queue_id then claim o.run_id o.claimed_at r else r) s
        (λ t r. claim-Known row.queue_id t o.claimed_at r o.run_id) h)

ready-queued : (now : ℕ) (r : Row) → is_ready now r ≡ true → r.status ≡ queued
ready-queued now r h = ground arith

-- For a row that process_next claims in a consistent table, the outcome names that row. Where the
-- outcome gives it a status, every row of the table with that key has this status afterwards; where an
-- exception leaves process_next, the row stays claimed.
pub process_next-Claimed :
    (o : Outside) (s : Store) (row : Row)
    → IsConsistent s
    → select_next o.selected_at s.rows ≡ some row
    → Claimed row (process_next o s)
process_next-Claimed o s row c e =
    let selected : Picked o.selected_at s.rows (some row) =
      rw e at (select_next-Picked o.selected_at s.rows) in
    let (ready, member, _) = selected in
    rw (process_next-claims o s row e) (
      process_claimed-Claimed o row (claim_row o.run_id o.claimed_at row s) (
        claim_row-AllKnown o s row
          (selected-AllKnown s row c member (ready-queued o.selected_at row ready))))
