-- ===== src/Queue/Invariant/Consistent.antt =====
-- process_next of src/storage/telegram_queue.py keeps the table consistent.
use tele_cli.Prelude.{
  ◌≡◌, refl, String, List, [], ◌∷◌, false, ◌==◌, string_eq, any, All-mono, Each, Option-cases, inl,
  inr, arith,
}
use tele_cli.Queue.Types.{Status, Row, Store}
use tele_cli.Queue.Deliver.{Call}
use tele_cli.Queue.Process.{
  Outside, Outcome, idle, skipped, settled, crashed, select_next, process_next,
}
use tele_cli.Queue.Process.Cases.{process_next-idle}
use tele_cli.Queue.Invariant.{Distinct, IsConsistent}
use tele_cli.Queue.Invariant.Steps.{AllKnown}
use tele_cli.Queue.Invariant.Kept.{Kept}
use tele_cli.Queue.Invariant.Frame.{process_next-KeptAll}
use tele_cli.Queue.Invariant.Preserved.{Claimed, process_next-Claimed}

any-Each :
    (id key : String) (xs ys : List Row)
    → Each (Kept id) xs ys
    → any (λ x. x.queue_id == key) xs ≡ false
    → any (λ x. x.queue_id == key) ys ≡ false
any-Each id key [] [] e h = h
any-Each id key (x ∷ xs) (y ∷ ys) e h = ground (arith, e.0.queue_id, any-Each id key xs ys e.1)
any-Each id key [] (y ∷ ys) e h = absurd e
any-Each id key (x ∷ xs) [] e h = refl

Distinct-Each : (id : String) (xs ys : List Row) → Each (Kept id) xs ys → Distinct xs → Distinct ys
Distinct-Each id [] [] e d = tt
Distinct-Each id (x ∷ xs) (y ∷ ys) e d =
    (rw (e.0.queue_id) (any-Each id x.queue_id xs ys e.1 d.0), Distinct-Each id xs ys e.1 d.1)
Distinct-Each id [] (y ∷ ys) e d = absurd e
Distinct-Each id (x ∷ xs) [] e d = tt

Known-IsConsistent :
    (id : String) (st : Status) (s : Store) → AllKnown id st s → Distinct s.rows → IsConsistent s
Known-IsConsistent id st s h d = record {
  columns = All-mono _ _ s.rows (λ r k. k.fits) h;
  pause = All-mono _ _ s.rows (λ r k. k.waits) h;
  keys = d;
}

Claimed-IsConsistent :
    (row : Row) (outcome : Outcome) (calls : List Call) (s : Store)
    → Claimed row (outcome, calls, s)
    → Distinct s.rows
    → IsConsistent s
Claimed-IsConsistent row idle calls s h d = absurd h
Claimed-IsConsistent row (skipped id reason) calls s h d = Known-IsConsistent id _ s h.1 d
Claimed-IsConsistent row (settled id st _ _) calls s h d = Known-IsConsistent id st s h.1 d
Claimed-IsConsistent row crashed calls s h d = Known-IsConsistent row.queue_id _ s h d

-- process_next keeps the table consistent, on every branch: the keys stay distinct, the columns of
-- every row fit its status, and no queued row is available before the end of the global pause.
pub process_next-IsConsistent :
    (o : Outside) (s : Store) → IsConsistent s → IsConsistent (process_next o s).2
process_next-IsConsistent o s c = elim (Option-cases (select_next o.selected_at s.rows)) [
  | inl e ↦ rw (process_next-idle o s e) c
  | inr (row, e) ↦
      let (outcome, calls, t) = process_next o s in
      Claimed-IsConsistent row outcome calls t (process_next-Claimed o s row c e)
        (Distinct-Each row.queue_id s.rows t.rows (process_next-KeptAll o s row e) c.keys)
]
