-- ===== src/Queue/Invariant/Inserted.antt =====
-- enqueue of src/storage/telegram_queue.py keeps the table consistent.
use tele_cli.Prelude.{
  ℕ, ◌≤◌, ◌≡◌, refl, String, Option, none, some, List, [], ◌∷◌, ◌++◌, false, ◌==◌, string_eq, any,
  All-append, All-filter, Bool-cases, inl, inr, arith, eq_iff, Bool, filter, not,
}
use tele_cli.Queue.Types.{OpType, Row, Store, Payload}
use tele_cli.Queue.Enqueue.{
  Request, enqueue, drop_duplicates, has_queue_id, is_pending_duplicate, encode_payload,
  log_row_event, new_row,
}
use tele_cli.Queue.Enqueue.Dedupe.{enqueue-taken, enqueue-fresh, row_of, rows-log_row_event}
use tele_cli.Queue.Backoff.{load_paused_until, initial_available_at}
use tele_cli.Queue.Invariant.{pause_end, Distinct, IsConsistent}

any-append :
    (key : String) (xs : List Row) (r : Row)
    → any (λ x. x.queue_id == key) xs ≡ false
    → (r.queue_id == key) ≡ false
    → any (λ x. x.queue_id == key) (xs ++ r ∷ []) ≡ false
any-append key [] r h e = ground arith
any-append key (x ∷ xs) r h e = ground (arith, any-append key xs r (ground arith) e)

Distinct-append :
    (xs : List Row) (r : Row)
    → Distinct xs
    → any (λ x. x.queue_id == r.queue_id) xs ≡ false
    → Distinct (xs ++ r ∷ [])
Distinct-append [] r d h = (refl, tt)
Distinct-append (x ∷ xs) r d h = (
  any-append x.queue_id xs r d.0
      (ground (arith, eq_iff x.queue_id r.queue_id, eq_iff r.queue_id x.queue_id)),
  Distinct-append xs r d.1 (ground arith),
)

any-filter :
    (key : String) (p : Row → Bool) (xs : List Row)
    → any (λ x. x.queue_id == key) xs ≡ false
    → any (λ x. x.queue_id == key) (filter p xs) ≡ false
any-filter key p [] h = refl
any-filter key p (x ∷ xs) h = ground (arith, any-filter key p xs (ground arith))

Distinct-filter : (p : Row → Bool) (xs : List Row) → Distinct xs → Distinct (filter p xs)
Distinct-filter p [] d = tt
Distinct-filter p (x ∷ xs) d = elim (Bool-cases (p x)) [
  | inl e ↦ rw e (any-filter x.queue_id p xs d.0, Distinct-filter p xs d.1)
  | inr e ↦ rw e (Distinct-filter p xs d.1)
]

module _ (s : Store) (c : IsConsistent s) where
  drop_duplicates-IsConsistent :
      (key : Option String) → IsConsistent (record s { rows = drop_duplicates key s.rows })
  unfolding drop_duplicates
  drop_duplicates-IsConsistent none = c
  drop_duplicates-IsConsistent (some key) = elim (Bool-cases (key == "")) [
    | inl e ↦ rw e c
    | inr e ↦ rw e (record {
      columns = All-filter _ (λ r. not (is_pending_duplicate key r)) s.rows c.columns;
      pause = All-filter _ (λ r. not (is_pending_duplicate key r)) s.rows c.pause;
      keys = Distinct-filter (λ r. not (is_pending_duplicate key r)) s.rows c.keys;
    })
  ]

rate_limit-encode :
    (size : Payload → ℕ) (artifact : String) (p : Payload) (s : Store)
    → (encode_payload size artifact p s).1.rate_limit ≡ s.rate_limit
unfolding encode_payload
rate_limit-encode size artifact p s = ground arith

rate_limit-log :
    (op : OpType) (event id : String) (s : Store)
    → (log_row_event op event id s).rate_limit ≡ s.rate_limit
unfolding log_row_event
rate_limit-log op event id s = ground arith

-- a new row waits for the pause
initial-waits :
    (now : ℕ) (s : Store) → pause_end s.rate_limit ≤ initial_available_at now (load_paused_until s)
unfolding initial_available_at load_paused_until
initial-waits now s = ground arith

-- enqueue keeps the table consistent, whether it inserts the row or raises.
pub enqueue-IsConsistent :
    (size : Payload → ℕ) (artifact_id : String) (created_at now : ℕ) (q : Request) (s : Store)
    → IsConsistent s
    → IsConsistent (enqueue size artifact_id created_at now q s).1
enqueue-IsConsistent size artifact_id created_at now q s c =
    elim (Bool-cases (has_queue_id q.queue_id (drop_duplicates q.dedupe_key s.rows))) [
      | inl e ↦ rw (enqueue-taken size artifact_id created_at now q s e) c
      | inr e ↦
          let cleared = drop_duplicates-IsConsistent s c q.dedupe_key in
          let r = row_of size artifact_id created_at now q s in
          rw (enqueue-fresh size artifact_id created_at now q s e) (record {
            columns =
                rw rows-log_row_event
                  (All-append _ _ _ cleared.columns (unfold new_row in (refl, refl, refl), tt));
            pause =
                rw (rate_limit-log, rate_limit-encode, rows-log_row_event)
                  (All-append _ _ _ cleared.pause
                    (unfold new_row in (λ _. initial-waits now s), tt));
            keys = rw rows-log_row_event (Distinct-append _ r cleared.keys (unfold new_row in e));
          })
    ]
