-- ===== src/Queue/Enqueue/Dedupe.antt =====
-- What enqueue of src/storage/telegram_queue.py does to the table.
use tele_cli.Prelude.{
  ℕ, ◌≡◌, refl, ◌↔◌, String, none, some, List, [], ◌∷◌, ◌++◌, Bool, true, false, not, ◌==◌,
  string_eq, option_eq, filter, arith, eq_refl, Bool-cases, inl, inr, beq_refl,
}
use tele_cli.Queue.Types.{Payload, OpType, Row, Store}
use tele_cli.Queue.Deliver.{loaded, decode_payload}
use tele_cli.Queue.Backoff.{load_paused_until, initial_available_at}
use tele_cli.Queue.Enqueue.{
  Request, encode_payload, drop_duplicates, is_pending_duplicate, new_row, has_queue_id, enqueue,
  log_row_event,
}

rows-encode_payload :
    (size : Payload → ℕ) (artifact : String) (p : Payload) (s : Store)
    → (encode_payload size artifact p s).1.rows ≡ s.rows
unfolding encode_payload
rows-encode_payload size artifact p s = ground arith

pub rows-log_row_event :
    (op : OpType) (event id : String) (s : Store) → (log_row_event op event id s).rows ≡ s.rows
unfolding log_row_event
rows-log_row_event op event id s = ground arith

module _ {ℓ} {A : Type ℓ} (p : A → Bool) where
  -- what is filtered out is not there
  filter-append :
      (xs : List A) (y : A) → p y ≡ true → filter p (filter (λ x. not (p x)) xs ++ y ∷ []) ≡ y ∷ []
  filter-append [] y h = rw h
  filter-append (x ∷ xs) y h = elim (Bool-cases (p x)) [
    | inl e ↦ rw e (filter-append xs y h)
    | inr e ↦ rw e (rw e (filter-append xs y h))
  ]

module _ (size : Payload → ℕ) (artifact_id : String) (created_at now : ℕ) (q : Request)
    (s : Store) where
  abbrev pub row_of : Row
  row_of =
      new_row q (encode_payload size artifact_id q.payload s).0 created_at
        (initial_available_at now (load_paused_until s))

  pub enqueue-taken :
      has_queue_id q.queue_id (drop_duplicates q.dedupe_key s.rows) ≡ true
      → enqueue size artifact_id created_at now q s ≡ (none, s)
  unfolding enqueue new_row
  enqueue-taken h = ground arith

  pub enqueue-fresh :
      has_queue_id q.queue_id (drop_duplicates q.dedupe_key s.rows) ≡ false
      → enqueue size artifact_id created_at now q s ≡ (
        some q.queue_id,
        log_row_event q.op_type "telegram.queue.enqueued" q.queue_id
            (record (encode_payload size artifact_id q.payload s).1 {
              rows = drop_duplicates q.dedupe_key s.rows ++ row_of ∷ [];
            }),
      )
  unfolding enqueue new_row
  enqueue-fresh h = ground arith

  -- An enqueue that raises an IntegrityError has changed nothing, and it does so exactly where a row
  -- that outlives the removal of pending duplicates has the new row's key.
  pub enqueue-none_iff :
      ((enqueue size artifact_id created_at now q s).0 ≡ none
        ↔ has_queue_id q.queue_id (drop_duplicates q.dedupe_key s.rows) ≡ true)
      × ((enqueue size artifact_id created_at now q s).0 ≡ none
          → (enqueue size artifact_id created_at now q s).1 ≡ s)
  enqueue-none_iff =
      elim (Bool-cases (has_queue_id q.queue_id (drop_duplicates q.dedupe_key s.rows))) [
        | inl e ↦ rw (enqueue-taken e) (((λ _. e), (λ _. refl)), (λ _. refl))
        | inr e ↦
            rw (enqueue-fresh e) (((λ h. ground arith), (λ h. ground arith)), (λ h. ground arith))
      ]

  -- After an enqueue with a dedupe key, the queued rows with that key are exactly the new row.
  pub enqueue-single :
      (key : String)
      → q.dedupe_key ≡ some key
      → (key == "") ≡ false
      → (enqueue size artifact_id created_at now q s).0 ≡ some q.queue_id
      → filter (is_pending_duplicate key) (enqueue size artifact_id created_at now q s).1.rows
        ≡ row_of ∷ []
  enqueue-single key k nonempty h =
      elim (Bool-cases (has_queue_id q.queue_id (drop_duplicates q.dedupe_key s.rows))) [
        | inl e ↦ ground (arith, enqueue-taken e)
        | inr e ↦
            rw (enqueue-fresh e, rows-log_row_event, k)
              (unfold drop_duplicates new_row in
                rw nonempty
                  (filter-append (is_pending_duplicate key) s.rows _ (rw (beq_refl key) refl)))
      ]

-- What enqueue stores in payload_json is read back as the payload, whether it was kept in the row or
-- written to an artifact.
pub decode-encode :
    (size : Payload → ℕ) (artifact_id : String) (p : Payload) (s : Store)
    → let (document, t) = encode_payload size artifact_id p s in
      decode_payload t document ≡ loaded p
unfolding encode_payload decode_payload
decode-encode size artifact_id p s = ground (arith, eq_refl artifact_id)
