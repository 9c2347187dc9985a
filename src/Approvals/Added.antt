-- ===== src/Approvals/Added.antt =====
-- An approval that add of src/runtime/approval_store.py writes is read back.
use tele_cli.Prelude.{
  ℕ, ◌≡◌, ◌∙◌, ap, inl, inr, String, true, false, some, List, [], ◌∷◌, ◌++◌, ◌==◌, string_eq,
  int_eq, any, find, map, leb, if◌then◌else◌, arith, eq_iff, Bool-cases, beq_refl,
}
use tele_cli.Approvals.{
  ApprovalRecord, ParamsJson, reference, Store, returned, deserialize_params, row_to_record,
  read_row, read_found, get_pending, has_status, has_request_id, is_pending_request,
}
use tele_cli.Approvals.Saved.{serialize_params, approval_values, upsert_row, add}

module _ {P : Type 0} (row : ApprovalRecord (ParamsJson P))
    (h : has_status "pending" row ≡ true) where
  is_pending_request-own : is_pending_request row.request_id row ≡ true
  is_pending_request-own = rw (beq_refl row.request_id, h)

  found-replaced :
      (rows : List (ApprovalRecord (ParamsJson P)))
      → any (has_request_id row.request_id) rows ≡ true
      → find
          (is_pending_request row.request_id)
          (map (λ r. if r.request_id == row.request_id then row else r) rows)
        ≡ some row
  found-replaced [] e = ground (arith, e)
  found-replaced (r ∷ rows) e = ground (arith, e, found-replaced rows, is_pending_request-own)

  found-appended :
      (rows : List (ApprovalRecord (ParamsJson P)))
      → any (has_request_id row.request_id) rows ≡ false
      → find (is_pending_request row.request_id) (rows ++ row ∷ []) ≡ some row
  found-appended [] e = ground (arith, is_pending_request-own)
  found-appended (r ∷ rows) e = ground (arith, e, found-appended rows)

  found-upsert :
      (rows : List (ApprovalRecord (ParamsJson P)))
      → find (is_pending_request row.request_id) (upsert_row row rows) ≡ some row
  unfolding upsert_row
  found-upsert rows = elim (Bool-cases (any (has_request_id row.request_id) rows)) [
    | inl e ↦ rw e (found-replaced rows e)
    | inr e ↦ rw e (found-appended rows e)
  ]

module _ {P : Type 0} (size : P → ℕ) (artifact_id : String) (approval : ApprovalRecord P) where
  deserialize-head :
      (artifacts : List (String × P))
      → deserialize_params ((artifact_id, approval.params) ∷ artifacts) (reference artifact_id)
        ≡ returned approval.params
  unfolding deserialize_params
  deserialize-head artifacts = rw (beq_refl artifact_id)

  deserialize-serialize :
      (artifacts : List (String × P))
      → let (params_json, after) = serialize_params size artifact_id approval.params artifacts in
        deserialize_params after params_json ≡ returned approval.params
  unfolding deserialize_params serialize_params
  deserialize-serialize artifacts = elim (Bool-cases (leb (size approval.params) 8192)) [
    | inl e ↦ rw (e, serialize_params)
    | inr e ↦ rw (e, serialize_params) (deserialize-head artifacts)
  ]

  read-values :
      (artifacts : List (String × P)) (params_json : ParamsJson P)
      → deserialize_params artifacts params_json ≡ returned approval.params
      → read_found artifacts (some (approval_values approval params_json))
        ≡ returned (some approval)
  unfolding read_found read_row approval_values row_to_record
  read-values artifacts params_json e = rw e

  values-pending :
      (params_json : ParamsJson P)
      → approval.status ≡ "pending"
      → has_status "pending" (approval_values approval params_json) ≡ true
  unfolding approval_values
  values-pending params_json h = (eq_iff approval.status "pending").1 h

  -- A pending approval that is added is found under its id, with all its fields, whether its params
  -- are kept in the row or in an artifact.
  pub add-get_pending :
      (store : Store P)
      → approval.status ≡ "pending"
      → get_pending approval.request_id (add size artifact_id approval store)
        ≡ returned (some approval)
  unfolding get_pending add
  add-get_pending store h =
      let written = serialize_params size artifact_id approval.params store.artifacts in
      let row = approval_values approval written.0 in
      ap (read_found written.1) (found-upsert row (values-pending written.0 h) store.rows)
      ∙ read-values written.1 written.0 (deserialize-serialize store.artifacts)
