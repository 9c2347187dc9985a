-- ===== src/Approvals/Saved.antt =====
-- src/runtime/approval_store.py: how the store takes approvals, add and save.
use tele_cli.Prelude.{
  ℕ, String, List, [], ◌∷◌, ◌++◌, ◌==◌, string_eq, int_eq, any, map, leb, if◌then◌else◌,
}
use tele_cli.Approvals.{
  ApprovalRecord, ParamsJson, inline, reference, Store, has_request_id, general_payload_limit_bytes,
}

module _ {P : Type 0} where
  -- the values of _upsert
  unfoldable pub approval_values : ApprovalRecord P → ParamsJson P → ApprovalRecord (ParamsJson P)
  approval_values approval params_json = record {
    request_id = approval.request_id;
    method = approval.method;
    params = params_json;
    status = approval.status;
    created_at = approval.created_at;
    updated_at = approval.updated_at;
    session_id = approval.session_id;
    thread_id = approval.thread_id;
    turn_id = approval.turn_id;
    trace_id = approval.trace_id;
    resolved_at = approval.resolved_at;
  }

  -- INSERT … ON CONFLICT(request_id) DO UPDATE of every other column
  unfoldable pub upsert_row :
      ApprovalRecord (ParamsJson P)
      → List (ApprovalRecord (ParamsJson P))
      → List (ApprovalRecord (ParamsJson P))
  upsert_row row rows =
      if any (has_request_id row.request_id) rows
      then map (λ r. if r.request_id == row.request_id then row else r) rows
      else rows ++ row ∷ []

-- `size` is the length of json_dumps(params) in UTF-8
module _ {P : Type 0} (size : P → ℕ) where
  -- _serialize_params; `artifact_id` is the uuid4 of a new artifact
  unfoldable pub serialize_params :
      (artifact_id : String) → P → List (String × P) → ParamsJson P × List (String × P)
  serialize_params artifact_id params artifacts =
      if leb (size params) general_payload_limit_bytes
      then (inline params, artifacts)
      else (reference artifact_id, (artifact_id, params) ∷ artifacts)

  -- _upsert, and add
  unfoldable pub add : (artifact_id : String) → ApprovalRecord P → Store P → Store P
  unfolding serialize_params upsert_row approval_values
  add artifact_id approval store =
      let (params_json, artifacts) = serialize_params artifact_id approval.params store.artifacts in
      record {
        rows = upsert_row (approval_values approval params_json) store.rows;
        artifacts = artifacts;
      }

  unfoldable pub add_each : List (String × ApprovalRecord P) → Store P → Store P
  unfolding add
  add_each [] store = store
  add_each ((artifact_id, approval) ∷ rest) store = add_each rest (add artifact_id approval store)

  -- save, with the id of the artifact that each approval may need
  unfoldable pub save : List (String × ApprovalRecord P) → Store P → Store P
  unfolding add_each
  save approvals store = add_each approvals (record store { rows = [] })
