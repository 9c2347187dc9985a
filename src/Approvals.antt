-- ===== src/Approvals.antt =====
-- src/runtime/approval_store.py: the questions of the agent that wait for the operator's answer.
pub mod Saved
pub mod Marks
pub mod Added
mod Examples
use tele_cli.Prelude.{
  ℕ, ℤ, String, Bool, true, false, ◌||◌, ◌&&◌, Option, none, some, List, [], ◌∷◌, ◌++◌, ◌==◌,
  string_eq, int_eq, any, find, filter, map, leb, length, if◌then◌else◌, pos, negsuc,
}
use Prim.Native.Nat.{Ordering}
use Prim.Native.String.{compare}

-- GENERAL_PAYLOAD_LIMIT_BYTES of src/storage/payloads.py
abbrev pub general_payload_limit_bytes : ℕ
general_payload_limit_bytes = 8192

-- ApprovalRecord; the params stand in it as a dict, of the type P
pub record ApprovalRecord (P : Type 0) : Type 0 where
  pub request_id : ℤ
  pub method : String
  pub params : P
  pub status : String
  pub created_at : String
  pub updated_at : String
  pub session_id : Option String
  pub thread_id : Option String
  pub turn_id : Option String
  pub trace_id : Option String
  pub resolved_at : Option String

-- the column params_json: the JSON of the params, or of a reference to an artifact
pub data ParamsJson (P : Type 0) : Type 0 where
  inline : P → ParamsJson P
  reference : (artifact_id : String) → ParamsJson P

-- the table approvals, whose rows have params_json for params, and the artifacts that it refers to
pub record Store (P : Type 0) : Type 0 where
  pub rows : List (ApprovalRecord (ParamsJson P))
  pub artifacts : List (String × P)

int_leb : ℤ → ℤ → Bool
int_leb (pos a) (pos b) = leb a b
int_leb (pos a) (negsuc b) = false
int_leb (negsuc a) (pos b) = true
int_leb (negsuc a) (negsuc b) = leb b a

module _ {P : Type 0} where
  -- ORDER BY created_at, request_id
  unfoldable pub is_ordered : ApprovalRecord P → ApprovalRecord P → Bool
  unfolding int_leb
  is_ordered a b = elim (compare a.created_at b.created_at) [
    | Ordering.lt ↦ true
    | Ordering.gt ↦ false
    | Ordering.eq ↦ int_leb a.request_id b.request_id
  ]

  unfoldable pub insert_ordered :
      ApprovalRecord P → List (ApprovalRecord P) → List (ApprovalRecord P)
  unfolding is_ordered
  insert_ordered a [] = a ∷ []
  insert_ordered a (b ∷ bs) =
      let rest = insert_ordered a bs in if is_ordered a b then a ∷ b ∷ bs else b ∷ rest

  unfoldable pub order_rows : List (ApprovalRecord P) → List (ApprovalRecord P)
  unfolding insert_ordered
  order_rows [] = []
  order_rows (a ∷ bs) = insert_ordered a (order_rows bs)

  abbrev pub has_request_id : ℤ → ApprovalRecord P → Bool
  has_request_id request_id a = a.request_id == request_id

  abbrev pub has_status : String → ApprovalRecord P → Bool
  has_status status a = a.status == status

-- a value that is returned, or the FileNotFoundError of an artifact whose file is missing
pub data Result (A : Type 0) : Type 0 where
  returned : A → Result A
  raised : Result A

-- UPDATE approvals SET status = ?, updated_at = ?, resolved_at = ? WHERE request_id = ?
unfoldable pub marked_row :
    {P : Type 0} (now : String) (request_id : ℤ) (status : String)
    → ApprovalRecord P
    → ApprovalRecord P
marked_row now request_id status row =
    if row.request_id == request_id
    then record row {
      status = status;
      updated_at = now;
      resolved_at = if status == "pending" || status == "stale" then none else some now;
    }
    else row

-- UPDATE approvals SET status = 'stale', updated_at = ? WHERE status = 'pending'
unfoldable pub staled_row : {P : Type 0} (now : String) → ApprovalRecord P → ApprovalRecord P
staled_row now row =
    if row.status == "pending" then record row { status = "stale"; updated_at = now } else row

module _ {P : Type 0} where
  -- ApprovalStore._deserialize_params
  unfoldable pub deserialize_params : List (String × P) → ParamsJson P → Result P
  deserialize_params artifacts (inline p) = returned p
  deserialize_params [] (reference i) = raised
  deserialize_params ((j, p) ∷ artifacts) (reference i) =
      let rest = deserialize_params artifacts (reference i) in if j == i then returned p else rest

  -- _row_to_record, with the params that are read
  unfoldable pub row_to_record : ApprovalRecord (ParamsJson P) → P → ApprovalRecord P
  row_to_record row params = record {
    request_id = row.request_id;
    method = row.method;
    params = params;
    status = row.status;
    created_at = row.created_at;
    updated_at = row.updated_at;
    session_id = row.session_id;
    thread_id = row.thread_id;
    turn_id = row.turn_id;
    trace_id = row.trace_id;
    resolved_at = row.resolved_at;
  }

  unfoldable pub read_row :
      List (String × P) → ApprovalRecord (ParamsJson P) → Result (ApprovalRecord P)
  unfolding row_to_record deserialize_params
  read_row artifacts row = elim (deserialize_params artifacts row.params) [
    | returned p ↦ returned (row_to_record row p)
    | raised ↦ raised
  ]

  unfoldable pub add_read :
      Result (ApprovalRecord P)
      → Result (List (ApprovalRecord P))
      → Result (List (ApprovalRecord P))
  add_read raised rest = raised
  add_read (returned a) raised = raised
  add_read (returned a) (returned bs) = returned (a ∷ bs)

  -- [self._row_to_record(row, ...) for row in rows]
  unfoldable pub read_rows :
      List (String × P) → List (ApprovalRecord (ParamsJson P)) → Result (List (ApprovalRecord P))
  unfolding read_row add_read
  read_rows artifacts [] = returned []
  read_rows artifacts (row ∷ rows) = add_read (read_row artifacts row) (read_rows artifacts rows)

  -- load
  unfoldable pub load : Store P → Result (List (ApprovalRecord P))
  unfolding read_rows order_rows
  load store = read_rows store.artifacts (order_rows store.rows)

  -- pending
  unfoldable pub pending : Store P → Result (List (ApprovalRecord P))
  unfolding read_rows order_rows
  pending store = read_rows store.artifacts (order_rows (filter (has_status "pending") store.rows))

  -- stale
  unfoldable pub stale : Store P → Result (List (ApprovalRecord P))
  unfolding read_rows order_rows
  stale store = read_rows store.artifacts (order_rows (filter (has_status "stale") store.rows))

  unfoldable pub read_found :
      List (String × P)
      → Option (ApprovalRecord (ParamsJson P))
      → Result (Option (ApprovalRecord P))
  unfolding read_row
  read_found artifacts none = returned none
  read_found artifacts (some row) = elim (read_row artifacts row) [
    | returned a ↦ returned (some a)
    | raised ↦ raised
  ]

  -- WHERE request_id = ? AND status = 'pending'
  abbrev pub is_pending_request : ℤ → ApprovalRecord (ParamsJson P) → Bool
  is_pending_request request_id row = row.request_id == request_id && row.status == "pending"

  -- get_pending
  unfoldable pub get_pending : (request_id : ℤ) → Store P → Result (Option (ApprovalRecord P))
  unfolding read_found
  get_pending request_id store =
      read_found store.artifacts (find (is_pending_request request_id) store.rows)

  -- mark: what it returns and the store; the update is committed before the params are read
  unfoldable pub mark :
      (now : String)
      → (request_id : ℤ) → (status : String) → Store P
      → Result (Option (ApprovalRecord P)) × Store P
  unfolding read_found marked_row
  mark now request_id status store =
      if any (has_request_id request_id) store.rows
      then (let rows = map (marked_row now request_id status) store.rows in
          (
            read_found store.artifacts (find (has_request_id request_id) rows),
            record store { rows = rows },
          ))
      else (returned none, store)

  -- mark_all_pending_stale: the number of rows and the store
  unfoldable pub mark_all_pending_stale : (now : String) → Store P → ℕ × Store P
  unfolding staled_row
  mark_all_pending_stale now store = (
    length (filter (has_status "pending") store.rows),
    record store { rows = map (staled_row now) store.rows },
  )
