-- ===== src/Approvals/Examples.antt =====
-- One question of the agent, asked, answered and given up.
use tele_cli.Prelude.{
  ◌≡◌, ◌≢◌, refl, pos, ℤ, String, true, false, none, some, [], ◌∷◌, any, string_eq,
}
use tele_cli.Approvals.{
  ApprovalRecord, Store, returned, get_pending, mark, mark_all_pending_stale, has_request_id, stale,
  read_rows, read_row, row_to_record, deserialize_params, staled_row, order_rows, add_read,
  insert_ordered,
}
use tele_cli.Approvals.Saved.{add, approval_values, upsert_row, serialize_params}
use tele_cli.Approvals.Marks.{mark-get_pending}

abbrev question : ApprovalRecord String
question = record {
  request_id = pos 4;
  method = "item/commandExecution/requestApproval";
  params = "{}";
  status = "pending";
  created_at = "2026-01-01T00:00:00+00:00";
  updated_at = "2026-01-01T00:00:00+00:00";
  session_id = some "s";
  thread_id = none;
  turn_id = none;
  trace_id = none;
  resolved_at = none;
}

abbrev no_questions : Store String
no_questions = record { rows = []; artifacts = [] }

-- a size beyond the limit, so that the params go to the artifact a
abbrev asked : Store String
asked = add (λ p. 9000) "a" question no_questions

any-asked : any (has_request_id (pos 4)) asked.rows ≡ true
unfolding add upsert_row approval_values serialize_params
any-asked = refl

mark-get_pending_example :
    let (result, after) = mark "later" (pos 4) "accepted" asked in
    (any (has_request_id (pos 4)) asked.rows ≡ true → get_pending (pos 4) after ≡ returned none)
    × (any (has_request_id (pos 4)) asked.rows ≡ false → (result ≡ returned none) × (after ≡ asked))
    × ((j : ℤ) → j ≢ pos 4 → get_pending j after ≡ get_pending j asked)
mark-get_pending_example = mark-get_pending "later" (pos 4) "accepted" asked refl

stale-asked :
    stale (mark_all_pending_stale "later" asked).1
    ≡ returned (record question { status = "stale"; updated_at = "later" } ∷ [])
unfolding stale mark_all_pending_stale add upsert_row approval_values serialize_params
    deserialize_params read_rows read_row row_to_record staled_row order_rows add_read
    insert_ordered
stale-asked = refl
