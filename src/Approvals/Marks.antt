-- ===== src/Approvals/Marks.antt =====
-- What the operations of src/runtime/approval_store.py leave in the table.
use tele_cli.Prelude.{
  ℤ, ◌+◌, ◌≡◌, ◌≢◌, refl, ◌∙◌, sym, inl, inr, String, true, false, ◌||◌, none, List, [], ◌∷◌, ◌==◌,
  string_eq, int_eq, any, find, filter, map, length, arith, eq_iff, int_beq_iff, Bool-cases,
}
use tele_cli.Approvals.{
  ApprovalRecord, ParamsJson, Store, returned, marked_row, staled_row, read_found, read_rows,
  get_pending, mark, mark_all_pending_stale, has_status, has_request_id, is_pending_request,
  pending, order_rows,
}

module _ {P : Type 0} (now : String) (row : ApprovalRecord (ParamsJson P)) where
  staled-pending : has_status "pending" (staled_row now row) ≡ false
  unfolding staled_row
  staled-pending = elim (Bool-cases (row.status == "pending")) [ inl e ↦ rw e | inr e ↦ rw (e, e) ]

  staled-stale :
      has_status "stale" (staled_row now row) ≡ (has_status "pending" row || has_status "stale" row)
  unfolding staled_row
  staled-stale = elim (Bool-cases (row.status == "pending")) [ inl e ↦ rw e | inr e ↦ rw e ]

  pending-stale : has_status "pending" row ≡ true → has_status "stale" row ≡ false
  pending-stale e = rw ((eq_iff row.status "pending").0 e)

  marked-pending :
      (i : ℤ) (status : String)
      → (status == "pending") ≡ false
      → is_pending_request i (marked_row now i status row) ≡ false
  unfolding marked_row
  marked-pending i status n = elim (Bool-cases (row.request_id == i)) [
    | inl e ↦ rw (e, n, e)
    | inr e ↦ rw (e, e)
  ]

  other-id : (i j : ℤ) → j ≢ i → (row.request_id == i) ≡ true → (row.request_id == j) ≡ false
  other-id i j n e = elim (Bool-cases (row.request_id == j)) [
    | inl q ↦
        absurd (n (sym ((int_beq_iff row.request_id j).0 q) ∙ (int_beq_iff row.request_id i).0 e))
    | inr q ↦ q
  ]

  marked-other :
      (i j : ℤ) (status : String)
      → j ≢ i
      → (is_pending_request j row ≡ true → marked_row now i status row ≡ row)
        × (is_pending_request j (marked_row now i status row) ≡ is_pending_request j row)
  unfolding marked_row
  marked-other i j status n = elim (Bool-cases (row.request_id == i)) [
    | inl e ↦ let off = other-id i j n e in ((λ h. ground (arith, h, off)), rw (e, off))
    | inr e ↦ rw e ((λ h. refl), refl)
  ]

module _ {P : Type 0} (now : String) where
  none-pending :
      (rows : List (ApprovalRecord (ParamsJson P)))
      → filter (has_status "pending") (map (staled_row now) rows) ≡ []
  none-pending [] = refl
  none-pending (row ∷ rows) = ground (arith, none-pending rows, staled-pending now row)

  count-stale :
      (rows : List (ApprovalRecord (ParamsJson P)))
      → length (filter (has_status "stale") (map (staled_row now) rows))
        ≡ length (filter (has_status "pending") rows) + length (filter (has_status "stale") rows)
  count-stale [] = refl
  count-stale (row ∷ rows) =
      ground (arith, count-stale rows, staled-stale now row, pending-stale now row)

  marked-found :
      (i : ℤ) (status : String) (rows : List (ApprovalRecord (ParamsJson P)))
      → (status == "pending") ≡ false
      → find (is_pending_request i) (map (marked_row now i status) rows) ≡ none
  marked-found i status [] n = refl
  marked-found i status (row ∷ rows) n =
      ground (arith, marked-found i status rows n, marked-pending now row i status n)

  marked-others :
      (i j : ℤ) (status : String) (rows : List (ApprovalRecord (ParamsJson P)))
      → j ≢ i
      → find (is_pending_request j) (map (marked_row now i status) rows)
        ≡ find (is_pending_request j) rows
  marked-others i j status [] n = refl
  marked-others i j status (row ∷ rows) n =
      ground (arith, marked-others i j status rows n, marked-other now row i j status n)

  -- After mark with a status other than pending the request is not pending, and every other pending
  -- request is found as before. Where the request is unknown, mark returns None and changes nothing.
  pub mark-get_pending :
      (i : ℤ) (status : String) (store : Store P)
      → (status == "pending") ≡ false
      → let (result, after) = mark now i status store in
        (any (has_request_id i) store.rows ≡ true → get_pending i after ≡ returned none)
        × (any (has_request_id i) store.rows ≡ false → (result ≡ returned none) × (after ≡ store))
        × ((j : ℤ) → j ≢ i → get_pending j after ≡ get_pending j store)
  unfolding mark get_pending read_found
  mark-get_pending i status store n = elim (Bool-cases (any (has_request_id i) store.rows)) [
    | inl e ↦ rw e (
      (λ h. rw (marked-found i status store.rows n)),
      (λ h. ground (arith, h)),
      (λ j m. rw (marked-others i j status store.rows m)),
    )
    | inr e ↦ rw e ((λ h. ground (arith, h)), (λ h. (refl, refl)), (λ j m. refl))
  ]

  -- After mark_all_pending_stale no approval is pending, the stale ones are as many as both were before,
  -- and the number that it returns is that of the pending ones before.
  pub mark_all_pending_stale_lem :
      (store : Store P)
      → let (count, after) = mark_all_pending_stale now store in
        (pending after ≡ returned [])
        × (count ≡ length (filter (has_status "pending") store.rows))
        × (length (filter (has_status "stale") after.rows)
            ≡ count + length (filter (has_status "stale") store.rows))
        × (after.artifacts ≡ store.artifacts)
  unfolding mark_all_pending_stale pending order_rows read_rows
  mark_all_pending_stale_lem store =
      (rw (none-pending store.rows), refl, count-stale store.rows, refl)
