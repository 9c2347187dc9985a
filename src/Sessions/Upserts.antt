-- ===== src/Sessions/Upserts.antt =====
-- What save_session of src/runtime/session_store.py leaves in the table.
use tele_cli.Prelude.{
  ◌≡◌, subst, ◌∙◌, refl, ◌≢◌, ◌⊎◌, inl, inr, String, true, false, Option, none, some, List, [], ◌∷◌,
  ◌++◌, ◌==◌, string_eq, is_text, any, find, map, All, All-append, arith, eq_iff, eq_refl,
  if◌then◌else◌, Bool-cases,
}
use tele_cli.Models.{SessionRecord}
use tele_cli.Sessions.Types.{Tables, Workspace}
use tele_cli.Sessions.Rows.{
  has_session_id, lookup, adopt_thread, thread_of, without_turn, drop_turn, stabilize_session,
  bind_session, upsert_row, upsert_session, saved_row, save_session,
}

-- A session whose turn runs has a thread.
pub IsStable : SessionRecord → Type 0
IsStable s = is_text s.active_turn_id ≡ true → is_text s.thread_id ≡ true

without_turn_lem : (status : String) → (without_turn status == "RUNNING_TURN") ≡ false
unfolding without_turn
without_turn_lem status = elim (Bool-cases (status == "RUNNING_TURN")) [
  | inl e ↦ rw e
  | inr e ↦ rw (e, e)
]

drop_turn_lem :
    (s : SessionRecord)
    → let after = drop_turn s in
      IsStable after
      × (IsStable s → after ≡ s)
      × (is_text s.active_turn_id ≡ true
          → is_text s.thread_id ≡ false
          → (after.active_turn_id ≡ none) × ((after.status == "RUNNING_TURN") ≡ false))
      × (after.session_id ≡ s.session_id)
      × (after.transport ≡ s.transport)
      × (after.attached ≡ s.attached)
unfolding drop_turn IsStable
drop_turn_lem s = ground (arith, without_turn_lem s.status)

adopt_thread_lem :
    (s : SessionRecord) (existing : Option SessionRecord)
    → let after = adopt_thread s existing in
      (IsStable s → after ≡ s)
      × (is_text s.active_turn_id ≡ true
          → is_text s.thread_id ≡ false
          → ((is_text (thread_of existing) ≡ true) × (after.thread_id ≡ thread_of existing))
            ⊎ ((is_text (thread_of existing) ≡ false) × (after.thread_id ≡ s.thread_id)))
      × (after.active_turn_id ≡ s.active_turn_id)
      × (after.status ≡ s.status)
      × (after.session_id ≡ s.session_id)
      × (after.transport ≡ s.transport)
      × (after.attached ≡ s.attached)
unfolding adopt_thread IsStable
adopt_thread_lem s existing = elim (Bool-cases (is_text (thread_of existing))) [
  | inl e ↦ ground (arith, e)
  | inr e ↦ ground (arith, e)
]

module _ (s : SessionRecord) (existing : Option SessionRecord) where
  -- Where the turn of a session runs without a thread, stabilize_session takes the thread of the row in
  -- the table, if that has one, and otherwise drops the turn, so that the status is not RUNNING_TURN
  -- then. Every other session it leaves as it is. Hence the result always is stable; its id, its
  -- transport and whether it is attached are never changed.
  pub stabilize_session-IsStable :
      let after = stabilize_session s existing in
      IsStable after
      × (IsStable s → after ≡ s)
      × (is_text s.active_turn_id ≡ true
          → is_text s.thread_id ≡ false
          → ((is_text (thread_of existing) ≡ true)
              × (after.thread_id ≡ thread_of existing)
              × (after.active_turn_id ≡ s.active_turn_id)
              × (after.status ≡ s.status))
            ⊎ ((is_text (thread_of existing) ≡ false)
                × (after.active_turn_id ≡ none)
                × ((after.status == "RUNNING_TURN") ≡ false)))
      × (after.session_id ≡ s.session_id)
      × (after.transport ≡ s.transport)
      × (after.attached ≡ s.attached)
  unfolding stabilize_session IsStable
  stabilize_session-IsStable =
      ground (arith, adopt_thread_lem s existing, drop_turn_lem (adopt_thread s existing))

find-append-none :
    (i : String) (x : SessionRecord) (rows : List SessionRecord)
    → any (has_session_id i) rows ≡ false
    → find (has_session_id i) (rows ++ x ∷ []) ≡ find (has_session_id i) (x ∷ [])
find-append-none i x [] h = refl
find-append-none i x (r ∷ rows) h = ground (arith, h, find-append-none i x rows)

find-append-other :
    (i : String) (x : SessionRecord) (rows : List SessionRecord)
    → has_session_id i x ≡ false
    → find (has_session_id i) (rows ++ x ∷ []) ≡ find (has_session_id i) rows
find-append-other i x [] h = ground (arith, h)
find-append-other i x (r ∷ rows) h = ground (arith, find-append-other i x rows h)

abbrev replaced : SessionRecord → SessionRecord → SessionRecord
replaced s r = if r.session_id == s.session_id then s else r

find-replaced :
    (s : SessionRecord) (rows : List SessionRecord)
    → any (has_session_id s.session_id) rows ≡ true
    → find (has_session_id s.session_id) (map (replaced s) rows) ≡ some s
find-replaced s [] h = ground (arith, h)
find-replaced s (r ∷ rows) h = ground (arith, h, find-replaced s rows, eq_refl s.session_id)

find-replaced_other :
    (i : String) (s : SessionRecord) (rows : List SessionRecord)
    → i ≢ s.session_id
    → find (has_session_id i) (map (replaced s) rows) ≡ find (has_session_id i) rows
find-replaced_other i s [] n = refl
find-replaced_other i s (r ∷ rows) n = ground (
  arith,
  n,
  find-replaced_other i s rows n,
  eq_iff r.session_id s.session_id,
  eq_iff r.session_id i,
  eq_iff s.session_id i,
)

pub upsert_row-found :
    (s : SessionRecord) (rows : List SessionRecord)
    → lookup s.session_id (upsert_row s rows) ≡ some s
unfolding lookup upsert_row
upsert_row-found s rows = elim (Bool-cases (any (has_session_id s.session_id) rows)) [
  | inl e ↦ ground (arith, e, find-replaced s rows e)
  | inr e ↦ ground (arith, e, find-append-none s.session_id s rows e, eq_refl s.session_id)
]

pub upsert_row-others :
    (i : String) (s : SessionRecord) (rows : List SessionRecord)
    → i ≢ s.session_id
    → lookup i (upsert_row s rows) ≡ lookup i rows
unfolding lookup upsert_row
upsert_row-others i s rows n = elim (Bool-cases (any (has_session_id s.session_id) rows)) [
  | inl e ↦ ground (arith, e, find-replaced_other i s rows n)
  | inr e ↦ ground (arith, e, n, find-append-other i s rows, eq_iff s.session_id i)
]

module _ {κ} (P : SessionRecord → Type κ) where
  replaced-All :
      (s : SessionRecord) (rows : List SessionRecord)
      → P s
      → All (λ r. r.session_id ≢ s.session_id → P r) rows
      → All P (map (replaced s) rows)
  replaced-All s [] p h = tt
  replaced-All s (r ∷ rows) p h = (
    elim (Bool-cases (r.session_id == s.session_id)) [
      | inl e ↦ rw e p
      | inr e ↦ rw e (h.0 (λ q. ground (arith, e, q, eq_iff r.session_id s.session_id)))
    ],
    replaced-All s rows p h.1,
  )

  fresh-All :
      (s : SessionRecord) (rows : List SessionRecord)
      → any (has_session_id s.session_id) rows ≡ false
      → All (λ r. r.session_id ≢ s.session_id → P r) rows
      → All P rows
  fresh-All s [] e h = tt
  fresh-All s (r ∷ rows) e h = (
    h.0 (λ q. ground (arith, e, q, eq_iff r.session_id s.session_id)),
    fresh-All s rows (ground (arith, e)) h.1,
  )

  pub upsert_row-All :
      (s : SessionRecord) (rows : List SessionRecord)
      → P s
      → All (λ r. r.session_id ≢ s.session_id → P r) rows
      → All P (upsert_row s rows)
  unfolding upsert_row
  upsert_row-All s rows p h = elim (Bool-cases (any (has_session_id s.session_id) rows)) [
    | inl e ↦ rw e (replaced-All s rows p h)
    | inr e ↦ rw e (All-append P rows (s ∷ []) (fresh-All s rows e h) (p, tt))
  ]

module _ (resolve : Option String → SessionRecord → Workspace) (now : String) (s : SessionRecord)
    (t : Tables) where
  pub saved_row_lem :
      let row = saved_row resolve now s t in
      IsStable row
      × (row.session_id ≡ s.session_id)
      × (row.transport ≡ s.transport)
      × (row.attached ≡ s.attached)
  unfolding saved_row bind_session IsStable
  saved_row_lem =
      let st = stabilize_session-IsStable s (lookup s.session_id t.sessions) in
      (st.0, st.3, st.4, st.5)

  pub save_session-lookup :
      let after = save_session resolve now s t in
      let row = saved_row resolve now s t in
      (lookup s.session_id after.sessions ≡ some row)
      × ((i : String) → i ≢ s.session_id → lookup i after.sessions ≡ lookup i t.sessions)
      × IsStable row
      × (row.session_id ≡ s.session_id)
      × (row.transport ≡ s.transport)
      × (row.attached ≡ s.attached)
  unfolding save_session upsert_session
  save_session-lookup =
      let row = saved_row resolve now s t in
      let kept = saved_row_lem in
      (
        subst (λ i. lookup i (upsert_row row t.sessions) ≡ some row) kept.1
            (upsert_row-found row t.sessions),
        (λ i n. upsert_row-others i row t.sessions (λ e. n (e ∙ kept.1))),
        kept.0,
        kept.1,
        kept.2,
        kept.3,
      )
