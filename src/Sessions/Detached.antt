-- ===== src/Sessions/Detached.antt =====
-- src/runtime/session_store.py: the sessions that are attached while the loop of create_new_telegram_session detaches them.
use tele_cli.Prelude.{
  ◌≡◌, subst, refl, ◌≢◌, sym, ap, inl, inr, String, Bool, true, false, ◌&&◌, Option, none, some,
  List, [], ◌∷◌, string_eq, All, All-filter, All-mono, arith, if◌then◌else◌, Bool-cases, WhenSome,
}
use mathlib.Core.List.{Memᴰ}
use tele_cli.Models.{SessionRecord}
use tele_cli.Sessions.Types.{Tables, Workspace, insert_ordered, order_rows, is_ordered}
use tele_cli.Sessions.Rows.{
  save_session, saved_row, upsert_session, log_event, delete_prunable_session_ids,
}
use tele_cli.Sessions.Upserts.{upsert_row-All, saved_row_lem}
use tele_cli.Sessions.Telegram.{detach_matching}

-- a session that is attached and matches
abbrev pub is_open : (SessionRecord → Bool) → SessionRecord → Bool
is_open is_match s = is_match s && s.attached

-- no attached session matches but the one with this id
unfoldable pub Only : (SessionRecord → Bool) → String → List SessionRecord → Type 0
Only is_match i rows = All (λ s. is_open is_match s ≡ true → s.session_id ≡ i) rows

unfoldable pub Left : (SessionRecord → Bool) → List SessionRecord → List SessionRecord → Type 0
Left is_match rest rows = All (λ s. is_open is_match s ≡ true → Memᴰ s rest) rows

grown-Memᴰ :
    (x y : SessionRecord) (rows : List SessionRecord) → Memᴰ x rows → Memᴰ x (insert_ordered y rows)
unfolding insert_ordered
grown-Memᴰ x y [] m = Memᴰ.tail m
grown-Memᴰ x y (r ∷ rows) m = elim (Bool-cases (is_ordered y r)) [
  | inl e ↦ rw e (Memᴰ.tail m)
  | inr e ↦
      rw e (elim m [ Memᴰ.head h ↦ Memᴰ.head h | Memᴰ.tail n ↦ Memᴰ.tail (grown-Memᴰ x y rows n) ])
]

inserted-Memᴰ : (x : SessionRecord) (rows : List SessionRecord) → Memᴰ x (insert_ordered x rows)
unfolding insert_ordered
inserted-Memᴰ x [] = Memᴰ.head refl
inserted-Memᴰ x (r ∷ rows) = elim (Bool-cases (is_ordered x r)) [
  | inl e ↦ rw e (Memᴰ.head refl)
  | inr e ↦ rw e (Memᴰ.tail (inserted-Memᴰ x rows))
]

pub ordered-All : (rows : List SessionRecord) → All (λ s. Memᴰ s (order_rows rows)) rows
unfolding order_rows
ordered-All [] = tt
ordered-All (s ∷ rows) = (
  inserted-Memᴰ s (order_rows rows),
  All-mono (λ x. Memᴰ x (order_rows rows)) (λ x. Memᴰ x (insert_ordered s (order_rows rows))) rows
      (λ x m. grown-Memᴰ x s (order_rows rows) m) (ordered-All rows),
)

if-WhenSome :
    (P : SessionRecord → Type 0) (b : Bool) (t : Tables)
    → All P t.sessions
    → WhenSome (λ after. All P after.sessions) (if b then none else some t)
if-WhenSome P true t h = tt
if-WhenSome P false t h = h

delete-All :
    (P : SessionRecord → Type 0) (ids : List String) (t : Tables)
    → All P t.sessions
    → WhenSome (λ after. All P after.sessions) (delete_prunable_session_ids ids t)
unfolding delete_prunable_session_ids
delete-All P [] t h = h
delete-All P (i ∷ ids) t h = if-WhenSome P _ _ (All-filter P _ t.sessions h)

pub delete-Left :
    (is_match : SessionRecord → Bool) (ids : List String) (t : Tables)
    → Left is_match [] t.sessions
    → WhenSome (λ after. Left is_match [] after.sessions) (delete_prunable_session_ids ids t)
unfolding Left
delete-Left is_match ids t h = delete-All (λ s. is_open is_match s ≡ true → Memᴰ s []) ids t h

pub ordered-Left :
    (is_match : SessionRecord → Bool) (rows : List SessionRecord)
    → Left is_match (order_rows rows) rows
unfolding Left
ordered-Left is_match rows =
    All-mono (λ x. Memᴰ x (order_rows rows))
      (λ x. is_open is_match x ≡ true → Memᴰ x (order_rows rows)) rows (λ x m o. m)
      (ordered-All rows)

module _ (resolve : Option String → SessionRecord → Workspace) (now : String)
    (is_match : SessionRecord → Bool) where
  pub save-All :
      (P : SessionRecord → Type 0) (s : SessionRecord) (t : Tables)
      → P (saved_row resolve now s t)
      → All (λ r. r.session_id ≢ s.session_id → P r) t.sessions
      → All P (save_session resolve now s t).sessions
  unfolding save_session upsert_session
  save-All P s t p h = upsert_row-All P (saved_row resolve now s t) t.sessions p (
      subst (λ i. All (λ r. r.session_id ≢ i → P r) t.sessions)
        (sym (saved_row_lem resolve now s t).1) h)

  detach_one :
      (s : SessionRecord) (rest : List SessionRecord) (t : Tables)
      → Left is_match (s ∷ rest) t.sessions
      → Left is_match rest (save_session resolve now (record s { attached = false }) t).sessions
  unfolding Left
  detach_one s rest t h =
      let off = record s { attached = false } in
      save-All (λ r. is_open is_match r ≡ true → Memᴰ r rest) off t
        (λ o. ground (arith, o, (saved_row_lem resolve now off t).3))
        (All-mono (λ r. is_open is_match r ≡ true → Memᴰ r (s ∷ rest))
          (λ r. r.session_id ≢ s.session_id → is_open is_match r ≡ true → Memᴰ r rest) t.sessions
          (λ r m n o. elim (m o) [
            | Memᴰ.head e ↦ absurd (n (ap (λ x. x.session_id) e))
            | Memᴰ.tail k ↦ k
          ])
          h)

  skip_one :
      (s : SessionRecord) (rest rows : List SessionRecord)
      → is_match s ≡ false
      → Left is_match (s ∷ rest) rows
      → Left is_match rest rows
  unfolding Left
  skip_one s rest rows e h =
      All-mono (λ r. is_open is_match r ≡ true → Memᴰ r (s ∷ rest))
        (λ r. is_open is_match r ≡ true → Memᴰ r rest) rows
        (λ r m o. elim (m o) [
          | Memᴰ.head q ↦ absurd (ground (arith, e, o, ap is_match q))
          | Memᴰ.tail k ↦ k
        ])
        h

  pub detach_matching-Left :
      (rest : List SessionRecord) (t : Tables)
      → Left is_match rest t.sessions
      → Left is_match [] (detach_matching resolve now is_match rest t).sessions
  unfolding detach_matching log_event
  detach_matching-Left [] t h = h
  detach_matching-Left (s ∷ rest) t h = elim (Bool-cases (is_match s)) [
    | inl e ↦ rw (e, detach_matching) (detach_matching-Left rest _ (detach_one s rest t h))
    | inr e ↦ rw (e, detach_matching) (detach_matching-Left rest t (skip_one s rest t.sessions e h))
  ]
