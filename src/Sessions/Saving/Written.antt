-- ===== src/Sessions/Saving/Written.antt =====
-- Where src/runtime/session_store.py writes every session back, the write succeeds.
use mathlib.Core.List.{Memᴰ}
use tele_cli.Prelude.{
  ◌≡◌, refl, sym, subst, ◌∙◌, ◌⊎◌, inl, inr, String, Bool, true, false, not, ◌&&◌, Option, none,
  some, List, [], ◌∷◌, ◌==◌, string_eq, any, map, All, All-mono, All-filter, arith, eq_iff,
  beq_refl,
}
use tele_cli.Models.{SessionRecord}
use tele_cli.Sessions.Types.{Tables, Workspace, order_rows, is_referenced}
use tele_cli.Sessions.Rows.{load, bind_session, upsert_session}
use tele_cli.Sessions.Upserts.{upsert_row-All}
use tele_cli.Sessions.Detached.{ordered-All}
use tele_cli.Sessions.Saving.{is_dropped, upsert_all, save}

-- one of the sessions has this id
abbrev has_one : List SessionRecord → SessionRecord → Bool
has_one sessions r = any (λ s. s.session_id == r.session_id) sessions

Mem-has_one :
    (f : SessionRecord → SessionRecord) (rows : List SessionRecord) (r : SessionRecord)
    → ((s : SessionRecord) → (f s).session_id ≡ s.session_id)
    → Memᴰ r rows
    → has_one (map f rows) r ≡ true
Mem-has_one f [] r same m = elim m [ ]
Mem-has_one f (s ∷ rows) r same (Memᴰ.head e) =
    rw (same s, e) (ground (arith, beq_refl s.session_id))
Mem-has_one f (s ∷ rows) r same (Memᴰ.tail m) = ground (arith, Mem-has_one f rows r same m)

has_one-map :
    (g : SessionRecord → SessionRecord) (xs : List SessionRecord) (r : SessionRecord)
    → ((s : SessionRecord) → (g s).session_id ≡ s.session_id)
    → has_one (map g xs) r ≡ has_one xs r
has_one-map g [] r same = refl
has_one-map g (x ∷ xs) r same = rw (same x, has_one-map g xs r same)

module _ (P : SessionRecord → Type 0) (now : String) where
  -- a row that is to be written, or is right
  OrWritten : List SessionRecord → SessionRecord → Type 0
  OrWritten sessions r = (has_one sessions r ≡ true) ⊎ P r

  upsert_all-All :
      (sessions : List SessionRecord) (t : Tables)
      → All P sessions
      → All (OrWritten sessions) t.sessions
      → All P (upsert_all now sessions t).sessions
  unfolding upsert_all OrWritten
  upsert_all-All [] t p h =
      All-mono (OrWritten []) P t.sessions
        (λ r w. elim w [ inl e ↦ absurd (ground (arith, e)) | inr q ↦ q ]) h
  upsert_all-All (s ∷ sessions) t p h = upsert_all-All sessions (upsert_session now s t) p.1 (
      upsert_row-All (OrWritten sessions) s t.sessions (inr p.0) (
        All-mono (OrWritten (s ∷ sessions)) _ t.sessions
          (λ r w n. elim w [
            | inl e ↦ inl (
                ground (
                  arith,
                  e,
                  eq_iff s.session_id r.session_id,
                  λ (q : s.session_id ≡ r.session_id). n (sym q),
                ))
            | inr q ↦ inr q
          ])
          h))

any-none {ℓ} :
    {A : Type ℓ} (p : A → Bool) (xs : List A) → All (λ x. p x ≡ false) xs → any p xs ≡ false
any-none p [] h = refl
any-none p (x ∷ xs) h = rw (h.0, any-none p xs h.1)

module _ (resolve : Option String → SessionRecord → Workspace) (utc_now : String)
    (f : SessionRecord → SessionRecord)
    (same : (s : SessionRecord) → (f s).session_id ≡ s.session_id) (t : Tables) where
  -- the whole table is in the list, so nothing is dropped
  kept-All : All (λ r. is_dropped (map (λ s. s.session_id) (map f (load t))) t r ≡ false) t.sessions
  unfolding load is_dropped
  kept-All =
      All-mono (λ r. Memᴰ r (order_rows t.sessions)) _ t.sessions
        (λ r m.
          rw
            (any-ids (map f (order_rows t.sessions)) r
              ∙ Mem-has_one f (order_rows t.sessions) r same m)
            refl)
        (ordered-All t.sessions)
    where
      any-ids :
          (xs : List SessionRecord) (r : SessionRecord)
          → any (λ i. i == r.session_id) (map (λ s. s.session_id) xs) ≡ has_one xs r
      any-ids [] r = refl
      any-ids (x ∷ xs) r = rw (any-ids xs r)

  written-All :
      (P : SessionRecord → Type 0)
      → All
          (OrWritten P utc_now (map (λ s. bind_session (resolve none s) none s) (map f (load t))))
          t.sessions
  unfolding OrWritten load bind_session
  written-All P =
      All-mono (λ r. Memᴰ r (order_rows t.sessions)) _ t.sessions
        (λ r m. inl (
          has_one-map (λ s. bind_session (resolve none s) none s) (map f (order_rows t.sessions)) r
            (λ s. refl)
          ∙ Mem-has_one f (order_rows t.sessions) r same m))
        (ordered-All t.sessions)

-- Where every session of the store is written back, changed by f, the write succeeds, and every row is one of them.
pub save-All :
    (resolve : Option String → SessionRecord → Workspace) (utc_now : String)
    (f : SessionRecord → SessionRecord) (P : SessionRecord → Type 0) (t : Tables)
    → ((s : SessionRecord) → (f s).session_id ≡ s.session_id)
    → All P (map (λ s. bind_session (resolve none s) none s) (map f (load t)))
    → (after : Tables) × (save resolve utc_now (map f (load t)) t ≡ some after)
      × All P after.sessions
unfolding save
save-All resolve utc_now f P t same p =
    let ids = map (λ s. s.session_id) (map f (load t)) in
    let none_gone = kept-All resolve utc_now f same t in
    rw
      (any-none (λ s. is_dropped ids t s && is_referenced t.outbound_queue s.session_id) t.sessions
        (All-mono (λ r. is_dropped ids t r ≡ false) _ t.sessions (λ r e. rw e) none_gone))
      (
        _,
        refl,
        upsert_all-All P utc_now _ _ p (
            All-filter _ (λ s. not (is_dropped ids t s)) t.sessions
              (written-All resolve utc_now f same t P)),
      )

pub All-Mem {ℓ} : {A : Type ℓ} (P : A → Type 0) (xs : List A) (x : A) → All P xs → Memᴰ x xs → P x
All-Mem P [] x p m = elim m [ ]
All-Mem P (y ∷ xs) x p (Memᴰ.head e) = subst P (sym e) p.0
All-Mem P (y ∷ xs) x p (Memᴰ.tail m) = All-Mem P xs x p.1 m
