-- ===== src/Runs/Release.antt =====
-- What start of ServiceRunStore in src/storage/operations.py does to the queue.
use tele_cli.Prelude.{
  ℕ, ◌≡◌, refl, sym, ◌∙◌, String, Bool, true, false, not, ◌&&◌, ◌||◌, Option, none, some, List, [],
  ◌∷◌, ◌==◌, string_eq, any, map, arith, eq_iff, Bool-cases, eq_refl, subst, All-mono, map-All_eq,
  All-every, inl, inr, if◌then◌else◌, All,
}
use tele_cli.Queue.Types.{Status, Row}
use tele_cli.Runs.{
  Run, Tables, insert_run, is_claimed, add_stale, stale_run_ids, is_dead, dead_run_ids, release,
  same_holder, release_claims, release_each, start,
}

-- the claim of a row is void for the run that starts: nobody holds it, or a dead run but not this one
unfoldable pub is_void :
    (process_exists : ℕ → Bool) → List Run → (run_id : String) → Option String → Bool
is_void process_exists runs run_id none = true
is_void process_exists runs run_id (some i) = not (i == run_id) && is_dead process_exists runs i

-- what becomes of one row
unfoldable pub settled_row : (process_exists : ℕ → Bool) → List Run → (run_id : String) → Row → Row
unfolding is_void
settled_row process_exists runs run_id r =
    if is_claimed r.status && is_void process_exists runs run_id r.claimed_by_run_id
    then release r
    else r

abbrev contains : String → List String → Bool
contains i ids = any (λ j. i == j) ids

-- a holder is among these runs
held : List String → Option String → Bool
held ids none = false
held ids (some i) = contains i ids

release_row : List String → Row → Row
release_row ids r = if is_claimed r.status && held ids r.claimed_by_run_id then release r else r

held-cons :
    (i : String) (ids : List String) (h : Option String)
    → held (i ∷ ids) h ≡ (same_holder h (some i) || held ids h)
unfolding held
held-cons i ids none = refl
held-cons i ids (some j) = refl

held-nil : (h : Option String) → held [] h ≡ false
unfolding held
held-nil none = refl
held-nil (some j) = refl

release_row-nil : (r : Row) → r ≡ release_row [] r
unfolding release_row
release_row-nil r = ground (arith, held-nil r.claimed_by_run_id)

release_row-cons :
    (i : String) (ids : List String) (r : Row)
    → release_row ids
        (if is_claimed r.status && same_holder r.claimed_by_run_id (some i) then release r else r)
      ≡ release_row (i ∷ ids) r
unfolding release_row release
release_row-cons i ids r =
    elim (Bool-cases (is_claimed r.status && same_holder r.claimed_by_run_id (some i))) [
      | inl e ↦ rw e (ground (arith, e, held-cons i ids r.claimed_by_run_id))
      | inr e ↦ rw e (ground (arith, e, held-cons i ids r.claimed_by_run_id))
    ]

map-map : (f g : Row → Row) (rows : List Row) → map f (map g rows) ≡ map (λ r. f (g r)) rows
map-map f g [] = refl
map-map f g (r ∷ rows) = rw (map-map f g rows)

map_same : (rows : List Row) → map (release_row []) rows ≡ rows
map_same [] = refl
map_same (r ∷ rows) = rw (map_same rows, sym (release_row-nil r))

release_each-map :
    (ids : List String) (rows : List Row) → release_each ids rows ≡ map (release_row ids) rows
unfolding release_each release_claims
release_each-map [] rows = sym (map_same rows)
release_each-map (i ∷ ids) rows =
    release_each-map ids (release_claims (some i) rows)
    ∙ map-map (release_row ids) _ rows
    ∙ map-All_eq _ (release_row (i ∷ ids)) rows (All-every _ rows (release_row-cons i ids))

module _ (process_exists : ℕ → Bool) (runs : List Run) where
  dead-same :
      {i j : String} (ids : List String)
      → i ≡ j
      → contains i (dead_run_ids process_exists runs ids)
        ≡ (contains i ids && is_dead process_exists runs i)
      → contains i (dead_run_ids process_exists runs (j ∷ ids))
        ≡ (contains i (j ∷ ids) && is_dead process_exists runs i)
  unfolding dead_run_ids
  dead-same {i} ids e h =
      subst
        (λ k.
          contains i (dead_run_ids process_exists runs (k ∷ ids))
          ≡ (contains i (k ∷ ids) && is_dead process_exists runs i))
        e (ground (arith, h, eq_refl i))

  contains-dead :
      (i : String) (ids : List String)
      → contains i (dead_run_ids process_exists runs ids)
        ≡ (contains i ids && is_dead process_exists runs i)
  unfolding dead_run_ids
  contains-dead i [] = refl
  contains-dead i (j ∷ ids) = elim (Bool-cases (i == j)) [
    | inl e ↦ dead-same ids ((eq_iff i j).0 e) (contains-dead i ids)
    | inr e ↦ ground (arith, contains-dead i ids, e)
  ]

module _ (run_id : String) where
  add_stale-own :
      (status : Status) (h : Option String) (ids : List String)
      → contains run_id ids ≡ false
      → contains run_id (add_stale run_id status h ids) ≡ false
  unfolding add_stale
  add_stale-own status none ids e = e
  add_stale-own status (some i) ids e = ground (arith, e, eq_iff run_id i, eq_iff i run_id)

  contains-stale_own : (rows : List Row) → contains run_id (stale_run_ids run_id rows) ≡ false
  unfolding stale_run_ids
  contains-stale_own [] = refl
  contains-stale_own (r ∷ rows) =
      add_stale-own r.status r.claimed_by_run_id (stale_run_ids run_id rows)
        (contains-stale_own rows)

  -- the claim of another run is among the stale ones
  Covered : List String → Status → Option String → Type 0
  Covered ids status none = Unit
  Covered ids status (some i) =
      is_claimed status ≡ true → (i == run_id) ≡ false → contains i ids ≡ true

  add_stale-Covered :
      (st status : Status) (g h : Option String) (ids : List String)
      → Covered ids status h
      → Covered (add_stale run_id st g ids) status h
  unfolding Covered add_stale
  add_stale-Covered st status g none ids c = tt
  add_stale-Covered st status none (some i) ids c = c
  add_stale-Covered st status (some j) (some i) ids c = λ p q. ground (arith, c p q)

  own-Covered :
      (status : Status) (h : Option String) (ids : List String)
      → Covered (add_stale run_id status h ids) status h
  unfolding Covered add_stale
  own-Covered status none ids = tt
  own-Covered status (some i) ids = λ p q. ground (arith, p, q, eq_refl i)

  stale-Covered :
      (rows : List Row)
      → All (λ r. Covered (stale_run_ids run_id rows) r.status r.claimed_by_run_id) rows
  unfolding stale_run_ids
  stale-Covered [] = tt
  stale-Covered (r ∷ rows) = (
    own-Covered r.status r.claimed_by_run_id (stale_run_ids run_id rows),
    All-mono (λ x. Covered (stale_run_ids run_id rows) x.status x.claimed_by_run_id) _ rows
        (λ x c.
          add_stale-Covered r.status x.status r.claimed_by_run_id x.claimed_by_run_id
            (stale_run_ids run_id rows) c)
        (stale-Covered rows),
  )

module _ (process_exists : ℕ → Bool) (runs : List Run) (run_id : String) (ids : List String) where
  held-void :
      (status : Status) (h : Option String)
      → contains run_id ids ≡ false
      → Covered run_id ids status h
      → is_claimed status ≡ true
      → (same_holder h none || held (dead_run_ids process_exists runs ids) h)
        ≡ is_void process_exists runs run_id h
  unfolding held Covered is_void
  held-void status none own c e = refl
  held-void status (some i) own c e = elim (Bool-cases (i == run_id)) [
    | inl q ↦
        rw (contains-dead process_exists runs i ids, (eq_iff i run_id).0 q, own, eq_refl run_id)
    | inr q ↦ rw (contains-dead process_exists runs i ids, c e q, q)
  ]

  settled_row-eq :
      (r : Row)
      → contains run_id ids ≡ false
      → Covered run_id ids r.status r.claimed_by_run_id
      → release_row
          (dead_run_ids process_exists runs ids)
          (if is_claimed r.status && same_holder r.claimed_by_run_id none then release r else r)
        ≡ settled_row process_exists runs run_id r
  unfolding release_row release settled_row
  settled_row-eq r own c = elim (Bool-cases (is_claimed r.status)) [
    | inl e ↦
        let v = held-void r.status r.claimed_by_run_id own c e in
        elim (Bool-cases (same_holder r.claimed_by_run_id none)) [
          | inl s ↦ ground (arith, e, s, v)
          | inr s ↦ ground (arith, e, s, v)
        ]
    | inr e ↦ ground (arith, e)
  ]

module _ (process_exists : ℕ → Bool) (run : Run) (t : Tables) where
  -- The rows of the queue behind start are those before it, each in its place, where a claim is void if
  -- nobody holds it, or a dead run that is not the one that starts: such a row is queued again, with no
  -- claim, and every other row is as it was. A run is dead if it is unknown, has been stopped or has a
  -- positive pid of which no process exists.
  pub start-settled_row :
      (start process_exists run t).queue.rows
      ≡ map (settled_row process_exists (insert_run run t.runs) run.run_id) t.queue.rows
  unfolding start release_claims
  start-settled_row =
      let rows = t.queue.rows in
      let ids = stale_run_ids run.run_id rows in
      let runs = insert_run run t.runs in
      release_each-map (dead_run_ids process_exists runs ids) (release_claims none rows)
      ∙ map-map (release_row (dead_run_ids process_exists runs ids)) _ rows
      ∙ map-All_eq _ (settled_row process_exists runs run.run_id) rows (
          All-mono _ _ rows
            (λ r c.
              settled_row-eq process_exists runs run.run_id ids r
                (contains-stale_own run.run_id rows) c)
            (stale-Covered run.run_id rows))
