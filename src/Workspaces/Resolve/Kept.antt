-- ===== src/Workspaces/Resolve/Kept.antt =====
-- The table workspaces of src/runtime/workspaces.py under an INSERT and under a new visible name.
use tele_cli.Prelude.{
  ◌≡◌, refl, subst, ◌∙◌, ℤ, String, Bool, true, false, Option, none, some, List, [], ◌∷◌, ◌++◌,
  ◌==◌, string_eq, option_eq, int_eq, any, find, map, All, map-All_eq, All-mono, if◌then◌else◌,
  arith, eq_iff, Bool-cases, inl, inr, int_beq_iff, int_beq,
}
use tele_cli.Workspaces.Rows.{
  WorkspaceRecord, is_topic_of, is_channel_of, clashes, save_workspace, sql_equals, sql_equals_text,
}
use tele_cli.Workspaces.Resolve.{find_workspace}

-- No two rows break a constraint of the table.
abbrev pub IsUnique : List WorkspaceRecord → Type 0
IsUnique [] = Unit
IsUnique (w ∷ rows) = (any (clashes w) rows ≡ false) × IsUnique rows

-- Every workspace that is found by its topic or channel is found as it was, but for its visible name.
abbrev pub Kept : List WorkspaceRecord → List WorkspaceRecord → Type 0
Kept rows after =
    (chat_id topic_id : Option ℤ) (local_channel : Option String) (v : WorkspaceRecord)
    → find_workspace chat_id topic_id local_channel rows ≡ some v
    → (v' : WorkspaceRecord) × (find_workspace chat_id topic_id local_channel after ≡ some v')
      × (v' ≡ record v { visible_name = v'.visible_name })

text_beq_sym : (s t : String) → (s == t) ≡ (t == s)
text_beq_sym s t = ground (arith, eq_iff s t, eq_iff t s)

int_beq_sym : (a b : ℤ) → int_beq a b ≡ int_beq b a
int_beq_sym a b = ground (arith, int_beq_iff a b, int_beq_iff b a)

sql_equals_sym : (a b : Option ℤ) → sql_equals a b ≡ sql_equals b a
sql_equals_sym none none = refl
sql_equals_sym none (some b) = refl
sql_equals_sym (some a) none = refl
sql_equals_sym (some a) (some b) = int_beq_sym a b

sql_equals_text_sym : (a b : Option String) → sql_equals_text a b ≡ sql_equals_text b a
sql_equals_text_sym none none = refl
sql_equals_text_sym none (some b) = refl
sql_equals_text_sym (some a) none = refl
sql_equals_text_sym (some a) (some b) = text_beq_sym a b

clashes_sym : (v w : WorkspaceRecord) → clashes v w ≡ clashes w v
unfolding clashes is_topic_of is_channel_of
clashes_sym v w = ground (
  arith,
  text_beq_sym w.workspace_id v.workspace_id,
  text_beq_sym w.relpath v.relpath,
  sql_equals_sym w.transport_chat_id v.transport_chat_id,
  sql_equals_sym w.transport_topic_id v.transport_topic_id,
  sql_equals_text_sym w.local_channel v.local_channel,
)

find-append_old :
    (p : WorkspaceRecord → Bool) (rows more : List WorkspaceRecord) (v : WorkspaceRecord)
    → find p rows ≡ some v
    → find p (rows ++ more) ≡ some v
find-append_old p [] more v e = cc
find-append_old p (w ∷ rows) more v e = elim (Bool-cases (p w)) [
  | inl f ↦ rw f (rw f at e)
  | inr f ↦ rw f (find-append_old p rows more v (rw f at e))
]

pub find-append_new :
    (p : WorkspaceRecord → Bool) (rows : List WorkspaceRecord) (w : WorkspaceRecord)
    → find p rows ≡ none
    → p w ≡ true
    → find p (rows ++ w ∷ []) ≡ some w
find-append_new p [] w e h = rw h
find-append_new p (v ∷ rows) w e h = elim (Bool-cases (p v)) [
  | inl f ↦ cc (rw f at e)
  | inr f ↦ rw f (find-append_new p rows w (rw f at e) h)
]

pub append-Kept : (rows more : List WorkspaceRecord) → Kept rows (rows ++ more)
unfolding find_workspace
append-Kept rows more chat_id topic_id (some l) v e = (v, find-append_old _ rows more v e, refl)
append-Kept rows more chat_id topic_id none v e = (v, find-append_old _ rows more v e, refl)

any-append_one :
    (p : WorkspaceRecord → Bool) (rows : List WorkspaceRecord) (w : WorkspaceRecord)
    → any p rows ≡ false
    → p w ≡ false
    → any p (rows ++ w ∷ []) ≡ false
any-append_one p [] w h k = rw k
any-append_one p (v ∷ rows) w h k = ground (arith, any-append_one p rows w, h, k)

pub append-IsUnique :
    (rows : List WorkspaceRecord) (w : WorkspaceRecord)
    → IsUnique rows
    → any (clashes w) rows ≡ false
    → IsUnique (rows ++ w ∷ [])
append-IsUnique [] w u h = (refl, tt)
append-IsUnique (v ∷ rows) w u h = (
  any-append_one (clashes v) rows w u.0 (clashes_sym v w ∙ ground (arith, h)),
  append-IsUnique rows w u.1 (ground (arith, h)),
)

-- the row with this id gets another visible name
unfoldable pub renamed :
    (workspace_id : String) → (name : Option String) → WorkspaceRecord → WorkspaceRecord
renamed workspace_id name r =
    if r.workspace_id == workspace_id then record r { visible_name = name } else r

renamed_keeps :
    (i : String) (name : Option String) (r : WorkspaceRecord)
    → renamed i name r ≡ record r { visible_name = (renamed i name r).visible_name }
unfolding renamed
renamed_keeps i name r = elim (Bool-cases (r.workspace_id == i)) [ inl e ↦ rw e | inr e ↦ rw e ]

find-map :
    (p : WorkspaceRecord → Bool) (f : WorkspaceRecord → WorkspaceRecord)
    (rows : List WorkspaceRecord) (v : WorkspaceRecord)
    → ((r : WorkspaceRecord) → p (f r) ≡ p r)
    → find p rows ≡ some v
    → find p (map f rows) ≡ some (f v)
find-map p f [] v h e = cc
find-map p f (r ∷ rows) v h e = elim (Bool-cases (p r)) [
  | inl t ↦ rw (h r, t) (ground (arith, e, t))
  | inr t ↦ rw (h r, t) (find-map p f rows v h (rw t at e))
]

any-map :
    (p q : WorkspaceRecord → Bool) (f : WorkspaceRecord → WorkspaceRecord)
    (rows : List WorkspaceRecord)
    → ((r : WorkspaceRecord) → p (f r) ≡ q r)
    → any p (map f rows) ≡ any q rows
any-map p q f [] h = refl
any-map p q f (r ∷ rows) h = rw (h r, any-map p q f rows h)

is_topic_of-renamed :
    (i : String) (name : Option String) (c t : Option ℤ) (r : WorkspaceRecord)
    → is_topic_of c t (renamed i name r) ≡ is_topic_of c t r
unfolding is_topic_of
is_topic_of-renamed i name c t r = rw renamed_keeps

is_channel_of-renamed :
    (i : String) (name : Option String) (l : Option String) (r : WorkspaceRecord)
    → is_channel_of l (renamed i name r) ≡ is_channel_of l r
unfolding is_channel_of
is_channel_of-renamed i name l r = rw renamed_keeps

clashes-renamed :
    (i : String) (name : Option String) (v w : WorkspaceRecord)
    → clashes (renamed i name v) (renamed i name w) ≡ clashes v w
unfolding clashes is_topic_of is_channel_of
clashes-renamed i name v w = rw (renamed_keeps i name v, renamed_keeps i name w)

pub find_workspace-renamed :
    (i : String) (name : Option String) (c t : Option ℤ) (l : Option String)
    (rows : List WorkspaceRecord) (v : WorkspaceRecord)
    → find_workspace c t l rows ≡ some v
    → find_workspace c t l (map (renamed i name) rows) ≡ some (renamed i name v)
unfolding find_workspace
find_workspace-renamed i name c t (some l) rows v e =
    find-map _ (renamed i name) rows v (is_channel_of-renamed i name (some l)) e
find_workspace-renamed i name c t none rows v e =
    find-map _ (renamed i name) rows v (is_topic_of-renamed i name c t) e

pub renamed-Kept :
    (i : String) (name : Option String) (rows : List WorkspaceRecord)
    → Kept rows (map (renamed i name) rows)
renamed-Kept i name rows c t l v e =
    (renamed i name v, find_workspace-renamed i name c t l rows v e, renamed_keeps i name v)

pub renamed-IsUnique :
    (i : String) (name : Option String) (rows : List WorkspaceRecord)
    → IsUnique rows
    → IsUnique (map (renamed i name) rows)
renamed-IsUnique i name [] u = tt
renamed-IsUnique i name (w ∷ rows) u = (
  any-map _ (clashes w) (renamed i name) rows (clashes-renamed i name w) ∙ u.0,
  renamed-IsUnique i name rows u.1,
)

-- a row with this id is this row
abbrev IsOnly : WorkspaceRecord → WorkspaceRecord → Type 0
IsOnly w r = (r.workspace_id == w.workspace_id) ≡ true → r ≡ w

apart-IsOnly :
    (w : WorkspaceRecord) (rows : List WorkspaceRecord)
    → any (clashes w) rows ≡ false
    → All (IsOnly w) rows
unfolding clashes
apart-IsOnly w [] h = tt
apart-IsOnly w (r ∷ rows) h = ((λ e. ground (arith, e, h)), apart-IsOnly w rows (ground (arith, h)))

-- what is found clashes with no row above it
found-apart :
    (p : WorkspaceRecord → Bool) (v : WorkspaceRecord) (rows : List WorkspaceRecord)
    (w : WorkspaceRecord)
    → any (clashes v) rows ≡ false
    → find p rows ≡ some w
    → (v.workspace_id == w.workspace_id) ≡ false
unfolding clashes
found-apart p v [] w h e = cc
found-apart p v (r ∷ rows) w h e = elim (Bool-cases (p r)) [
  | inl f ↦
      ground
        (arith, h, e, f, eq_iff v.workspace_id r.workspace_id, eq_iff r.workspace_id v.workspace_id)
  | inr f ↦ found-apart p v rows w (ground (arith, h)) (rw f at e)
]

found-IsOnly :
    (p : WorkspaceRecord → Bool) (rows : List WorkspaceRecord) (w : WorkspaceRecord)
    → IsUnique rows
    → find p rows ≡ some w
    → All (IsOnly w) rows
found-IsOnly p [] w u e = tt
found-IsOnly p (r ∷ rows) w u e = elim (Bool-cases (p r)) [
  | inl f ↦
      let same : r ≡ w = ground (arith, e, f) in
      ((λ q. same), subst (λ x. All (IsOnly x) rows) same (apart-IsOnly r rows u.0))
  | inr f ↦
      let rest = rw f at e in
      (
        (λ q. absurd (ground (arith, q, found-apart p r rows w u.0 rest))),
        found-IsOnly p rows w u.1 rest,
      )
]

-- Where the row w stands in the table, _save_workspace of w with another visible name renames it.
pub save_workspace-renamed :
    (p : WorkspaceRecord → Bool) (rows : List WorkspaceRecord) (w : WorkspaceRecord)
    (name : Option String)
    → IsUnique rows
    → find p rows ≡ some w
    → save_workspace (record w { visible_name = name }) rows
      ≡ map (renamed w.workspace_id name) rows
unfolding save_workspace renamed
save_workspace-renamed p rows w name u e = map-All_eq _ _ rows (
    All-mono (IsOnly w) _ rows
      (λ r only. elim (Bool-cases (r.workspace_id == w.workspace_id)) [
        | inl t ↦ rw t (rw (only t))
        | inr t ↦ rw t
      ])
      (found-IsOnly p rows w u e))
