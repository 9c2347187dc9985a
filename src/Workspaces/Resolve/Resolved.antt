-- ===== src/Workspaces/Resolve/Resolved.antt =====
-- What get_or_create_topic_workspace of src/runtime/workspaces.py gives and leaves in the table.
use tele_cli.Prelude.{
  ◌≡◌, refl, sym, ap, ◌∙◌, ℤ, String, Bool, true, false, Option, none, some, List, [], ◌∷◌, ◌++◌,
  ◌==◌, string_eq, option_eq, any, find, ◌<>◌, or_text, strip, if◌then◌else◌, arith, eq_refl,
  beq_refl, Bool-cases, inl, inr,
}
use tele_cli.Workspaces.Names.{default_topic_name}
use tele_cli.Workspaces.Rows.{
  WorkspaceRecord, new_workspace, is_topic_of, is_channel_of, clashes, insert_workspace, sql_equals,
  sql_equals_text,
}
use tele_cli.Workspaces.Paths.{topic_path, is_free}
use tele_cli.Workspaces.Paths.Free.{allocate_topic_relpath-IsFreePath}
use tele_cli.Workspaces.Resolve.{
  Resolution, resolved, insert_new, updated_name, reuse, create_topic, find_workspace,
  get_or_create_topic_workspace,
}
use tele_cli.Workspaces.Resolve.Kept.{
  IsUnique, Kept, find-append_new, append-Kept, append-IsUnique, renamed, find_workspace-renamed,
  renamed-Kept, renamed-IsUnique, save_workspace-renamed,
}

-- a topic of Telegram, or a local channel
abbrev pub IsIdentity : Option ℤ → Option ℤ → Option String → Type 0
IsIdentity (some chat_id) (some topic_id) none = Unit
IsIdentity none none (some channel) = Unit
IsIdentity _ _ _ = ⊥

-- w.workspace_id == i
abbrev pub has_id : String → WorkspaceRecord → Bool
has_id i w = w.workspace_id == i

-- A workspace is returned, it is the one that the table has for the topic or channel, and the table has kept
-- every other workspace and its constraints.
abbrev pub Settled :
    Option ℤ
    → Option ℤ
    → Option String
    → List WorkspaceRecord
    → Resolution × List WorkspaceRecord
    → Type 0
Settled c t l rows r =
    (w : WorkspaceRecord) × (r.0 ≡ resolved w)
    × (find_workspace c t l r.1 ≡ some w)
    × Kept rows r.1
    × IsUnique r.1

find_workspace-find :
    (c t : Option ℤ) (l : Option String)
    → (p : WorkspaceRecord → Bool) × ((rows : List WorkspaceRecord)
        → find_workspace c t l rows ≡ find p rows)
unfolding find_workspace
find_workspace-find c t (some l) = (is_channel_of (some l), λ rows. refl)
find_workspace-find c t none = (is_topic_of c t, λ rows. refl)

renamed_self :
    (w : WorkspaceRecord) (name : Option String)
    → renamed w.workspace_id name w ≡ record w { visible_name = name }
unfolding renamed
renamed_self w name = rw eq_refl

reuse-Settled :
    (c t : Option ℤ) (l visible_name : Option String) (rows : List WorkspaceRecord)
    (w : WorkspaceRecord)
    → IsUnique rows
    → find_workspace c t l rows ≡ some w
    → Settled c t l rows (reuse visible_name w rows)
unfolding reuse
reuse-Settled c t l visible_name rows w u e =
    let name = updated_name visible_name w.visible_name in
    let (p, by) = find_workspace-find c t l in
    elim (Bool-cases (name == w.visible_name)) [
      | inl f ↦ rw f (w, refl, e, (λ c' t' l' v q. (v, q, refl)), u)
      | inr f ↦
          rw (f, save_workspace-renamed p rows w name u (sym (by rows) ∙ e))
            (
              record w { visible_name = name },
              refl,
              find_workspace-renamed w.workspace_id name c t l rows w e
                  ∙ ap some (renamed_self w name),
              renamed-Kept w.workspace_id name rows,
              renamed-IsUnique w.workspace_id name rows u,
            )
    ]

-- the row that create_topic inserts
abbrev topic_row :
    (new_id relpath : String)
    → (c t : Option ℤ) → (l : Option String) → (topic_name : String) → WorkspaceRecord
topic_row new_id relpath c t l topic_name =
    record (new_workspace new_id "topic" relpath (relpath <> "/AGENTS.md")) {
      transport_chat_id = c;
      transport_topic_id = t;
      local_channel = l;
      visible_name = some topic_name;
    }

find_workspace-topic_row :
    (new_id relpath : String) (c t : Option ℤ) (l : Option String) (topic_name : String)
    (rows : List WorkspaceRecord)
    → IsIdentity c t l
    → find_workspace c t l rows ≡ none
    → find_workspace c t l (rows ++ topic_row new_id relpath c t l topic_name ∷ [])
      ≡ some (topic_row new_id relpath c t l topic_name)
unfolding find_workspace is_topic_of is_channel_of new_workspace
find_workspace-topic_row new_id relpath (some c) (some t) none topic_name rows i e =
    find-append_new (is_topic_of (some c) (some t)) rows _ e (rw (beq_refl c, beq_refl t))
find_workspace-topic_row new_id relpath none none (some l) topic_name rows i e =
    find-append_new (is_channel_of (some l)) rows _ e (beq_refl l)
find_workspace-topic_row new_id relpath none none none topic_name rows i e = absurd i
find_workspace-topic_row new_id relpath none (some t) l topic_name rows i e = absurd i
find_workspace-topic_row new_id relpath (some c) none l topic_name rows i e = absurd i
find_workspace-topic_row new_id relpath (some c) (some t) (some l) topic_name rows i e = absurd i

module _ (p : WorkspaceRecord → Bool) (r : WorkspaceRecord) (rows : List WorkspaceRecord) where
  any-head : any p (r ∷ rows) ≡ false → p r ≡ false
  any-head h = ground (arith, h)

  any-tail : any p (r ∷ rows) ≡ false → any p rows ≡ false
  any-tail h = ground (arith, h)

  any-cons : p r ≡ false → any p rows ≡ false → any p (r ∷ rows) ≡ false
  any-cons h k = rw (h, k)

  find-none : find p (r ∷ rows) ≡ none → (p r ≡ false) × (find p rows ≡ none)
  find-none h = elim (Bool-cases (p r)) [ inl e ↦ cc (rw e at h) | inr e ↦ (e, rw e at h) ]

module _ (r : WorkspaceRecord) (rows : List WorkspaceRecord) (p : String)
    (h : is_free (r ∷ rows) p ≡ true) where
  taken-head : (r.relpath == p) ≡ false
  unfolding is_free
  taken-head = ground (arith, h)

  free-tail : is_free rows p ≡ true
  unfolding is_free
  free-tail = ground (arith, h)

nothing-equals : (a : Option ℤ) → sql_equals a none ≡ false
nothing-equals none = refl
nothing-equals (some a) = refl

nothing-equals_text : (a : Option String) → sql_equals_text a none ≡ false
nothing-equals_text none = refl
nothing-equals_text (some a) = refl

module _ (new_id relpath topic_name : String) (r : WorkspaceRecord)
    (other_id : (r.workspace_id == new_id) ≡ false)
    (other_path : (r.relpath == relpath) ≡ false) where
  telegram_row-apart :
      (c t : ℤ)
      → is_topic_of (some c) (some t) r ≡ false
      → clashes (topic_row new_id relpath (some c) (some t) none topic_name) r ≡ false
  unfolding clashes is_channel_of new_workspace
  telegram_row-apart c t h = rw (other_id, other_path, h, nothing-equals_text r.local_channel)

  local_row-apart :
      (l : String)
      → is_channel_of (some l) r ≡ false
      → clashes (topic_row new_id relpath none none (some l) topic_name) r ≡ false
  unfolding clashes is_topic_of new_workspace
  local_row-apart l h = ground (arith, other_id, other_path, h, nothing-equals r.transport_chat_id)

topic_row-apart :
    (new_id relpath : String) (c t : Option ℤ) (l : Option String) (topic_name : String)
    (rows : List WorkspaceRecord)
    → IsIdentity c t l
    → find_workspace c t l rows ≡ none
    → any (has_id new_id) rows ≡ false
    → is_free rows relpath ≡ true
    → any (clashes (topic_row new_id relpath c t l topic_name)) rows ≡ false
unfolding find_workspace
topic_row-apart new_id relpath c t l topic_name [] i e fresh free = refl
topic_row-apart new_id relpath (some c) (some t) none topic_name (r ∷ rows) i e fresh free =
    let head = find-none (is_topic_of (some c) (some t)) r rows e in
    any-cons (clashes _) r rows
      (telegram_row-apart new_id relpath topic_name r (any-head (has_id new_id) r rows fresh)
        (taken-head r rows relpath free) c t head.0)
      (topic_row-apart new_id relpath (some c) (some t) none topic_name rows i head.1
        (any-tail (has_id new_id) r rows fresh) (free-tail r rows relpath free))
topic_row-apart new_id relpath none none (some l) topic_name (r ∷ rows) i e fresh free =
    let head = find-none (is_channel_of (some l)) r rows e in
    any-cons (clashes _) r rows
      (local_row-apart new_id relpath topic_name r (any-head (has_id new_id) r rows fresh)
        (taken-head r rows relpath free) l head.0)
      (topic_row-apart new_id relpath none none (some l) topic_name rows i head.1
        (any-tail (has_id new_id) r rows fresh) (free-tail r rows relpath free))
topic_row-apart new_id relpath none none none topic_name (r ∷ rows) i e fresh free = absurd i
topic_row-apart new_id relpath none (some t) l topic_name (r ∷ rows) i e fresh free = absurd i
topic_row-apart new_id relpath (some c) none l topic_name (r ∷ rows) i e fresh free = absurd i
topic_row-apart new_id relpath (some c) (some t) (some l) topic_name (r ∷ rows) i e fresh free =
    absurd i

insert_new-Settled :
    (c t : Option ℤ) (l : Option String) (rows : List WorkspaceRecord) (w : WorkspaceRecord)
    → IsUnique rows
    → any (clashes w) rows ≡ false
    → find_workspace c t l (rows ++ w ∷ []) ≡ some w
    → Settled c t l rows (insert_new w rows)
unfolding insert_new
insert_new-Settled c t l rows w u apart found =
    rw (apart, insert_new, insert_workspace)
      (w, refl, found, append-Kept rows _, append-IsUnique rows w u apart)

create_topic-Settled :
    (new_id : String) (c t : Option ℤ) (l visible_name : Option String)
    (rows : List WorkspaceRecord)
    → IsIdentity c t l
    → find_workspace c t l rows ≡ none
    → any (has_id new_id) rows ≡ false
    → IsUnique rows
    → Settled c t l rows (create_topic new_id c t l visible_name rows)
unfolding create_topic
create_topic-Settled new_id c t l visible_name rows i e fresh u =
    let stripped = strip (or_text visible_name "") in
    let topic_name = if stripped == "" then default_topic_name t else stripped in
    let (name, found, free, is_name) = allocate_topic_relpath-IsFreePath rows topic_name c t l in
    rw (found, create_topic)
      (insert_new-Settled c t l rows (topic_row new_id (topic_path name) c t l topic_name) u
        (topic_row-apart new_id (topic_path name) c t l topic_name rows i e fresh free)
        (find_workspace-topic_row new_id (topic_path name) c t l topic_name rows i e))

either-Settled :
    (new_id : String) (c t : Option ℤ) (l visible_name : Option String)
    (rows : List WorkspaceRecord) (found : Option WorkspaceRecord)
    → find_workspace c t l rows ≡ found
    → IsIdentity c t l
    → any (has_id new_id) rows ≡ false
    → IsUnique rows
    → Settled c t l rows (elim found [
      | some w ↦ reuse visible_name w rows
      | none ↦ create_topic new_id c t l visible_name rows
    ])
either-Settled new_id c t l visible_name rows none e i fresh u =
    create_topic-Settled new_id c t l visible_name rows i e fresh u
either-Settled new_id c t l visible_name rows (some w) e i fresh u =
    reuse-Settled c t l visible_name rows w u e

-- In a table that keeps its constraints, and with an id that no row has, get_or_create_topic_workspace of a topic
-- of Telegram or of a local channel always returns a workspace; no INSERT fails. What it returns is
-- what the table has for this topic or channel afterwards. Every workspace that was found by its topic or
-- channel is found as it was, with the same id and the same directory; at most its visible name is another one. The table keeps
-- its constraints: no two rows share an id, a directory, a topic or a channel.
pub get_or_create_topic_workspace-Settled :
    (new_id : String) (chat_id topic_id : Option ℤ) (local_channel visible_name : Option String)
    (rows : List WorkspaceRecord)
    → IsIdentity chat_id topic_id local_channel
    → any (has_id new_id) rows ≡ false
    → IsUnique rows
    → Settled chat_id topic_id local_channel rows
        (get_or_create_topic_workspace new_id chat_id topic_id local_channel visible_name rows)
unfolding get_or_create_topic_workspace
get_or_create_topic_workspace-Settled new_id none none none visible_name rows i fresh u = absurd i
get_or_create_topic_workspace-Settled new_id none (some t) none visible_name rows i fresh u =
    absurd i
get_or_create_topic_workspace-Settled new_id none t (some l) visible_name rows i fresh u =
    either-Settled new_id none t (some l) visible_name rows _ refl i fresh u
get_or_create_topic_workspace-Settled new_id (some c) t l visible_name rows i fresh u =
    either-Settled new_id (some c) t l visible_name rows _ refl i fresh u
