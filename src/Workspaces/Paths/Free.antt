-- ===== src/Workspaces/Paths/Free.antt =====
-- What _allocate_topic_relpath of src/runtime/workspaces.py gives.
use tele_cli.Prelude.{
  ◌≡◌, refl, ℤ, suc, String, true, Option, none, some, List, [], ◌∷◌, ◌==◌, string_eq, any, length,
  ◌<>◌, arith, Bool-cases, inl, inr, All, ◌⊎◌,
}
use tele_cli.Workspaces.Names.{sanitize_workspace_name}
use tele_cli.Workspaces.Names.Safe.{IsName, sanitize_workspace_name-IsName}
use tele_cli.Workspaces.Rows.{WorkspaceRecord}
use tele_cli.Workspaces.Paths.{path_suffix, topic_path, is_free, first_free, allocate_topic_relpath}
use tele_cli.Workspaces.Paths.Tails.{IsName-append, dashed-IsTail, path_suffix-IsTail, str_nat_lem}
use tele_cli.Workspaces.Paths.Serial.{next_serial_total}

-- A directory of a topic that no row has.
abbrev pub IsFreePath : List WorkspaceRecord → Option String → Type 0
IsFreePath rows found =
    (name : String) × (found ≡ some (topic_path name))
    × (is_free rows (topic_path name) ≡ true)
    × IsName name

first_free_lem :
    (rows : List WorkspaceRecord) (seen candidates : List String)
    → All IsName candidates
    → (first_free rows seen candidates ≡ none) ⊎ IsFreePath rows (first_free rows seen candidates)
unfolding first_free
first_free_lem rows seen [] h = inl refl
first_free_lem rows seen (c ∷ candidates) h = elim (Bool-cases (any (λ s. s == c) seen)) [
  | inl e ↦ rw e (first_free_lem rows seen candidates h.1)
  | inr e ↦ elim (Bool-cases (is_free rows (topic_path c))) [
    | inl f ↦ rw (e, f) (inr (c, refl, f, h.0))
    | inr f ↦ rw (e, f) (first_free_lem rows (c ∷ seen) candidates h.1)
  ]
]

-- _allocate_topic_relpath always returns, and what it returns is a directory right below workspace/topics
-- that no row of the table has: its name is that of one directory.
pub allocate_topic_relpath-IsFreePath :
    (rows : List WorkspaceRecord) (visible_name : String) (chat_id topic_id : Option ℤ)
    (local_channel : Option String)
    → IsFreePath rows (allocate_topic_relpath rows visible_name chat_id topic_id local_channel)
unfolding allocate_topic_relpath
allocate_topic_relpath-IsFreePath rows visible_name chat_id topic_id local_channel =
    let base = sanitize_workspace_name visible_name in
    let suffix = path_suffix chat_id topic_id local_channel in
    let is_name = sanitize_workspace_name-IsName visible_name in
    let is_stem =
      IsName-append base suffix is_name (path_suffix-IsTail chat_id topic_id local_channel) in
    let (n, found, free, le) =
      next_serial_total (suc (length rows)) rows (base <> suffix) 2 (omega arith) in
    elim (first_free_lem rows [] (base ∷ (base <> suffix) ∷ []) (is_name, (is_stem, tt))) [
      | inl e ↦
          rw (e, allocate_topic_relpath)
            (rw found (
              _,
              refl,
              free,
              IsName-append _ _ is_stem (dashed-IsTail _ (str_nat_lem n).0 (str_nat_lem n).1),
            ))
      | inr (name, e, f, i) ↦ rw (e, allocate_topic_relpath) (name, refl, f, i)
    ]
