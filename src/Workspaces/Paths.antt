-- ===== src/Workspaces/Paths.antt =====
-- src/runtime/workspaces.py: _allocate_topic_relpath, the directory of a new topic.
pub mod Tails
pub mod Serial
pub mod Free
use Prim.Native.Char.{code}
use tele_cli.Prelude.{
  ℕ, zero, suc, ℤ, String, Bool, true, false, not, ◌&&◌, Option, none, some, List, [], ◌∷◌, ◌==◌,
  string_eq, nat_eq, any, is_text, or_text, ◌<>◌, if◌then◌else◌, length, ◌≡◌, refl,
}
use tele_cli.Workspaces.Names.{sanitize_workspace_name, str_int, str_nat}
use tele_cli.Workspaces.Rows.{WorkspaceRecord, new_workspace}

-- s.replace(" ", "-")
unfoldable pub dash_spaces : String → String
dash_spaces String.[] = String.[]
dash_spaces (String.◌∷◌ c s) = String.◌∷◌ (if code c == 32 then "-" else c) (dash_spaces s)

-- suffix; suffix_parts has at most one part
unfoldable pub path_suffix : Option ℤ → Option ℤ → Option String → String
unfolding dash_spaces sanitize_workspace_name str_int
path_suffix (some chat_id) (some topic_id) channel =
    "-" <> (str_int chat_id <> ("-" <> str_int topic_id))
path_suffix _ _ channel =
    if is_text channel
    then "-" <> dash_spaces (sanitize_workspace_name (or_text channel ""))
    else ""

-- f"{_TOPICS_RELPATH}/{candidate}"
abbrev pub topic_path : String → String
topic_path candidate = "workspace/topics/" <> candidate

-- no row of SELECT workspace_id FROM workspaces WHERE relpath = ?
unfoldable pub is_free : List WorkspaceRecord → String → Bool
is_free rows relpath = not (any (λ w. w.relpath == relpath) rows)

-- the loop over the candidates
unfoldable pub first_free : List WorkspaceRecord → (seen candidates : List String) → Option String
unfolding is_free
first_free rows seen [] = none
first_free rows seen (c ∷ candidates) =
    let skip = first_free rows seen candidates in
    let more = first_free rows (c ∷ seen) candidates in
    if any (λ s. s == c) seen
    then skip
    else if is_free rows (topic_path c)
    then some (topic_path c)
    else more

-- the while loop over the serial numbers; `none` where the fuel runs out
unfoldable pub next_serial :
    ℕ → List WorkspaceRecord → (stem : String) → (serial : ℕ) → Option String
unfolding is_free str_nat
next_serial zero rows stem serial = none
next_serial (suc fuel) rows stem serial =
    let relpath = topic_path (stem <> ("-" <> str_nat serial)) in
    let more = next_serial fuel rows stem (suc serial) in
    if is_free rows relpath then some relpath else more

-- _allocate_topic_relpath, with a round more than there are rows for the loop
unfoldable pub allocate_topic_relpath :
    List WorkspaceRecord
    → (visible_name : String) → (chat_id topic_id : Option ℤ) → (local_channel : Option String)
    → Option String
unfolding path_suffix first_free next_serial sanitize_workspace_name
allocate_topic_relpath rows visible_name chat_id topic_id local_channel =
    let base = sanitize_workspace_name visible_name in
    let suffix = path_suffix chat_id topic_id local_channel in
    elim (first_free rows [] (base ∷ (base <> suffix) ∷ [])) [
      | some relpath ↦ some relpath
      | none ↦ next_serial (suc (length rows)) rows (base <> suffix) 2
    ]
