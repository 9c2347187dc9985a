-- ===== src/Groups.antt =====
-- src/storage/telegram_groups.py: the messages of Telegram that an answer is cut into, as a group of
-- chunks. The queue's update_message_chunk_id stands in Queue.Outcome.
pub mod Live
pub mod Messages
mod Examples
use tele_cli.Prelude.{
  ℕ, zero, suc, ◌+◌, ℤ, pos, String, Bool, true, false, not, ◌&&◌, Option, none, some, List, [],
  ◌∷◌, ◌++◌, ◌==◌, string_eq, int_eq, any, filter, map, ltb, leb, length, get_elem?, if◌then◌else◌,
  take_text, utf8_length, negsuc,
}
use tele_cli.Queue.Types.{Chunk}

-- a row of telegram_message_groups
pub record Group : Type 0 where
  pub message_group_id : String
  pub session_id : Option String
  pub trace_id : Option String
  pub chat_id : ℤ
  pub topic_id : Option ℤ
  pub logical_role : String
  pub status : String
  pub created_at : ℕ
  pub updated_at : ℕ
  pub finalized_at : Option ℕ

-- ON CONFLICT(message_group_id) DO UPDATE: every column but created_at
unfoldable pub overwrite_group : Group → Group → Group
overwrite_group new old = record new { created_at = old.created_at }

-- upsert_message_group; `group` has the values of the INSERT, its three times from one utc_now()
unfoldable pub upsert_message_group : Group → List Group → List Group
unfolding overwrite_group
upsert_message_group group groups =
    if any (λ g. g.message_group_id == group.message_group_id) groups
    then map
        (λ g. if g.message_group_id == group.message_group_id then overwrite_group group g else g)
        groups
    else groups ++ group ∷ []

-- CHUNK_PAYLOAD_LIMIT_BYTES of src/storage/payloads.py
abbrev pub chunk_payload_limit_bytes : ℕ
chunk_payload_limit_bytes = 4096

-- an entry of chunk_rows
pub record ChunkRow : Type 0 where
  pub index : ℕ
  pub message_id : Option ℤ
  pub inline_html : String
  pub artifact : Option String

-- one round of the first loop; `artifact_for` gives the uuid4 of the artifact of an index
unfoldable pub chunk_row : (artifact_for : ℕ → String) → ℕ → String → Option ℤ → ChunkRow
chunk_row artifact_for index chunk message_id =
    let long = ltb chunk_payload_limit_bytes (utf8_length chunk) in
    record {
      index = index;
      message_id = message_id;
      inline_html = if long then take_text 2048 chunk else chunk;
      artifact = if long then some (artifact_for index) else none;
    }

-- the first loop, from an index on
unfoldable pub chunk_rows : (artifact_for : ℕ → String) → ℕ → List String → List ℤ → List ChunkRow
unfolding chunk_row
chunk_rows artifact_for index [] ids = []
chunk_rows artifact_for index (chunk ∷ chunks) ids =
    chunk_row artifact_for index chunk (get_elem? ids index)
    ∷ chunk_rows artifact_for (suc index) chunks ids

abbrev pub is_chunk : String → ℤ → Chunk → Bool
is_chunk group index c = c.message_group_id == group && c.chunk_index == index

-- the INSERT of a chunk
unfoldable pub new_chunk : (now : ℕ) → String → ChunkRow → Chunk
new_chunk now group r = record {
  message_group_id = group;
  chunk_index = pos r.index;
  telegram_message_id = r.message_id;
  rendered_html = r.inline_html;
  artifact_id = r.artifact;
  created_at = now;
  updated_at = now;
  deleted_at = none;
}

-- ON CONFLICT(message_group_id, chunk_index) DO UPDATE: every other column but created_at
unfoldable pub upsert_chunk : (now : ℕ) → String → ChunkRow → List Chunk → List Chunk
unfolding new_chunk
upsert_chunk now group r chunks =
    if any (is_chunk group (pos r.index)) chunks
    then map
        (λ c.
          if is_chunk group (pos r.index) c
          then record (new_chunk now group r) { created_at = c.created_at }
          else c)
        chunks
    else chunks ++ new_chunk now group r ∷ []

-- the second loop
unfoldable pub upsert_chunks : (now : ℕ) → String → List ChunkRow → List Chunk → List Chunk
unfolding upsert_chunk
upsert_chunks now group [] chunks = chunks
upsert_chunks now group (r ∷ rows) chunks =
    upsert_chunks now group rows (upsert_chunk now group r chunks)

-- chunk_index >= n
abbrev pub reaches : ℕ → ℤ → Bool
reaches n (pos i) = leb n i
reaches n (negsuc i) = false

-- the UPDATE that deletes the chunks behind the last one
unfoldable pub delete_chunks_from : (now : ℕ) → String → ℕ → List Chunk → List Chunk
delete_chunks_from now group n chunks =
    map
      (λ c.
        if c.message_group_id == group && reaches n c.chunk_index
        then record c { deleted_at = some now }
        else c)
      chunks

-- sync_message_chunks, where no statement fails
unfoldable pub sync_message_chunks :
    (now : ℕ) (artifact_for : ℕ → String) → String → List String → List ℤ → List Chunk → List Chunk
unfolding chunk_rows upsert_chunks delete_chunks_from
sync_message_chunks now artifact_for group rendered ids chunks =
    delete_chunks_from now group (length rendered)
      (upsert_chunks now group (chunk_rows artifact_for 0 rendered ids) chunks)

abbrev pub is_undeleted : Option ℕ → Bool
is_undeleted none = true
is_undeleted (some t) = false

-- ORDER BY chunk_index ASC
index_leb : ℤ → ℤ → Bool
index_leb (pos a) (pos b) = leb a b
index_leb (pos a) (negsuc b) = false
index_leb (negsuc a) (pos b) = true
index_leb (negsuc a) (negsuc b) = leb b a

insert_by_index : Chunk → List Chunk → List Chunk
unfolding index_leb
insert_by_index c [] = c ∷ []
insert_by_index c (d ∷ chunks) =
    let rest = insert_by_index c chunks in
    if index_leb c.chunk_index d.chunk_index then c ∷ d ∷ chunks else d ∷ rest

sort_by_index : List Chunk → List Chunk
unfolding insert_by_index
sort_by_index [] = []
sort_by_index (c ∷ chunks) = insert_by_index c (sort_by_index chunks)

message_ids : List Chunk → List ℤ
message_ids [] = []
message_ids (c ∷ chunks) =
    let rest = message_ids chunks in elim c.telegram_message_id [ none ↦ rest | some i ↦ i ∷ rest ]

-- load_active_message_chunk_ids
unfoldable pub load_active_message_chunk_ids : String → List Chunk → List ℤ
unfolding sort_by_index message_ids
load_active_message_chunk_ids group chunks =
    message_ids (
      sort_by_index (filter (λ c. c.message_group_id == group && is_undeleted c.deleted_at) chunks))
