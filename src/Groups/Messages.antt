-- ===== src/Groups/Messages.antt =====
-- src/runtime/service.py: _sync_telegram_message_chunks, which edits, sends and deletes the messages of an answer and then
-- has Groups keep which message shows which chunk.
use tele_cli.Prelude.{
  ℕ, suc, ◌≡◌, ◌⊎◌, ℤ, pos, String, Bool, false, Option, none, some, List, [], ◌∷◌, ◌++◌, map, drop,
  length, get_elem?, if◌then◌else◌,
}
use tele_cli.Queue.Types.{Chunk}
use tele_cli.Groups.{Group, upsert_message_group, sync_message_chunks}
use tele_cli.Groups.Live.{live, expected}

-- what the function does to Telegram or to the queue, in order, with the text of the message
pub data MessageCall : Type 0 where
  edited : ℤ → String → MessageCall
  sent : String → MessageCall
  deleted : ℤ → MessageCall

-- how send_telegram_message or queue_telegram_message ends
pub data SentMessage : Type 0 where
  gave : Option ℤ → SentMessage
  raised : SentMessage

pub record Tables : Type 0 where
  pub groups : List Group
  pub chunks : List Chunk

-- `latest` is latest_message_id_for_dedupe for the key of an index, none without a delivery manager;
-- `edit_fails` and `send` are the ends of the calls for an index, `repair` what repair_partial_telegram_html gives,
-- if the parse mode is HTML
module _ (latest : ℕ → Option ℤ) (edit_fails : ℕ → Bool) (send : ℕ → SentMessage)
    (repair : String → String) where
  -- message_id, before a message is sent
  abbrev pub target : Option ℤ → ℕ → Option ℤ
  target (some id) index = some id
  target none index = latest index

  abbrev pub keep : Option ℤ → Option (List ℤ) → Option (List ℤ)
  keep none kept = kept
  keep (some id) none = none
  keep (some id) (some ids) = some (id ∷ ids)

  -- the branch without a message; `rest` are the later rounds
  abbrev pub send_chunk :
      SentMessage → String → List MessageCall × Option (List ℤ) → List MessageCall × Option (List ℤ)
  send_chunk raised chunk rest = (sent (repair chunk) ∷ [], none)
  send_chunk (gave id) chunk rest = (sent (repair chunk) ∷ rest.0, keep id rest.1)

  -- one round of the loop
  abbrev pub put_chunk :
      Option ℤ
      → ℕ
      → String
      → List MessageCall × Option (List ℤ)
      → List MessageCall × Option (List ℤ)
  put_chunk none index chunk rest = send_chunk (send index) chunk rest
  put_chunk (some id) index chunk rest =
      if edit_fails index
      then (edited id (repair chunk) ∷ [], none)
      else (edited id (repair chunk) ∷ rest.0, keep (some id) rest.1)

  -- the loop from an index on: the calls, and kept_ids unless it ends with an exception
  unfoldable pub put_chunks : List ℤ → ℕ → List String → List MessageCall × Option (List ℤ)
  put_chunks existing index [] = ([], some [])
  put_chunks existing index (chunk ∷ chunks) =
      put_chunk (target (get_elem? existing index) index) index chunk
        (put_chunks existing (suc index) chunks)

  -- What follows the loop: the messages that are left over, session.streaming_message_ids, the group, whose row
  -- is given, and its chunks.
  abbrev pub keep_chunks :
      (now : ℕ) (artifact_for : ℕ → String)
      → Group
      → List ℤ
      → List String
      → Tables
      → List MessageCall × Option (List ℤ)
      → List MessageCall × Option (List ℤ × Tables)
  keep_chunks now artifact_for row existing rendered t (calls, none) = (calls, none)
  keep_chunks now artifact_for row existing rendered t (calls, some kept) = (
    calls ++ map deleted (drop (length rendered) existing),
    some (
      kept,
      record {
        groups = upsert_message_group row t.groups;
        chunks = sync_message_chunks now artifact_for row.message_group_id rendered kept t.chunks;
      },
    ),
  )

  -- _sync_telegram_message_chunks, with the existing ids that it starts from and a chat id
  unfoldable pub sync_telegram_message_chunks :
      (now : ℕ) (artifact_for : ℕ → String)
      → Group
      → List ℤ
      → List String
      → Tables
      → List MessageCall × Option (List ℤ × Tables)
  unfolding put_chunks
  sync_telegram_message_chunks now artifact_for row existing rendered t =
      keep_chunks now artifact_for row existing rendered t (put_chunks existing 0 rendered)

  -- The chunk of an index is put into the message of this id: by an edit, or by a message that is sent.
  abbrev pub Puts : List ℤ → ℕ → ℤ → Type 0
  Puts existing index id =
      ((target (get_elem? existing index) index ≡ some id) × (edit_fails index ≡ false))
      ⊎ ((target (get_elem? existing index) index ≡ none) × (send index ≡ gave (some id)))

  -- the ids of so many messages, from an index on
  abbrev pub ids_from : (ℕ → ℤ) → ℕ → List String → List ℤ
  ids_from id_of index [] = []
  ids_from id_of index (chunk ∷ chunks) = id_of index ∷ ids_from id_of (suc index) chunks

  -- the list that is kept, and what the tables show, for each chunk
  pub Shows : (ℕ → ℤ) → String → List String → Option (List ℤ × Tables) → Type 0
  Shows id_of group rendered none = ⊥
  Shows id_of group rendered (some (kept, after)) =
      (kept ≡ ids_from id_of 0 rendered)
      × ((i : ℕ)
          → live group (pos i) after.chunks ≡ expected (get_elem? rendered i) (get_elem? kept i))
