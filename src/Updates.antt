-- ===== src/Updates.antt =====
-- src/runtime/telegram_update_store.py: the Telegram updates that have been handled, so that one that is
-- delivered again is not handled twice.
pub mod Marked
mod Examples
use tele_cli.Prelude.{
  ℕ, ℤ, pos, negsuc, Bool, true, false, ◌||◌, ◌&&◌, Option, none, some, List, [], ◌∷◌, ◌==◌, nat_eq,
  int_eq, any, take, ltb, leb, if◌then◌else◌, String, map, reverse, drop, length, ◌-◌,
}

-- a row of telegram_updates; every row has the status 'processed'. Times are numbers, ordered as the
-- texts of utc_now() are. `artifact_id` is set for a long payload.
pub record UpdateRow : Type 0 where
  pub update_id : ℤ
  pub chat_id : Option ℤ
  pub topic_id : Option ℤ
  pub received_at : ℕ
  pub processed_at : ℕ
  pub payload_preview : Option String
  pub artifact_id : Option String

-- the table, and the ids of the artifacts that mark_processed has written
pub record Store : Type 0 where
  pub rows : List UpdateRow
  pub artifacts : List String

int_ltb : ℤ → ℤ → Bool
int_ltb (pos a) (pos b) = ltb a b
int_ltb (pos a) (negsuc b) = false
int_ltb (negsuc a) (pos b) = true
int_ltb (negsuc a) (negsuc b) = ltb b a

-- ORDER BY processed_at DESC, update_id DESC
unfoldable pub is_newer : UpdateRow → UpdateRow → Bool
unfolding int_ltb
is_newer a b =
    ltb b.processed_at a.processed_at
    || (a.processed_at == b.processed_at && int_ltb b.update_id a.update_id)

unfoldable pub insert_newest : UpdateRow → List UpdateRow → List UpdateRow
insert_newest a [] = a ∷ []
insert_newest a (b ∷ rows) =
    let rest = insert_newest a rows in if is_newer a b then a ∷ b ∷ rows else b ∷ rest

unfoldable pub newest_first : List UpdateRow → List UpdateRow
unfolding insert_newest
newest_first [] = []
newest_first (a ∷ rows) = insert_newest a (newest_first rows)

abbrev pub has_update_id : ℤ → UpdateRow → Bool
has_update_id update_id row = row.update_id == update_id

-- has_processed
unfoldable pub has_processed : (update_id : ℤ) → Store → Bool
has_processed update_id store = any (has_update_id update_id) store.rows

-- `payload`, where mark_processed has one: the preview of its JSON, and the length of it in UTF-8
pub record Payload : Type 0 where
  pub preview : String
  pub size : ℕ

-- GENERAL_PAYLOAD_LIMIT_BYTES of src/storage/payloads.py
abbrev general_payload_limit_bytes : ℕ
general_payload_limit_bytes = 8192

preview_of : Option Payload → Option String
preview_of none = none
preview_of (some p) = some p.preview

is_long : Option Payload → Bool
is_long none = false
is_long (some p) = ltb general_payload_limit_bytes p.size

module _ (max_entries : ℕ) where
  -- _trim_old_entries: the rows behind the first max_entries of the order are deleted
  unfoldable pub trim_old_entries : List UpdateRow → List UpdateRow
  unfolding newest_first
  trim_old_entries rows = take max_entries (newest_first rows)

  -- load: the ids, the oldest first
  unfoldable pub load : Store → List ℤ
  unfolding newest_first
  load store = map (λ r. r.update_id) (reverse (take max_entries (newest_first store.rows)))

  -- mark_processed at the time `now`; `artifact_id` is the uuid4 of a new artifact
  unfoldable pub mark_processed :
      (now : ℕ)
      → (artifact_id : String) → (update_id : ℤ) → (chat_id topic_id : Option ℤ)
      → (payload : Option Payload) → Store
      → Bool × Store
  unfolding trim_old_entries preview_of is_long
  mark_processed now artifact_id update_id chat_id topic_id payload store =
      if any (has_update_id update_id) store.rows
      then (false, store)
      else (let long = is_long payload in
          let row : UpdateRow = record {
            update_id = update_id;
            chat_id = chat_id;
            topic_id = topic_id;
            received_at = now;
            processed_at = now;
            payload_preview = preview_of payload;
            artifact_id = if long then some artifact_id else none;
          } in
          (
            true,
            record {
              rows = trim_old_entries (row ∷ store.rows);
              artifacts = if long then artifact_id ∷ store.artifacts else store.artifacts;
            },
          ))
