-- ===== src/Groups/Examples.antt =====
-- An answer of two chunks behind one of three.
use tele_cli.Prelude.{
  ℕ, ◌≡◌, ◌≢◌, refl, Bool, false, String, ℤ, pos, negsuc, Option, none, some, List, [], ◌∷◌,
  get_elem?, ◌==◌, nat_eq, if◌then◌else◌,
}
use tele_cli.Queue.Types.{Chunk}
use tele_cli.Groups.{Group, sync_message_chunks, load_active_message_chunk_ids}
use tele_cli.Groups.Messages.{MessageCall, SentMessage, gave, Tables, sync_telegram_message_chunks}
use tele_cli.Groups.Live.{live, expected, sync_message_chunks-live}

abbrev artifact_for : ℕ → String
artifact_for i = "a"

abbrev long_answer : List Chunk
unfolding sync_message_chunks
long_answer =
    sync_message_chunks 1 artifact_for "g" ("one" ∷ "two" ∷ "three" ∷ [])
      (pos 1 ∷ pos 2 ∷ pos 3 ∷ []) []

abbrev shorter : List String
shorter = "uno" ∷ "due" ∷ []

active_ids :
    load_active_message_chunk_ids "g"
      (sync_message_chunks 2 artifact_for "g" shorter (pos 1 ∷ pos 2 ∷ []) long_answer)
    ≡ pos 1 ∷ pos 2 ∷ []
unfolding sync_message_chunks load_active_message_chunk_ids
active_ids = refl

sync_message_chunks-live_example :
    let after = sync_message_chunks 2 artifact_for "g" shorter (pos 1 ∷ []) long_answer in
    ((j : ℕ) → live "g" (pos j) after ≡ expected (get_elem? shorter j) (get_elem? (pos 1 ∷ []) j))
    × ((g : String) (i : ℤ) → g ≢ "g" → live g i after ≡ live g i long_answer)
    × ((j : ℕ) → live "g" (negsuc j) after ≡ live "g" (negsuc j) long_answer)
sync_message_chunks-live_example =
    sync_message_chunks-live 2 artifact_for "g" (pos 1 ∷ []) shorter long_answer

-- the first chunk is edited, the second was delivered before, the third is sent
abbrev latest : ℕ → Option ℤ
latest i = if i == 1 then some (pos 21) else none

abbrev no_edit_fails : ℕ → Bool
no_edit_fails i = false

abbrev sends : ℕ → SentMessage
sends i = gave (some (pos 30))

abbrev repair : String → String
repair s = s

abbrev id_of : ℕ → ℤ
id_of i = if i == 0 then pos 20 else if i == 1 then pos 21 else pos 30

abbrev group_row : Group
group_row = record {
  message_group_id = "g";
  session_id = none;
  trace_id = none;
  chat_id = pos 7;
  topic_id = none;
  logical_role = "final_output";
  status = "finalized";
  created_at = 1;
  updated_at = 1;
  finalized_at = some 1;
}

abbrev three : List String
three = "uno" ∷ "due" ∷ "tre" ∷ []

abbrev no_rows : Tables
no_rows = record { groups = []; chunks = [] }

-- The first chunk is queued without an id, and the second keeps its own.
abbrev kept_ids : List MessageCall × Option (List ℤ × Tables) → Option (List ℤ)
kept_ids (calls, none) = none
kept_ids (calls, some (kept, t)) = some kept

shifted-ids :
    kept_ids (
      sync_telegram_message_chunks latest no_edit_fails
        (λ i. gave none)
        repair
        2
        artifact_for
        group_row
        []
        ("uno" ∷ "due" ∷ [])
        no_rows)
    ≡ some (pos 21 ∷ [])
unfolding sync_telegram_message_chunks
shifted-ids = refl
