-- ===== src/Thinking/Examples.antt =====
-- A session to which two sources of thinking are shown.
use tele_cli.Prelude.{◌≡◌, refl, pos, some, [], ◌∷◌}
use tele_cli.Models.{SessionRecord, new_session}
use tele_cli.Thinking.{archive_visible_segment, record_thinking_history, thinking_history_entries}

abbrev shown : SessionRecord
shown = record (new_session "a" "telegram" (some (pos 7)) (some (pos 7)) "1") {
  thinking_live_texts = ("x", "plan") ∷ ("y", "read") ∷ [];
  streaming_message_ids = pos 4 ∷ [];
}

-- both texts are recorded in the history
abbrev recorded : SessionRecord
recorded = record_thinking_history "y" "read" (record_thinking_history "x" "plan" shown)

recorded_test : thinking_history_entries recorded ≡ "plan" ∷ "read" ∷ []
unfolding new_session thinking_history_entries record_thinking_history
recorded_test = refl

-- the archive has one key for both texts
archived_test :
    thinking_history_entries (archive_visible_segment "t" recorded) ≡ "read" ∷ "read" ∷ []
unfolding new_session thinking_history_entries record_thinking_history archive_visible_segment
archived_test = refl
