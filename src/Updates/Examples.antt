-- ===== src/Updates/Examples.antt =====
-- One update that is delivered twice.
use tele_cli.Prelude.{◌≡◌, refl, pos, none, [], ◌∷◌}
use tele_cli.Updates.{
  Store, mark_processed, trim_old_entries, newest_first, insert_newest, is_newer, load,
}

abbrev first : Store
first = record {
  rows =
      record {
        update_id = pos 7;
        chat_id = none;
        topic_id = none;
        received_at = 10;
        processed_at = 10;
        payload_preview = none;
        artifact_id = none;
      }
      ∷ [];
  artifacts = [];
}

load-mark_processed : load 1 (mark_processed 1 11 "a" (pos 8) none none none first).1 ≡ pos 8 ∷ []
unfolding load mark_processed trim_old_entries newest_first insert_newest is_newer
load-mark_processed = refl
