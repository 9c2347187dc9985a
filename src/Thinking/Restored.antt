-- ===== src/Thinking/Restored.antt =====
-- What a failed dispatch gives back to a session: src/runtime/service.py archives what is shown of the thinking before
-- it, and puts it back behind an exception.
use tele_cli.Prelude.{nat_eq}
use tele_cli.Models.{SessionRecord}

-- the session with the history of another one
history_of : SessionRecord → SessionRecord → SessionRecord
history_of h s = record s {
  thinking_history_order = h.thinking_history_order;
  thinking_history_by_source = h.thinking_history_by_source;
}
