-- ===== src/Updates/Marked.antt =====
-- What mark_processed of src/runtime/telegram_update_store.py promises.
use tele_cli.Prelude.{ℕ, ◌<◌, List, nat_eq, int_eq, All}
use tele_cli.Updates.{UpdateRow}

-- every row was handled before this time
unfoldable pub Before : ℕ → List UpdateRow → Type 0
Before now rows = All (λ r. r.processed_at < now) rows
