-- ===== src/Thinking.antt =====
-- src/runtime/service.py: what a session keeps of the agent's thinking, source by source.
pub mod Restored
mod Examples
use tele_cli.Prelude.{
  ℕ, ℤ, ◌+◌, String, Bool, true, false, not, ◌&&◌, Option, none, some, List, [], ◌∷◌, ◌++◌, ◌==◌,
  string_eq, nat_eq, int_eq, any, filter, map, strip, or_text, length, ◌<>◌, if◌then◌else◌,
}
use tele_cli.Models.{SessionRecord}
use tele_cli.Turns.Input.{join_texts}
use tele_cli.Workspaces.Names.{str_nat}

-- a dict of texts, in the order of its keys
abbrev pub Texts : Type 0
Texts = List (String × String)

-- d.get(key, "")
unfoldable pub text_at : String → Texts → String
text_at key [] = ""
text_at key ((k, text) ∷ texts) = let rest = text_at key texts in if k == key then text else rest

-- d[key] = text
unfoldable pub set_text : String → String → Texts → Texts
set_text key text [] = (key, text) ∷ []
set_text key text ((k, old) ∷ texts) =
    let rest = set_text key text texts in if k == key then (k, text) ∷ texts else (k, old) ∷ rest

-- d.pop(key, None)
unfoldable pub pop_text : String → Texts → Texts
pop_text key texts = filter (λ p. not (p.0 == key)) texts

abbrev pub has_text : String → List String → Bool
has_text key keys = any (λ k. k == key) keys

-- text.split("\n"); `current` is the line so far
split_lines : (current : String) → String → List String
split_lines current String.[] = current ∷ []
split_lines current (String.◌∷◌ c s) =
    let next = current ∷ split_lines "" s in
    let more = split_lines (current <> String.◌∷◌ c String.[]) s in
    if String.◌∷◌ c String.[] == "\n" then next else more

-- the texts of these sources that are not blank, in this order, with their sources
unfoldable pub filled : List String → Texts → Texts
unfolding text_at strip
filled [] texts = []
filled (key ∷ keys) texts =
    let rest = filled keys texts in
    let text = strip (text_at key texts) in if text == "" then rest else (key, text) ∷ rest

-- _thinking_history_entries
unfoldable pub thinking_history_entries : SessionRecord → List String
unfolding filled split_lines strip
thinking_history_entries s =
    let lines = filter (λ line. not (strip line == "")) (split_lines "" s.thinking_history_text) in
    elim (map (λ p. p.1) (filled s.thinking_history_order s.thinking_history_by_source)) [
      | [] ↦ lines
      | x ∷ xs ↦ x ∷ xs
    ]

-- the live texts that are not blank, of no source among these
unfoldable pub filled_others : (keys : List String) → Texts → Texts
unfolding strip
filled_others keys texts =
    filter (λ p. not (p.1 == "") && not (has_text p.0 keys)) (map (λ p. (p.0, strip p.1)) texts)

-- _current_live_thinking_source_entries
unfoldable pub live_source_entries : SessionRecord → Texts
unfolding filled filled_others
live_source_entries s =
    let ordered = filled s.thinking_history_order s.thinking_live_texts in
    ordered ++ filled_others (map (λ p. p.0) ordered) s.thinking_live_texts

-- _current_live_thinking_entries
unfoldable pub live_entries : SessionRecord → List String
unfolding filled filled_others
live_entries s =
    map (λ p. p.1)
      (filled s.thinking_history_order s.thinking_live_texts
        ++ filled_others s.thinking_history_order s.thinking_live_texts)

-- "\n".join(_thinking_history_entries(session)), written to the session
unfoldable pub render_history : SessionRecord → SessionRecord
unfolding thinking_history_entries join_texts
render_history s = record s { thinking_history_text = join_texts "\n" (thinking_history_entries s) }

-- _record_thinking_history
unfoldable pub record_thinking_history : (source_key text : String) → SessionRecord → SessionRecord
unfolding render_history set_text strip
record_thinking_history source_key text s =
    let normalized = strip text in
    let order = s.thinking_history_order in
    if normalized == ""
    then s
    else render_history (record s {
      thinking_history_order =
          if has_text source_key order then order else order ++ source_key ∷ [];
      thinking_history_by_source = set_text source_key normalized s.thinking_history_by_source;
    })

-- _streaming_message_ids
unfoldable pub streaming_ids : SessionRecord → List ℤ
streaming_ids s = elim s.streaming_message_ids [
  | [] ↦ elim s.streaming_message_id [ none ↦ [] | some id ↦ id ∷ [] ]
  | x ∷ xs ↦ x ∷ xs
]

abbrev first_id : List ℤ → Option ℤ
first_id [] = none
first_id (x ∷ xs) = some x

-- _set_streaming_message_ids
unfoldable pub set_streaming_ids : List ℤ → SessionRecord → SessionRecord
set_streaming_ids ids s = record s {
  streaming_message_ids = ids;
  streaming_message_id = first_id ids;
}

-- the loop over the live entries
unfoldable pub archive_entries : (token : String) → Texts → SessionRecord → SessionRecord
unfolding pop_text set_text str_nat
archive_entries token [] s = s
archive_entries token ((key, text) ∷ entries) s =
    let order = filter (λ k. not (k == key)) s.thinking_history_order in
    let archive_key = "segment:" <> (token <> (":" <> str_nat (length order))) in
    archive_entries token entries (record s {
      thinking_history_order = order ++ archive_key ∷ [];
      thinking_history_by_source =
          set_text archive_key text (pop_text key s.thinking_history_by_source);
    })

-- the ids that are not there yet, behind those that are
unfoldable pub add_ids : List ℤ → List ℤ → List ℤ
add_ids ids [] = ids
add_ids ids (x ∷ xs) =
    let skip = add_ids ids xs in
    let more = add_ids (ids ++ x ∷ []) xs in if any (λ i. i == x) ids then skip else more

-- the lines behind the loop
unfoldable pub clear_live : SessionRecord → SessionRecord
unfolding render_history set_streaming_ids add_ids streaming_ids
clear_live s =
    let rendered = render_history s in
    record (set_streaming_ids [] rendered) {
      thinking_message_ids = add_ids rendered.thinking_message_ids (streaming_ids rendered);
      thinking_message_text = "";
      last_thinking_sent_text = "";
      thinking_live_texts = [];
      thinking_sent_texts = [];
      thinking_live_message_ids = [];
    }

-- _archive_visible_thinking_segment; `token` is utc_now()
unfoldable pub archive_visible_segment : (token : String) → SessionRecord → SessionRecord
unfolding live_source_entries streaming_ids archive_entries clear_live
archive_visible_segment token s =
    let entries = live_source_entries s in
    let archived = clear_live (archive_entries token entries s) in
    if length entries + length (streaming_ids s) == 0 then s else archived

-- the dict of _capture_thinking_segment_snapshot
pub record Snapshot : Type 0 where
  pub streaming_message_id : Option ℤ
  pub streaming_message_ids : List ℤ
  pub thinking_message_id : Option ℤ
  pub thinking_message_ids : List ℤ
  pub thinking_live_message_ids : List (String × ℤ)
  pub thinking_live_texts : Texts
  pub thinking_sent_texts : Texts
  pub thinking_message_text : String
  pub thinking_history_text : String
  pub thinking_history_order : List String
  pub thinking_history_by_source : Texts
  pub last_thinking_sent_text : String

-- _capture_thinking_segment_snapshot
unfoldable pub capture_snapshot : SessionRecord → Snapshot
capture_snapshot s = record {
  streaming_message_id = s.streaming_message_id;
  streaming_message_ids = s.streaming_message_ids;
  thinking_message_id = s.thinking_message_id;
  thinking_message_ids = s.thinking_message_ids;
  thinking_live_message_ids = s.thinking_live_message_ids;
  thinking_live_texts = s.thinking_live_texts;
  thinking_sent_texts = s.thinking_sent_texts;
  thinking_message_text = s.thinking_message_text;
  thinking_history_text = s.thinking_history_text;
  thinking_history_order = s.thinking_history_order;
  thinking_history_by_source = s.thinking_history_by_source;
  last_thinking_sent_text = s.last_thinking_sent_text;
}

-- _restore_thinking_segment_snapshot
unfoldable pub restore_snapshot : Snapshot → SessionRecord → SessionRecord
restore_snapshot n s = record s {
  streaming_message_id = n.streaming_message_id;
  streaming_message_ids = n.streaming_message_ids;
  thinking_message_id = n.thinking_message_id;
  thinking_message_ids = n.thinking_message_ids;
  thinking_live_message_ids = n.thinking_live_message_ids;
  thinking_live_texts = n.thinking_live_texts;
  thinking_sent_texts = n.thinking_sent_texts;
  thinking_message_text = n.thinking_message_text;
  thinking_history_text = n.thinking_history_text;
  thinking_history_order = n.thinking_history_order;
  thinking_history_by_source = n.thinking_history_by_source;
  last_thinking_sent_text = n.last_thinking_sent_text;
}

-- THINKING_PLACEHOLDER_SOURCE_KEY
abbrev placeholder_key : String
placeholder_key = "status:thinking-placeholder"

-- _drop_placeholder_thinking_state
unfoldable pub drop_placeholder : SessionRecord → SessionRecord
unfolding pop_text render_history
drop_placeholder s = render_history (record s {
  thinking_live_texts = pop_text placeholder_key s.thinking_live_texts;
  thinking_sent_texts = pop_text placeholder_key s.thinking_sent_texts;
  thinking_history_by_source = pop_text placeholder_key s.thinking_history_by_source;
  thinking_history_order = filter (λ k. not (k == placeholder_key)) s.thinking_history_order;
})
