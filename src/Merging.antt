-- ===== src/Merging.antt =====
-- src/runtime/service.py: what a text of the agent adds to what is known of its answer.
pub mod Appended
mod Examples
use tele_cli.Prelude.{
  ℕ, zero, suc, ◌+◌, ◌*◌, ◌/◌, min, max, ◌-◌, String, Bool, true, false, not, ◌&&◌, ◌||◌, Option,
  none, some, ◌==◌, string_eq, leb, if◌then◌else◌, ◌<>◌, startswith, strip, is_text, text_length,
  take_text, drop_text, reverse_onto,
}
use Prim.Native.Char.{Char, code}
use Prim.Native.String as Text

-- the fields of a SessionRecord that are read
pub record Output : Type 0 where
  pub pending_output_text : String
  pub streaming_output_text : String
  pub last_delivered_output_text : String

-- ("ignore", ""), ("append", text) and ("replace", text)
pub data Merge : Type 0 where
  ignore : Merge
  append : String → Merge
  replace : String → Merge

-- f"{existing_stream}{existing_pending}"
abbrev pub combined : Output → String
combined o = o.streaming_output_text <> o.pending_output_text

-- _common_prefix_length
unfoldable pub common_prefix_length : String → String → ℕ
common_prefix_length Text.[] right = 0
common_prefix_length (Text.◌∷◌ c left) Text.[] = 0
common_prefix_length (Text.◌∷◌ c left) (Text.◌∷◌ d right) =
    let rest = common_prefix_length left right in
    if Text.◌∷◌ c Text.[] == Text.◌∷◌ d Text.[] then suc rest else 0

-- _common_suffix_length
unfoldable pub common_suffix_length : String → String → ℕ
unfolding common_prefix_length
common_suffix_length left right =
    common_prefix_length (reverse_onto left Text.[]) (reverse_onto right Text.[])

-- the loop of _suffix_prefix_overlap, from a size down to 1
unfoldable pub overlap_from : ℕ → String → String → ℕ
overlap_from zero left right = 0
overlap_from (suc n) left right =
    let rest = overlap_from n left right in
    if drop_text (text_length left - suc n) left == take_text (suc n) right then suc n else rest

-- _suffix_prefix_overlap
unfoldable pub suffix_prefix_overlap : String → String → ℕ
unfolding overlap_from
suffix_prefix_overlap left right =
    overlap_from (min (text_length left) (text_length right)) left right

-- incoming[len(known) :] where the known text is not empty and the incoming one starts with it
abbrev pub beyond : String → String → Option Merge → Option Merge
beyond known incoming next =
    if not (known == "") && startswith incoming known
    then some (append (drop_text (text_length known) incoming))
    else next

-- incoming equals a text that is known
abbrev pub is_known : Output → String → Bool
is_known o incoming =
    incoming == o.pending_output_text
    || incoming == o.streaming_output_text
    || incoming == combined o
    || incoming == o.last_delivered_output_text

-- what the two functions have in common, up to their last tests; none where they go on
unfoldable pub merge_known : Output → String → Option Merge
merge_known o incoming =
    if is_known o incoming
    then some ignore
    else beyond (combined o) incoming (
        beyond o.pending_output_text incoming (
          beyond o.streaming_output_text incoming (
            beyond o.last_delivered_output_text incoming (
              if not (combined o == "") && startswith (combined o) incoming
              then some ignore
              else none))))

abbrev pub or_merge : Option Merge → Merge → Merge
or_merge none next = next
or_merge (some merge) next = merge

-- merge_streamed_agent_delta_text, where there is a text
unfoldable pub merge_streamed : Output → String → Merge
unfolding merge_known
merge_streamed o incoming = or_merge (merge_known o incoming) (append incoming)

-- the two texts agree at their ends on 48 characters and on four fifths of the shorter
unfoldable pub is_revision : String → String → Bool
unfolding common_prefix_length common_suffix_length
is_revision known incoming =
    not (known == "")
    && leb (max 48 (min (text_length known) (text_length incoming) * 4 / 5))
        (common_prefix_length known incoming + common_suffix_length known incoming)

-- overlap
unfoldable pub known_overlap : Output → String → ℕ
unfolding suffix_prefix_overlap
known_overlap o incoming =
    if combined o == "" then 0 else suffix_prefix_overlap (combined o) incoming

-- the last tests of merge_incremental_assistant_text
unfoldable pub merge_unknown : Output → String → Merge
unfolding is_revision known_overlap
merge_unknown o incoming =
    if is_revision (combined o) incoming || is_revision o.last_delivered_output_text incoming
    then replace incoming
    else if leb (max 16 (min (text_length (combined o)) (text_length incoming) / 3))
        (known_overlap o incoming)
    then append (drop_text (known_overlap o incoming) incoming)
    else append incoming

-- merge_incremental_assistant_text, where there is a text
unfoldable pub merge_incremental : Output → String → Merge
unfolding merge_known merge_unknown
merge_incremental o incoming = or_merge (merge_known o incoming) (merge_unknown o incoming)

abbrev pub when_text : Option String → (String → Merge) → Merge
when_text none next = ignore
when_text (some text) next = if text == "" then ignore else next text

unfoldable pub merge_streamed_agent_delta_text : Output → Option String → Merge
unfolding merge_streamed
merge_streamed_agent_delta_text o text = when_text text (λ incoming. merge_streamed o incoming)

unfoldable pub merge_incremental_assistant_text : Output → Option String → Merge
unfolding merge_incremental
merge_incremental_assistant_text o text = when_text text (λ incoming. merge_incremental o incoming)

-- should_append_completion_text
abbrev pub is_new_text : Output → String → Bool
is_new_text o candidate =
    not (candidate == "")
    && (not (strip o.pending_output_text == candidate)
        && (not (strip o.streaming_output_text == candidate)
            && not (
                strip o.pending_output_text == ""
                && strip o.last_delivered_output_text == candidate)))

unfoldable pub should_append_completion_text : Output → Option String → Bool
should_append_completion_text o none = false
should_append_completion_text o (some text) = is_new_text o (strip text)
