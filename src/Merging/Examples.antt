-- ===== src/Merging/Examples.antt =====
-- A delta behind what is streamed, and one that repeats the end of it.
use tele_cli.Prelude.{◌≡◌, refl, String, some, text_length, reverse_onto, drop_text, take_text}
use tele_cli.Merging.{
  Output, append, merge_streamed_agent_delta_text, merge_incremental_assistant_text,
}

abbrev output : Output
output = record {
  pending_output_text = "is the answer to your question";
  streaming_output_text = "Here ";
  last_delivered_output_text = "Hello";
}

appended :
    merge_streamed_agent_delta_text output (some "Here is the answer to your question.")
    ≡ append "."
unfolding merge_streamed_agent_delta_text drop_text text_length
appended = refl

overlapping :
    merge_incremental_assistant_text output
      (some "answer to your question, in two parts: one and two")
    ≡ append ", in two parts: one and two"
unfolding merge_incremental_assistant_text text_length reverse_onto drop_text take_text
overlapping = refl

abbrev text : String
text = "answer to your question, in two parts"
