-- ===== src/Turns/Input.antt =====
-- src/runtime/app_server_runtime.py: _build_turn_input, with build_refresh_instructions of src/runtime/sleep.py.
use tele_cli.Prelude.{
  ℕ, ◌+◌, String, Bool, not, ◌&&◌, List, [], ◌∷◌, ◌==◌, string_eq, is_text, leb, ltb, filter, map,
  length, strip, text_length, ◌<>◌, if◌then◌else◌,
}
use tele_cli.Models.{SessionRecord}

-- a tuple of load_lesson_texts
pub record Lesson : Type 0 where
  pub generation : ℕ
  pub name : String
  pub text : String

-- What the files of the workspace have: the generation of load_sleep_state, the lessons in the order of
-- their names, the stripped texts of the base files (empty for one that is missing), and what
-- render_session_instructions gives.
pub record Memory : Type 0 where
  pub generation : ℕ
  pub lessons : List Lesson
  pub rules : String
  pub personality : String
  pub long_memory : String
  pub session_instructions : String

-- load_lesson_texts
unfoldable pub load_lesson_texts : List Lesson → (start_exclusive end_inclusive : ℕ) → List Lesson
load_lesson_texts lessons start_exclusive end_inclusive =
    filter (λ l. ltb start_exclusive l.generation && leb l.generation end_inclusive) lessons

-- sum(len(text) for ...)
unfoldable pub total_chars : List Lesson → ℕ
unfolding text_length
total_chars [] = 0
total_chars (l ∷ lessons) = text_length l.text + total_chars lessons

-- separator.join(parts)
unfoldable pub join_texts : String → List String → String
join_texts separator [] = ""
join_texts separator (part ∷ []) = part
join_texts separator (part ∷ more ∷ parts) =
    part <> (separator <> join_texts separator (more ∷ parts))

unfoldable pub lesson_blocks : List Lesson → String
unfolding join_texts
lesson_blocks lessons =
    join_texts "\n\n"
      (map (λ l. "## " <> (l.name <> ("\n" <> l.text))) (filter (λ l. not (l.text == "")) lessons))

-- build_refresh_instructions, with its defaults max_lesson_chars and max_lesson_count
unfoldable pub build_refresh_instructions : Memory → (last_seen_generation : ℕ) → String × ℕ
unfolding load_lesson_texts total_chars lesson_blocks strip
build_refresh_instructions m last_seen_generation =
    let missed = load_lesson_texts m.lessons last_seen_generation m.generation in
    if leb m.generation last_seen_generation
    then ("", last_seen_generation)
    else if ltb 0 (length missed) && (leb (length missed) 3 && leb (total_chars missed) 6000)
    then (
      strip (
          "Session refresh: apply the missed daily lessons before handling the new user request.\n\n"
          <> lesson_blocks missed),
      m.generation,
    )
    else (
      strip (
          "Session refresh: your memory state was compacted during sleep. "
          <> ("Use the current base files before handling the new user request.\n\n"
              <> ("Rules:\n"
                  <> (m.rules
                      <> ("\n\nPersonality:\n"
                          <> (m.personality <> ("\n\nLong memory:\n" <> m.long_memory))))))),
      m.generation,
    )

unfoldable pub user_request : (recovered_from_error : Bool) → String → String
user_request recovered_from_error text =
    if recovered_from_error
    then "System: recovered from error, the previous message got interrupted.\n\n---\n\n" <> text
    else text

-- instructions, the heading and the request
abbrev pub with_instructions : (instructions request : String) → String
with_instructions instructions request = (instructions <> "\n\nUser request:\n") <> request

-- _build_turn_input: the session and the text
unfoldable pub build_turn_input :
    Memory
    → SessionRecord
    → (text : String) → (recovered_from_error : Bool) → SessionRecord × String
unfolding user_request build_refresh_instructions
build_turn_input m s text recovered_from_error =
    let request = user_request recovered_from_error text in
    let (refresh, generation) = build_refresh_instructions m s.last_seen_generation in
    if not s.instructions_dirty
    then (s, request)
    else if not (is_text s.thread_id)
    then (if m.session_instructions == ""
        then (s, request)
        else (s, with_instructions m.session_instructions request))
    else if refresh == ""
    then (s, request)
    else (record s { last_seen_generation = generation }, with_instructions refresh request)
