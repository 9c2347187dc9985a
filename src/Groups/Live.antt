-- ===== src/Groups/Live.antt =====
-- The table of chunks of src/storage/telegram_groups.py as a map from a group and an index to what is
-- shown in Telegram.
use tele_cli.Prelude.{
  ℕ, zero, suc, ◌+◌, ◌≤◌, ◌<◌, ◌≡◌, ◌≢◌, refl, ◌∙◌, ap, inl, inr, ℤ, pos, negsuc, int_eq,
  int_beq_iff, String, true, false, ◌&&◌, Option, none, some, List, [], ◌∷◌, ◌++◌, ◌==◌, string_eq,
  any, find, map, leb, ltb, length, get_elem?, if◌then◌else◌, arith, eq_iff, eq_refl, Bool-cases,
  take_text, utf8_length,
}
use tele_cli.Queue.Types.{Chunk}
use tele_cli.Groups.{
  ChunkRow, chunk_row, chunk_rows, is_chunk, new_chunk, upsert_chunk, upsert_chunks, reaches,
  delete_chunks_from, sync_message_chunks, is_undeleted, chunk_payload_limit_bytes,
}

-- the message id and the HTML of a chunk that is not deleted
abbrev pub shown : Option Chunk → Option (Option ℤ × String)
shown none = none
shown (some c) =
    if is_undeleted c.deleted_at then some (c.telegram_message_id, c.rendered_html) else none

-- what the table shows under a group and an index
unfoldable pub live : String → ℤ → List Chunk → Option (Option ℤ × String)
live group index chunks = shown (find (is_chunk group index) chunks)

module _ (now : ℕ) (group : String) (r : ChunkRow) where
  abbrev overwritten : Chunk → Chunk
  overwritten c =
      if is_chunk group (pos r.index) c
      then record (new_chunk now group r) { created_at = c.created_at }
      else c

  overwritten-found :
      (chunks : List Chunk)
      → any (is_chunk group (pos r.index)) chunks ≡ true
      → shown (find (is_chunk group (pos r.index)) (map overwritten chunks))
        ≡ some (r.message_id, r.inline_html)
  unfolding new_chunk
  overwritten-found [] h = ground (arith, h)
  overwritten-found (c ∷ chunks) h =
      ground
        (arith, h, overwritten-found chunks, eq_refl group, int_beq_iff (pos r.index) (pos r.index))

  appended-found :
      (chunks : List Chunk)
      → any (is_chunk group (pos r.index)) chunks ≡ false
      → shown (find (is_chunk group (pos r.index)) (chunks ++ new_chunk now group r ∷ []))
        ≡ some (r.message_id, r.inline_html)
  unfolding new_chunk
  appended-found [] h = ground (arith, h, eq_refl group, int_beq_iff (pos r.index) (pos r.index))
  appended-found (c ∷ chunks) h = ground (arith, h, appended-found chunks)

  overwritten-other :
      (g : String) (i : ℤ) (chunks : List Chunk)
      → (g ≡ group → i ≢ pos r.index)
      → find (is_chunk g i) (map overwritten chunks) ≡ find (is_chunk g i) chunks
  unfolding new_chunk
  overwritten-other g i [] n = refl
  overwritten-other g i (c ∷ chunks) n = ground (
    arith,
    n,
    overwritten-other g i chunks n,
    eq_iff c.message_group_id group,
    eq_iff c.message_group_id g,
    eq_iff group g,
    int_beq_iff c.chunk_index (pos r.index),
    int_beq_iff c.chunk_index i,
    int_beq_iff (pos r.index) i,
  )

  appended-other :
      (g : String) (i : ℤ) (chunks : List Chunk)
      → (g ≡ group → i ≢ pos r.index)
      → find (is_chunk g i) (chunks ++ new_chunk now group r ∷ []) ≡ find (is_chunk g i) chunks
  unfolding new_chunk
  appended-other g i [] n = ground (arith, n, eq_iff group g, int_beq_iff (pos r.index) i)
  appended-other g i (c ∷ chunks) n = ground (arith, appended-other g i chunks n)

  upsert_chunk-live :
      (chunks : List Chunk)
      → live group (pos r.index) (upsert_chunk now group r chunks)
        ≡ some (r.message_id, r.inline_html)
  unfolding live upsert_chunk
  upsert_chunk-live chunks = elim (Bool-cases (any (is_chunk group (pos r.index)) chunks)) [
    | inl e ↦ rw e (overwritten-found chunks e)
    | inr e ↦ rw e (appended-found chunks e)
  ]

  upsert_chunk-live_other :
      (g : String) (i : ℤ) (chunks : List Chunk)
      → (g ≡ group → i ≢ pos r.index)
      → live g i (upsert_chunk now group r chunks) ≡ live g i chunks
  unfolding live upsert_chunk
  upsert_chunk-live_other g i chunks n =
      elim (Bool-cases (any (is_chunk group (pos r.index)) chunks)) [
        | inl e ↦ rw e (ap shown (overwritten-other g i chunks n))
        | inr e ↦ rw e (ap shown (appended-other g i chunks n))
      ]

delete_chunks_from-live :
    (now : ℕ) (group g : String) (n : ℕ) (i : ℤ) (chunks : List Chunk)
    → live g i (delete_chunks_from now group n chunks)
      ≡ (if g == group && reaches n i then none else live g i chunks)
unfolding live delete_chunks_from
delete_chunks_from-live now group g n i [] = ground arith
delete_chunks_from-live now group g n i (c ∷ chunks) = ground (
  arith,
  delete_chunks_from-live now group g n i chunks,
  eq_iff c.message_group_id group,
  eq_iff c.message_group_id g,
  eq_iff g group,
  int_beq_iff c.chunk_index i,
)

pos-distinct : (a b : ℕ) → a < b → pos a ≢ pos b
pos-distinct a b h e = ground (arith, h, e)

get_elem?-none :
    (rendered : List String) (j : ℕ) → length rendered ≤ j → get_elem? rendered j ≡ none
get_elem?-none [] j h = refl
get_elem?-none (c ∷ rendered) zero h = absurd (omega arith)
get_elem?-none (c ∷ rendered) (suc j) h = get_elem?-none rendered j (omega arith)

-- the HTML that the row of a chunk holds: one that is too long is cut
abbrev pub kept_html : String → String
kept_html chunk =
    if ltb chunk_payload_limit_bytes (utf8_length chunk) then take_text 2048 chunk else chunk

-- What is to be shown under an index, by the chunks from that index on and all ids.
abbrev pub expected : Option String → Option ℤ → Option (Option ℤ × String)
expected none message_id = none
expected (some chunk) message_id = some (message_id, kept_html chunk)

module _ (now : ℕ) (artifact_for : ℕ → String) (group : String) (ids : List ℤ) where
  upsert_chunks-live_other :
      (g : String) (i : ℤ) (k : ℕ) (rendered : List String) (chunks : List Chunk)
      → (g ≡ group → (j : ℕ) → k ≤ j → j < k + length rendered → i ≢ pos j)
      → live g i (upsert_chunks now group (chunk_rows artifact_for k rendered ids) chunks)
        ≡ live g i chunks
  unfolding upsert_chunks chunk_rows chunk_row
  upsert_chunks-live_other g i k [] chunks n = refl
  upsert_chunks-live_other g i k (c ∷ rendered) chunks n =
      let r = chunk_row artifact_for k c (get_elem? ids k) in
      upsert_chunks-live_other g i (suc k) rendered (upsert_chunk now group r chunks)
        (λ e j a b. n e j (omega arith) (omega arith))
      ∙ upsert_chunk-live_other now group r g i chunks (λ e. n e k (omega arith) (omega arith))

  upsert_chunks-live :
      (k j : ℕ) (rendered : List String) (chunks : List Chunk)
      → j < length rendered
      → live group
          (pos (k + j))
          (upsert_chunks now group (chunk_rows artifact_for k rendered ids) chunks)
        ≡ expected (get_elem? rendered j) (get_elem? ids (k + j))
  unfolding upsert_chunks chunk_rows chunk_row
  upsert_chunks-live k j [] chunks h = absurd (omega arith)
  upsert_chunks-live k zero (c ∷ rendered) chunks h =
      let r = chunk_row artifact_for k c (get_elem? ids k) in
      let e : k + 0 ≡ k = omega arith in
      rw e (
        upsert_chunks-live_other group (pos k) (suc k) rendered (upsert_chunk now group r chunks)
          (λ q j a b z. pos-distinct k j (omega arith) z)
        ∙ upsert_chunk-live now group r chunks)
  upsert_chunks-live k (suc j) (c ∷ rendered) chunks h =
      let r = chunk_row artifact_for k c (get_elem? ids k) in
      let e : k + suc j ≡ suc k + j = omega arith in
      rw e (upsert_chunks-live (suc k) j rendered (upsert_chunk now group r chunks) (omega arith))

  deleted-live :
      (g : String) (i : ℤ) (rendered : List String) (chunks : List Chunk)
      → live g i (sync_message_chunks now artifact_for group rendered ids chunks) ≡ (
          if g == group && reaches (length rendered) i
          then none
          else live g i (upsert_chunks now group (chunk_rows artifact_for 0 rendered ids) chunks))
  unfolding sync_message_chunks
  deleted-live g i rendered chunks =
      delete_chunks_from-live now group g (length rendered) i
        (upsert_chunks now group (chunk_rows artifact_for 0 rendered ids) chunks)

  -- After sync_message_chunks the table shows under the group of the message and an index the
  -- message id and the HTML (cut, if it is longer than 4096 bytes) of the chunk of that index, and nothing behind
  -- the last chunk, whatever rows and deletions of an earlier, longer or shorter message it had there. What it shows under
  -- another group it does not change, nor under a negative index.
  pub sync_message_chunks-live :
      (rendered : List String) (chunks : List Chunk)
      → let after = sync_message_chunks now artifact_for group rendered ids chunks in
        ((j : ℕ) → live group (pos j) after ≡ expected (get_elem? rendered j) (get_elem? ids j))
        × ((g : String) (i : ℤ) → g ≢ group → live g i after ≡ live g i chunks)
        × ((j : ℕ) → live group (negsuc j) after ≡ live group (negsuc j) chunks)
  sync_message_chunks-live rendered chunks = (
    (λ j. elim (Bool-cases (leb (length rendered) j)) [
      | inl e ↦
          deleted-live group (pos j) rendered chunks
          ∙ rw (eq_refl group, e, get_elem?-none rendered j (ground (arith, e))) refl
      | inr e ↦
          deleted-live group (pos j) rendered chunks
          ∙ rw (eq_refl group, e)
              (let z : 0 + j ≡ j = omega arith in
                rw z at (upsert_chunks-live 0 j rendered chunks (ground (arith, e))))
    ]),
    (λ g i d.
        deleted-live g i rendered chunks
        ∙ ground (arith, d, eq_iff g group)
        ∙ upsert_chunks-live_other g i 0 rendered chunks (λ q. absurd (d q))),
    (λ j.
        deleted-live group (negsuc j) rendered chunks
        ∙ ground (arith)
        ∙ upsert_chunks-live_other group (negsuc j) 0 rendered chunks
            (λ q k a b z. ground (arith, z))),
  )
