-- ===== src/Queue/Process/Claims.antt =====
-- Which row process_next of src/storage/telegram_queue.py claims.
use tele_cli.Prelude.{
  ℕ, ◌≡◌, ◌≤◌, ◌<◌, ◌⊎◌, ◌↔◌, All-mono, refl, Option, none, some, List, [], ◌∷◌, true, false, arith,
  All, Bool-cases, inl, inr,
}
use mathlib.Core.List.{Memᴰ}
use tele_cli.Queue.Types.{Row, Status, queued, claimed, completed, failed}
use tele_cli.Queue.Enqueue.{is_queued}
use tele_cli.Queue.Process.{is_ready, is_before, prefer, select_next}

-- no ready row of the list comes before r
abbrev pub Best : ℕ → Row → List Row → Type 0
Best now r rows = All (λ s. is_ready now s ≡ true → is_before s r ≡ false) rows

abbrev pub Picked : ℕ → List Row → Option Row → Type 0
Picked now rows none = All (λ s. is_ready now s ≡ false) rows
Picked now rows (some r) = (is_ready now r ≡ true) × Memᴰ r rows × Best now r rows

is_before_trans :
    (x r s : Row) → is_before x s ≡ false → is_before r s ≡ true → is_before x r ≡ false
is_before_trans x r s h k = ground arith

not_before_trans :
    (x r s : Row) → is_before x r ≡ false → is_before r s ≡ false → is_before x s ≡ false
not_before_trans x r s h k = ground arith

is_before_asym : (r s : Row) → is_before r s ≡ true → is_before s r ≡ false
is_before_asym r s h = ground arith

is_before_irrefl : (r : Row) → is_before r r ≡ false
is_before_irrefl r = ground arith

Best-before :
    (now : ℕ) (r s : Row) (rows : List Row)
    → is_before r s ≡ true
    → Best now s rows
    → Best now r rows
Best-before now r s [] k b = tt
Best-before now r s (x ∷ rows) k b =
    ((λ ready. is_before_trans x r s (b.0 ready) k), Best-before now r s rows k b.1)

Best-not_before :
    (now : ℕ) (r s : Row) (rows : List Row)
    → is_before s r ≡ false
    → Best now s rows
    → Best now r rows
Best-not_before now r s [] k b = tt
Best-not_before now r s (x ∷ rows) k b =
    ((λ ready. not_before_trans x s r (b.0 ready) k), Best-not_before now r s rows k b.1)

Best-none : (now : ℕ) (r : Row) (rows : List Row) → Picked now rows none → Best now r rows
Best-none now r [] b = tt
Best-none now r (x ∷ rows) b = ((λ ready. ground arith), Best-none now r rows b.1)

skip-Picked :
    (now : ℕ) (x : Row) (rows : List Row) (o : Option Row)
    → is_ready now x ≡ false
    → Picked now rows o
    → Picked now (x ∷ rows) o
skip-Picked now x rows none e h = (e, h)
skip-Picked now x rows (some r) e h = (h.0, Memᴰ.tail h.1, ((λ ready. ground arith), h.2))

prefer-Picked :
    (now : ℕ) (x : Row) (rows : List Row) (o : Option Row)
    → is_ready now x ≡ true
    → Picked now rows o
    → Picked now (x ∷ rows) (prefer x o)
unfolding prefer
prefer-Picked now x rows none e h =
    (e, Memᴰ.head refl, ((λ _. is_before_irrefl x), Best-none now x rows h))
prefer-Picked now x rows (some r) e h = elim (Bool-cases (is_before r x)) [
  | inl before ↦ rw before (h.0, Memᴰ.tail h.1, ((λ _. is_before_asym r x before), h.2))
  | inr after ↦
      rw after
        (e, Memᴰ.head refl, ((λ _. is_before_irrefl x), Best-not_before now x r rows after h.2))
]

pub select_next-Picked : (now : ℕ) (rows : List Row) → Picked now rows (select_next now rows)
unfolding select_next
select_next-Picked now [] = tt
select_next-Picked now (x ∷ rows) = elim (Bool-cases (is_ready now x)) [
  | inl ready ↦
      rw ready (prefer-Picked now x rows (select_next now rows) ready (select_next-Picked now rows))
  | inr waits ↦
      rw waits (skip-Picked now x rows (select_next now rows) waits (select_next-Picked now rows))
]

-- WHERE status = 'queued' AND available_at <= now
pub Due : ℕ → Row → Type 0
Due now r = (r.status ≡ queued) × (r.available_at ≤ now)

-- r is not behind s by priority, and then by creation
pub NotBehind : Row → Row → Type 0
NotBehind r s =
    (r.priority < s.priority) ⊎ ((r.priority ≡ s.priority) × (r.created_at ≤ s.created_at))

pub Selected : ℕ → List Row → Option Row → Type 0
Selected now rows none = All (λ s. Due now s → ⊥) rows
Selected now rows (some r) = Due now r × Memᴰ r rows × All (λ s. Due now s → NotBehind r s) rows

queued-cases : (status : Status) → is_queued status ≡ true ↔ status ≡ queued
queued-cases queued = ground arith
queued-cases claimed = ground arith
queued-cases completed = ground arith
queued-cases failed = ground arith

ready-Due : (now : ℕ) (r : Row) → is_ready now r ≡ true ↔ Due now r
unfolding Due
ready-Due now r = ground (arith, queued-cases r.status)

not_before-NotBehind : (r s : Row) → is_before s r ≡ false → NotBehind r s
unfolding NotBehind
not_before-NotBehind r s h = ground arith

Picked-Selected :
    (now : ℕ) (rows : List Row) (o : Option Row) → Picked now rows o → Selected now rows o
unfolding Selected
Picked-Selected now rows none h =
    All-mono (λ s. is_ready now s ≡ false) (λ s. Due now s → ⊥) rows
      (λ s e d. ground (arith, e, (ready-Due now s).1 d)) h
Picked-Selected now rows (some r) h = (
  (ready-Due now r).0 h.0,
  h.1,
  All-mono (λ s. is_ready now s ≡ true → is_before s r ≡ false) (λ s. Due now s → NotBehind r s)
      rows (λ s e d. not_before-NotBehind r s (e ((ready-Due now s).1 d))) h.2,
)

-- The row that the SELECT finds is queued and available, it is a row of the table, and no other such
-- row has a smaller priority, nor the same priority and an earlier creation. Where the SELECT finds
-- nothing, no row of the table is queued and available.
pub select_next-Selected : (now : ℕ) (rows : List Row) → Selected now rows (select_next now rows)
select_next-Selected now rows =
    Picked-Selected now rows (select_next now rows) (select_next-Picked now rows)
