-- ===== src/Runs.antt =====
-- src/storage/operations.py: ServiceRunStore, the runs of the service. A run that starts puts back the
-- rows of the delivery queue that a dead run has claimed.
pub mod Release
pub mod Consistent
mod Examples
use tele_cli.Prelude.{
  ℕ, zero, ℤ, pos, negsuc, String, Bool, true, false, not, ◌&&◌, ◌||◌, Option, none, some, List, [],
  ◌∷◌, ◌++◌, ◌==◌, string_eq, any, find, map, ltb, if◌then◌else◌,
}
use tele_cli.Queue.Types.{Status, queued, claimed, completed, failed, Row, Store}

-- a row of service_runs; a pid that is no integer is none
pub record Run : Type 0 where
  pub run_id : String
  pub started_at : ℕ
  pub stopped_at : Option ℕ
  pub version : String
  pub pid : Option ℤ
  pub hostname : String
  pub state_dir : String
  pub exit_reason : Option String

abbrev pub has_run_id : String → Run → Bool
has_run_id run_id r = r.run_id == run_id

-- INSERT … ON CONFLICT(run_id) DO NOTHING
unfoldable pub insert_run : Run → List Run → List Run
insert_run run runs = if any (has_run_id run.run_id) runs then runs else runs ++ run ∷ []

abbrev pub is_claimed : Status → Bool
is_claimed claimed = true
is_claimed queued = false
is_claimed completed = false
is_claimed failed = false

-- q.status = 'claimed' AND q.claimed_by_run_id IS NOT NULL AND q.claimed_by_run_id != ?
unfoldable pub add_stale : String → Status → Option String → List String → List String
add_stale run_id status none ids = ids
add_stale run_id status (some i) ids =
    if is_claimed status && not (i == run_id) then i ∷ ids else ids

-- the SELECT of the runs that hold claims, without DISTINCT: the code keeps a set of them
unfoldable pub stale_run_ids : String → List Row → List String
unfolding add_stale
stale_run_ids run_id [] = []
stale_run_ids run_id (row ∷ rows) =
    add_stale run_id row.status row.claimed_by_run_id (stale_run_ids run_id rows)

abbrev pub is_present {ℓ} : {A : Type ℓ} → Option A → Bool
is_present none = false
is_present (some a) = true

-- isinstance(stale_pid, int) and stale_pid > 0 and not process_exists(stale_pid)
unfoldable pub is_gone : (process_exists : ℕ → Bool) → Option ℤ → Bool
is_gone process_exists none = false
is_gone process_exists (some (negsuc n)) = false
is_gone process_exists (some (pos n)) = ltb 0 n && not (process_exists n)

-- the tests of the loop over stale_run_ids
unfoldable pub is_dead : (process_exists : ℕ → Bool) → List Run → String → Bool
unfolding is_gone
is_dead process_exists runs run_id = elim (find (has_run_id run_id) runs) [
  | none ↦ true
  | some r ↦ is_present r.stopped_at || is_present r.exit_reason || is_gone process_exists r.pid
]

-- the loop that fills dead_run_ids
unfoldable pub dead_run_ids : (process_exists : ℕ → Bool) → List Run → List String → List String
unfolding is_dead
dead_run_ids process_exists runs [] = []
dead_run_ids process_exists runs (i ∷ ids) =
    let rest = dead_run_ids process_exists runs ids in
    if is_dead process_exists runs i then i ∷ rest else rest

-- SET status = 'queued', claimed_by_run_id = NULL, claimed_at = NULL
unfoldable pub release : Row → Row
release r = record r { status = queued; claimed_by_run_id = none; claimed_at = none }

abbrev pub same_holder : Option String → Option String → Bool
same_holder none none = true
same_holder (some i) (some j) = i == j
same_holder none (some j) = false
same_holder (some i) none = false

-- the UPDATE of the claims of one run, or of those with no run
unfoldable pub release_claims : Option String → List Row → List Row
unfolding release
release_claims holder rows =
    map
      (λ r. if is_claimed r.status && same_holder r.claimed_by_run_id holder then release r else r)
      rows

unfoldable pub release_each : List String → List Row → List Row
unfolding release_claims
release_each [] rows = rows
release_each (i ∷ ids) rows = release_each ids (release_claims (some i) rows)

-- the tables that the store reads and writes
pub record Tables : Type 0 where
  pub runs : List Run
  pub queue : Store

-- start: one transaction. `run` is the row that it inserts.
unfoldable pub start : (process_exists : ℕ → Bool) → Run → Tables → Tables
unfolding insert_run stale_run_ids dead_run_ids release_claims release_each
start process_exists run t =
    let runs = insert_run run t.runs in
    let dead = dead_run_ids process_exists runs (stale_run_ids run.run_id t.queue.rows) in
    record {
      runs = runs;
      queue = record t.queue { rows = release_each dead (release_claims none t.queue.rows) };
    }

-- stop
unfoldable pub stop : (now : ℕ) → (run_id exit_reason : String) → Tables → Tables
stop now run_id exit_reason t = record t {
  runs =
      map
        (λ r.
          if r.run_id == run_id
          then record r { stopped_at = some now; exit_reason = some exit_reason }
          else r)
        t.runs;
}
