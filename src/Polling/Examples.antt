-- ===== src/Polling/Examples.antt =====
-- A thread that polls, fails and polls again, and one behind 1024 failures.
use tele_cli.Prelude.{ℕ, ◌≡◌, ◌↔◌, ◌≤◌, refl, pos, true, false, some, List, [], ◌∷◌, arith}
use tele_cli.Polling.{
  Update, Poller, new_poller, updates, telegram_error, retry_delay, poll_round, enqueue_each,
}
use tele_cli.Polling.Delays.{IsFatal, poll_round-ended}
use tele_cli.Polling.Once.{Round, poll_rounds, AllDocumented, IsOnce, all_given, poll_rounds-IsOnce}

update : ℕ → Update
update i = record { update_id = some (pos i); payload = "{}" }

abbrev rounds : List Round
unfolding update
rounds =
    record { may_poll = true; now = 1; later = 1; answer = updates (update 7 ∷ update 9 ∷ []) }
    ∷ record { may_poll = true; now = 2; later = 2; answer = telegram_error }
    ∷ record { may_poll = true; now = 3; later = 3; answer = updates (update 10 ∷ []) }
    ∷ record { may_poll = true; now = 7; later = 7; answer = updates (update 10 ∷ []) }
    ∷ []

polled-behind_delay :
    (poll_rounds (pos 5) (pos 60) rounds new_poller).enqueued ≡ update 7 ∷ update 9 ∷ update 10 ∷ []
unfolding poll_round enqueue_each new_poller retry_delay update
polled-behind_delay = refl

AllDocumented-rounds : AllDocumented (pos 5) (pos 60) rounds new_poller
unfolding AllDocumented poll_round enqueue_each new_poller retry_delay update
AllDocumented-rounds = (
  (10, (7, (refl, omega arith, (9, (refl, omega arith, omega arith))))),
  (
    tt,
    (
      (11, (10, (refl, omega arith, omega arith))),
      ((11, (10, (refl, omega arith, omega arith))), tt),
    ),
  ),
)

poll_rounds-IsOnce_example :
    IsOnce (poll_rounds (pos 5) (pos 60) rounds new_poller)
    × ((poll_rounds (pos 5) (pos 60) rounds new_poller).enqueued
        ≡ all_given (pos 5) (pos 60) rounds new_poller)
poll_rounds-IsOnce_example = poll_rounds-IsOnce (pos 5) (pos 60) rounds AllDocumented-rounds

abbrev failed_often : Poller
failed_often = record {
  offset = some (pos 10);
  telegram_failures = 1024;
  next_poll_at = 70;
  is_backoff = true;
  enqueued = [];
  ended = false;
}

ends-behind_failures :
    (poll_round (pos 5) (pos 60) true 80 100 telegram_error failed_often).ended ≡ true
unfolding poll_round retry_delay
ends-behind_failures = refl

poll_round-ended_example :
    ((poll_round (pos 5) (pos 60) true 80 100 telegram_error failed_often).ended ≡ true) ↔ (
      (true ≡ true)
      × (failed_often.next_poll_at ≤ 80)
      × IsFatal (pos 5) failed_often.telegram_failures telegram_error)
poll_round-ended_example =
    poll_round-ended (pos 5) (pos 60) true 80 100 telegram_error failed_often refl
