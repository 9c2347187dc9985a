-- ===== src/Rpc/Examples.antt =====
-- Two requests whose responses come in the other order, between a notification and a timeout.
use tele_cli.Prelude.{ℕ, ◌≡◌, refl, pos, String, true, none, some, List, [], ◌∷◌, All, arith}
use tele_cli.Rpc.{
  Payload, number, absent, object, no_object, Event, begun, wrote, read, got, timed_out, dropped,
  new_client, apply, run, reply, result_is,
}
use tele_cli.Rpc.Own.{IsRouted}
use tele_cli.Rpc.Routed.{run-IsRouted}
use tele_cli.Rpc.Responses.{Spares, answered, first_response}
use tele_cli.Rpc.Answers.{response-answered}

abbrev response : ℕ → String → Payload
response i text = record {
  id = number (pos i);
  method = none;
  params = none;
  result = some text;
  error = none;
}

abbrev notification : Payload
notification = record {
  id = absent;
  method = some "turn/started";
  params = none;
  result = none;
  error = none;
}

abbrev before : List Event
before = begun "initialize" "{}" ∷ wrote 1 true ∷ []

abbrev behind : List Event
behind =
    wrote 2 true
    ∷ read (object notification)
    ∷ timed_out 1
    ∷ read (object (response 2 "ok"))
    ∷ read (object (response 1 "late"))
    ∷ dropped 1
    ∷ got 2
    ∷ read no_object
    ∷ []

answered-behind :
    answered 2 (run behind (apply (begun "thread/start" "{}") (run before new_client)))
    ≡ some (response 2 "ok")
unfolding answered run apply new_client
answered-behind = refl

reply-ok : reply (response 2 "ok") ≡ result_is "ok"
unfolding reply
reply-ok = refl

Spares-behind : All (Spares 2) behind
Spares-behind =
    (tt, (tt, ((λ e. ground (arith, e)), (tt, (tt, ((λ e. ground (arith, e)), (tt, (tt, tt))))))))

next_id-before : (run before new_client).next_id ≡ 2
unfolding run apply new_client
next_id-before = refl

response-answered_example :
    answered
      (run before new_client).next_id
      (run behind (apply (begun "thread/start" "{}") (run before new_client)))
    ≡ first_response
        (run before new_client).next_id
        behind
        (apply (begun "thread/start" "{}") (run before new_client))
response-answered_example =
    response-answered before "thread/start" "{}" behind (rw next_id-before Spares-behind)

run-IsRouted_example : IsRouted (run behind new_client)
run-IsRouted_example = run-IsRouted behind
