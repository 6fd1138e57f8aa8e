-- ===== src/Requester/Examples.antt =====
-- backend/internal/rpc/requester.go: a ping to the agent of a store, its reply, and one of another store.
use posserver.Prelude.{
  All, String, ◌≡◌, refl, true, none, some, List, [], ◌∷◌, ◌++◌, ◌<>◌, contains,
}
use posserver.Broker.{Scope, subscribes, new_broker, at}
use posserver.Requester.{
  Envelope, Marshal, nil, Running, waiting, Step, for_reply, begins, registers, sends, wakes,
  delivers, streams, run, step, deliver, begin, register, send, wake, new_requester,
}
use posserver.Requester.Answered.{IsAnswered, run-IsAnswered, run-no_waiters}
use posserver.Requester.Progress.{Receives, deliver_lem}

abbrev plain : Marshal String
plain = record { payload = λ text. some text; envelope = λ env. some (env.kind <> " " <> env.id) }

abbrev north : Scope
north = record { tenant_id = "t"; location_id = "north" }

abbrev south : Scope
south = record { tenant_id = "t"; location_id = "south" }

abbrev pong : Envelope
pong = record { kind = "ping.reply"; id = "p1"; payload = none }

abbrev asked : List (Step String)
asked =
    streams (subscribes north "agent")
    ∷ begins north "ping" nil "p1"
    ∷ registers 0
    ∷ sends 0
    ∷ begins south "ping" nil "p2"
    ∷ delivers south pong
    ∷ []

abbrev ended : List (Step String)
ended = asked ++ delivers north pong ∷ wakes 0 for_reply ∷ []

abbrev ping : Running
ping = record { id = "p1"; scope = north; payload = "ping p1"; phase = waiting }

pinged : at 0 (run plain (new_requester new_broker) asked).running ≡ some ping
unfolding run begin register send wake deliver
pinged = refl

all_ended : (run plain (new_requester new_broker) ended).running ≡ []
unfolding run begin register send wake deliver
all_ended = refl

run-IsAnswered_example :
    All (IsAnswered ended) (run plain (new_requester new_broker) ended).returned
run-IsAnswered_example = run-IsAnswered plain new_broker ended

run-no_waiters_example : (run plain (new_requester new_broker) ended).waiters ≡ []
run-no_waiters_example = run-no_waiters plain new_broker ended all_ended

deliver_lem_example :
    let r = run plain (new_requester new_broker) asked in
    ((deliver north pong r).1 ≡ true)
    × Receives plain 0 ping pong r
        (step plain (step plain r (delivers north pong)) (wakes 0 for_reply))
unfolding contains
deliver_lem_example =
    deliver_lem plain new_broker asked 0 ping pong (refl, (refl, tt)) pinged refl refl
