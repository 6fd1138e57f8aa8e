-- ===== src/Broker/Examples.antt =====
-- backend/internal/infra/sse/broker.go: two agents of one store, and one of another.
use posserver.Prelude.{
  ℕ, ◌≤◌, ◌<◌, ◌≡◌, refl, false, ◌&&◌, List, [], ◌∷◌, ◌++◌, if◌then◌else◌, length,
}
use posserver.Broker.{
  Frame, Scope, Call, subscribes, unsubscribes, disconnects, publishes, new_broker, subscribers,
  has, buffer, run, publish, at, set, join, leave, disconnect_all,
}
use posserver.Broker.Counted.{count}
use posserver.Broker.Safe.{run-IsSafe, new_broker-IsSafe, run-new_broker}
use posserver.Broker.Fanout.{room, ready, publish_lem}

abbrev north : Scope
north = record { tenant_id = "t"; location_id = "north" }

abbrev south : Scope
south = record { tenant_id = "t"; location_id = "south" }

abbrev order : Frame
order = record { event = "order"; payload = "1" }

abbrev calls : List Call
calls =
    subscribes north "a"
    ∷ subscribes north "b"
    ∷ subscribes south "c"
    ∷ disconnects "a"
    ∷ unsubscribes north 0
    ∷ publishes north order
    ∷ []

one_got_it : (buffer (run new_broker calls) 1 ≡ order ∷ []) × (buffer (run new_broker calls) 2 ≡ [])
unfolding buffer run at set join leave has subscribers disconnect_all
one_got_it = (refl, refl)

run-new_broker_example :
    let b = run new_broker calls in
    (b.panicked ≡ false)
    × (count 1 b.clients ≤ 1)
    × (0 < count 1 b.clients → has b.closed 1 ≡ false)
    × (length (buffer b 1) ≤ 256)
run-new_broker_example = run-new_broker calls 1

publish_lem_example :
    let b = run new_broker calls in
    let cs = subscribers north b.clients in
    let r = publish north order b in
    (r.1 ≡ ready b cs)
    × ((c : ℕ)
        → buffer r.0 c ≡ (if has cs c && room b c then buffer b c ++ order ∷ [] else buffer b c))
publish_lem_example =
    publish_lem north order (run new_broker calls) (run-IsSafe new_broker calls new_broker-IsSafe)
