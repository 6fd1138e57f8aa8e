-- ===== src/Requester/Inbound.antt =====
-- backend/internal/rpc/requester.go, `RegisterInbound` and `DispatchInbound`: messages that an agent starts.
use posserver.Prelude.{String, Option, none, some, List, ◌<>◌, lookup, insert}
use posserver.Broker.{Scope}
use posserver.Requester.{Any, nil, Marshal, Envelope, marshal_payload}

-- What a handler returns: its error, or a reply, nil for none.
pub data Handled (V : Type 0) : Type 0 where
  failed : Handled V
  answered : Any V → Handled V

abbrev pub InboundHandler : Type 0 → Type 0
InboundHandler V = Scope → Option String → Handled V

-- What `DispatchInbound` returns.
pub data Dispatched : Type 0 where
  unknown broken acknowledged : Dispatched
  answers : Envelope → Dispatched

-- `RegisterInbound`, on the map of handlers.
abbrev pub register_inbound :
    {V : Type 0}
    → String
    → InboundHandler V
    → List (String × InboundHandler V)
    → List (String × InboundHandler V)
register_inbound kind h inbound = insert kind h inbound

abbrev reply_with : Envelope → Option (Option String) → Dispatched
reply_with env none = broken
reply_with env (some text) =
    answers (record { kind = env.kind <> ".reply"; id = env.id; payload = text })

unfoldable pub answer : {V : Type 0} → Marshal V → Envelope → Handled V → Dispatched
unfolding marshal_payload
answer j env failed = broken
answer j env (answered nil) = acknowledged
answer j env (answered reply) = reply_with env (marshal_payload j reply)

abbrev handle : {V : Type 0} → Marshal V → Scope → Envelope → Option (InboundHandler V) → Dispatched
handle j scope env none = unknown
handle j scope env (some h) = answer j env (h scope env.payload)

-- `DispatchInbound`.
unfoldable pub dispatch_inbound :
    {V : Type 0} → Marshal V → Scope → Envelope → List (String × InboundHandler V) → Dispatched
unfolding answer
dispatch_inbound j scope env inbound = handle j scope env (lookup env.kind inbound)
