-- ===== src/Requester.antt =====
-- backend/internal/rpc/requester.go and the Envelope of envelope.go: commands to a store's agents over
-- the broker, and the replies that come back by correlation id. A `Request` runs in four steps, each
-- one a critical section or a call of the broker, and other calls may come between any two. The channel
-- of a request, with room for one envelope, has the request's number.
-- `Deliver` is one step: between its lookup and its send the request can only end, and then nobody reads
-- its channel.
pub mod Inbound
pub mod Pending
pub mod Kept
pub mod Answered
pub mod Tracked
pub mod Tracks
pub mod Progress
mod Examples
use posserver.Prelude.{
  IsIn, IsIn-All, contains_last, All, All-append, All-weaken, contains-append, IsDistinct,
  IsDistinct-append, ℕ, zero, suc, ◌+◌, ◌-◌, ◌*◌, ◌/◌, ◌%◌, ◌^◌, ◌≤◌, ◌<◌, min, max, String, ◌≡◌,
  refl, sym, ap, ◌∙◌, ◌≢◌, ◌↔◌, ◌⊎◌, inl, inr, Bool, true, false, not, ◌&&◌, ◌||◌, Option, none,
  some, List, [], ◌∷◌, ◌++◌, map, arith, ltb, leb, ◌==◌, if◌then◌else◌, ltb→lt, lt→ltb, leb→le,
  ==_iff, tests, Bool-cases, Option-cases, length, get_elem?, take, drop, replicate, str_eq,
  str_eq_iff, str_eq_refl, ◌<>◌, contains, lookup, insert, delete, lookup-insert, lookup-delete,
}
use posserver.Broker as Streams
use posserver.Broker.{Scope, scope_eq, Broker, at, set, unset, subscribers_for, publish_command}

pub record Envelope : Type 0 where
  pub kind : String
  pub id : String
  pub payload : Option String

-- What `marshalPayload` is given: nil, JSON as it is, or a value.
pub data Any (V : Type 0) : Type 0 where
  nil : Any V
  raw : String → Any V
  value : V → Any V

-- `json.Marshal` of a payload and of an envelope; `none` is its error.
pub record Marshal (V : Type 0) : Type 0 where
  pub payload : V → Option String
  pub envelope : Envelope → Option String

-- `marshalPayload`.
unfoldable pub marshal_payload : {V : Type 0} → Marshal V → Any V → Option (Option String)
marshal_payload j nil = some none
marshal_payload j (raw text) = some (some text)
marshal_payload j (value v) = elim (j.payload v) [ none ↦ none | some text ↦ some (some text) ]

pub record Waiter : Type 0 where
  pub scope : Scope
  pub ch : ℕ

-- How far a `Request` has come: the agents were there, its waiter is registered, the command is sent.
pub data Phase : Type 0 where
  checked registered waiting : Phase

-- The variables of a running `Request`.
pub record Running : Type 0 where
  pub id : String
  pub scope : Scope
  pub payload : String
  pub phase : Phase

-- What a `Request` returns.
pub data Result : Type 0 where
  replied : Envelope → Result
  agent_offline marshal_failed timed_out cancelled : Result

pub record Returned : Type 0 where
  pub id : String
  pub scope : Scope
  pub result : Result

pub record Requester : Type 0 where
  pub broker : Broker
  pub waiters : List (String × Waiter)
  -- The requests that run, the envelopes in their channels, the number of requests begun, and what the
  -- others returned.
  pub running : List (ℕ × Running)
  pub replies : List (ℕ × Envelope)
  pub made : ℕ
  pub returned : List Returned

-- `NewRequester`.
abbrev pub new_requester : Broker → Requester
new_requester b = record {
  broker = b;
  waiters = [];
  running = [];
  replies = [];
  made = 0;
  returned = [];
}

abbrev pub give : String → Scope → Result → Requester → Requester
give id scope result r = record r {
  returned = r.returned ++ record { id = id; scope = scope; result = result } ∷ [];
}

-- The command's text.
unfoldable pub command : {V : Type 0} → Marshal V → String → Any V → String → Option String
unfolding marshal_payload
command j kind payload id = elim (marshal_payload j payload) [
  | none ↦ none
  | some text ↦ j.envelope (record { kind = kind; id = id; payload = text })
]

abbrev pub begin_with : String → Scope → Option String → Requester → Requester
begin_with id scope none r = give id scope marshal_failed r
begin_with id scope (some payload) r = record r {
  running =
      set r.made (record { id = id; scope = scope; payload = payload; phase = checked }) r.running;
  made = r.made + 1;
}

-- `Request`, up to the waiter.
unfoldable pub begin :
    {V : Type 0} → Marshal V → Scope → String → Any V → String → Requester → Requester
unfolding command set subscribers_for
begin j scope kind payload id r =
    if subscribers_for scope r.broker == 0
    then give id scope agent_offline r
    else begin_with id scope (command j kind payload id) r

-- The waiter of a request.
abbrev pub register_as : ℕ → Running → Phase → Requester → Requester
register_as k q checked r = record r {
  waiters = insert q.id (record { scope = q.scope; ch = k }) r.waiters;
  running = set k (record q { phase = registered }) r.running;
}
register_as k q _ r = r

unfoldable pub register : ℕ → Option Running → Requester → Requester
unfolding set insert
register k none r = r
register k (some q) r = register_as k q q.phase r

-- The return of a request, and its deferred deletion of the waiter.
unfoldable pub finish : ℕ → Running → Result → Requester → Requester
unfolding unset delete
finish k q result r =
    give q.id q.scope result
      (record r { waiters = delete q.id r.waiters; running = unset k r.running })

-- The command goes out; with nobody to take it the request returns.
abbrev pub send_as : ℕ → Running → Phase → Requester → Requester
send_as k q registered r =
    let sent = publish_command q.scope q.payload r.broker in
    let r' = record r { broker = sent.0 } in
    if sent.1 == 0
    then finish k q agent_offline r'
    else record r' { running = set k (record q { phase = waiting }) r.running }
send_as k q _ r = r

unfoldable pub send : ℕ → Option Running → Requester → Requester
unfolding set finish publish_command
send k none r = r
send k (some q) r = send_as k q q.phase r

-- What ends the wait of a request.
pub data Wait : Type 0 where
  for_reply timeout done : Wait

-- `case reply := <-ch`.
abbrev pub take_reply : ℕ → Running → Option Envelope → Requester → Requester
take_reply k q none r = r
take_reply k q (some env) r = finish k q (replied env) (record r { replies = unset k r.replies })

abbrev pub wake_as : ℕ → Running → Phase → Wait → Requester → Requester
wake_as k q waiting for_reply r = take_reply k q (at k r.replies) r
wake_as k q waiting timeout r = finish k q timed_out r
wake_as k q waiting done r = finish k q cancelled r
wake_as k q _ w r = r

-- The `select` of a request.
unfoldable pub wake : ℕ → Option Running → Wait → Requester → Requester
unfolding finish at unset
wake k none w r = r
wake k (some q) w r = wake_as k q q.phase w r

-- A reply that finds its waiter's channel full is dropped.
abbrev pub offer : ℕ → Envelope → Option Envelope → Requester → Requester
offer ch env none r = record r { replies = set ch env r.replies }
offer ch env (some first) r = r

unfoldable pub deliver_to : Scope → Envelope → Option Waiter → Requester → Requester × Bool
unfolding set at
deliver_to scope env none r = (r, false)
deliver_to scope env (some w) r =
    if scope_eq w.scope scope then (offer w.ch env (at w.ch r.replies) r, true) else (r, false)

-- `Deliver`.
unfoldable pub deliver : Scope → Envelope → Requester → Requester × Bool
unfolding deliver_to lookup
deliver scope env r = deliver_to scope env (lookup env.id r.waiters) r

-- The steps of the requests, the replies, and the calls of the broker by others.
pub data Step (V : Type 0) : Type 0 where
  begins : Scope → String → Any V → String → Step V
  registers sends : ℕ → Step V
  wakes : ℕ → Wait → Step V
  delivers : Scope → Envelope → Step V
  streams : Streams.Call → Step V

unfoldable pub step : {V : Type 0} → Marshal V → Requester → Step V → Requester
unfolding begin register send wake deliver at Streams.step
step j r (begins scope kind payload id) = begin j scope kind payload id r
step j r (registers k) = register k (at k r.running) r
step j r (sends k) = send k (at k r.running) r
step j r (wakes k w) = wake k (at k r.running) w r
step j r (delivers scope env) = (deliver scope env r).0
step j r (streams c) = record r { broker = Streams.step r.broker c }

unfoldable pub run : {V : Type 0} → Marshal V → Requester → List (Step V) → Requester
unfolding step
run j r [] = r
run j r (s ∷ ss) = run j (step j r s) ss
