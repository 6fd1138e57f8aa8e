-- ===== src/Broker.antt =====
-- backend/internal/infra/sse/broker.go: live streams by store, and the frames that are sent to them. The
-- mutex makes each call one step. A Go channel is a number, its buffer a list of frames; to close a
-- closed channel, or to send on one, panics.
pub mod Counted
pub mod Live
pub mod Safe
pub mod Fanout
mod Examples
use posserver.Prelude.{
  IsIn, IsIn-All, contains_last, All, All-append, All-weaken, contains-append, IsDistinct,
  IsDistinct-append, ℕ, zero, suc, ◌+◌, ◌-◌, ◌*◌, ◌/◌, ◌%◌, ◌^◌, ◌≤◌, ◌<◌, min, max, String, ◌≡◌,
  refl, sym, ap, ◌∙◌, ◌≢◌, ◌↔◌, ◌⊎◌, inl, inr, Bool, true, false, not, ◌&&◌, ◌||◌, Option, none,
  some, List, [], ◌∷◌, ◌++◌, map, arith, ltb, leb, ◌==◌, if◌then◌else◌, ltb→lt, lt→ltb, leb→le,
  ==_iff, tests, Bool-cases, Option-cases, length, get_elem?, take, drop, replicate, str_eq,
  str_eq_iff, str_eq_refl, ◌<>◌, contains, lookup, insert, delete, lookup-insert, lookup-delete,
}

pub record Frame : Type 0 where
  pub event : String
  pub payload : String

pub record Scope : Type 0 where
  pub tenant_id : String
  pub location_id : String

abbrev pub scope_eq : Scope → Scope → Bool
scope_eq s t = str_eq s.tenant_id t.tenant_id && str_eq s.location_id t.location_id

-- What the broker calls on a subscription: `Wake` or `WakeScope`.
pub data Waker : Type 0 where
  waker scope_waker : Waker

pub data Wake : Type 0 where
  wake : Wake
  wake_scope : Scope → Wake

pub record Broker : Type 0 where
  pub clients : List (Scope × List ℕ)
  pub devices : List (ℕ × String)
  pub waker : Option Waker
  pub on_subscribe : List ℕ
  -- The channels made so far, their buffers, those closed, and what a misuse of them leaves.
  pub made : ℕ
  pub buffers : List (ℕ × List Frame)
  pub closed : List ℕ
  pub panicked : Bool
  -- What other goroutines were told.
  pub wakes : List Wake
  pub hooks_run : List (ℕ × Scope)

abbrev pub subscriber_buffer : ℕ
subscriber_buffer = 256

abbrev pub nil_uuid : String
nil_uuid = "00000000-0000-0000-0000-000000000000"

unfoldable pub has : List ℕ → ℕ → Bool
has [] c = false
has (d ∷ ds) c = d == c || has ds c

module _ {V : Type 0} where
  -- A map with channels as keys.
  unfoldable pub at : ℕ → List (ℕ × V) → Option V
  at c [] = none
  at c ((d, v) ∷ m) = if d == c then some v else at c m

  unfoldable pub set : ℕ → V → List (ℕ × V) → List (ℕ × V)
  set c v [] = (c, v) ∷ []
  set c v ((d, w) ∷ m) = if d == c then (d, v) ∷ m else (d, w) ∷ set c v m

  unfoldable pub unset : ℕ → List (ℕ × V) → List (ℕ × V)
  unset c [] = []
  unset c ((d, w) ∷ m) = if d == c then unset c m else (d, w) ∷ unset c m

abbrev pub or_empty : Option (List Frame) → List Frame
or_empty none = []
or_empty (some q) = q

-- The frames in a channel's buffer.
unfoldable pub buffer : Broker → ℕ → List Frame
buffer b c = or_empty (at c b.buffers)

-- `b.clients[scope]`.
unfoldable pub subscribers : Scope → List (Scope × List ℕ) → List ℕ
subscribers scope [] = []
subscribers scope ((s, set) ∷ m) = if scope_eq s scope then set else subscribers scope m

unfoldable pub join : Scope → ℕ → List (Scope × List ℕ) → List (Scope × List ℕ)
join scope c [] = (scope, c ∷ []) ∷ []
join scope c ((s, set) ∷ m) =
    if scope_eq s scope then (s, set ++ c ∷ []) ∷ m else (s, set) ∷ join scope c m

-- `New`.
abbrev pub new_broker : Broker
new_broker = record {
  clients = [];
  devices = [];
  waker = none;
  on_subscribe = [];
  made = 0;
  buffers = [];
  closed = [];
  panicked = false;
  wakes = [];
  hooks_run = [];
}

-- `OnSubscribe`, `SetWaker`.
unfoldable pub add_hook : ℕ → Broker → Broker
add_hook fn b = record b { on_subscribe = b.on_subscribe ++ fn ∷ [] }

unfoldable pub set_waker : Waker → Broker → Broker
set_waker w b = record b { waker = some w }

abbrev wakes_of : Option Waker → Scope → List Wake
wakes_of none scope = []
wakes_of (some waker) scope = wake ∷ []
wakes_of (some scope_waker) scope = wake_scope scope ∷ []

-- `SubscribeAs`; the channel is `b.made`.
unfoldable pub subscribe_as : Scope → String → Broker → Broker × ℕ
unfolding join set
subscribe_as scope device_id b = (
  record b {
    clients = join scope b.made b.clients;
    devices = set b.made device_id b.devices;
    made = b.made + 1;
    wakes = b.wakes ++ wakes_of b.waker scope;
    hooks_run = b.hooks_run ++ map (λ (fn : ℕ). (fn, scope)) b.on_subscribe;
  },
  b.made,
)

-- `Subscribe`.
unfoldable pub subscribe : Scope → Broker → Broker × ℕ
unfolding subscribe_as
subscribe scope b = subscribe_as scope nil_uuid b

-- `close(ch)`.
abbrev pub close : ℕ → Broker → Broker
close c b = record b { closed = c ∷ b.closed; panicked = b.panicked || has b.closed c }

unfoldable pub without : ℕ → List ℕ → List ℕ
without c [] = []
without c (d ∷ ds) = if d == c then without c ds else d ∷ without c ds

abbrev is_nil : List ℕ → Bool
is_nil [] = true
is_nil (c ∷ cs) = false

-- The set of the scope, and the scope itself once its set is empty.
unfoldable pub leave : Scope → ℕ → List (Scope × List ℕ) → List (Scope × List ℕ)
unfolding without
leave scope c [] = []
leave scope c ((s, set) ∷ m) =
    let set' = without c set in
    if scope_eq s scope
    then (if is_nil set' then m else (s, set') ∷ m)
    else (s, set) ∷ leave scope c m

-- `removeLocked`, which is also what the returned unsubscribe function calls.
unfoldable pub remove : Scope → ℕ → Broker → Broker
unfolding leave has unset
remove scope c b =
    let b' = record b { clients = leave scope c b.clients } in
    if has (subscribers scope b.clients) c
    then close c (record b' { devices = unset c b.devices })
    else b'

abbrev pub device_is : Option String → String → Bool
device_is none device_id = str_eq nil_uuid device_id
device_is (some d) device_id = str_eq d device_id

unfoldable pub disconnect_set : String → Scope → List ℕ → Broker → ℕ → Broker × ℕ
unfolding remove
disconnect_set device_id scope [] b n = (b, n)
disconnect_set device_id scope (c ∷ cs) b n =
    let gone = device_is (at c b.devices) device_id in
    disconnect_set device_id scope cs (if gone then remove scope c b else b)
      (if gone then n + 1 else n)

-- A loop over a map that deletes the entry it is at visits each entry once.
unfoldable pub disconnect_all : String → List (Scope × List ℕ) → Broker → ℕ → Broker × ℕ
unfolding disconnect_set
disconnect_all device_id [] b n = (b, n)
disconnect_all device_id ((scope, set) ∷ m) b n =
    let r = disconnect_set device_id scope set b n in disconnect_all device_id m r.0 r.1

-- `DisconnectDevice`.
unfoldable pub disconnect_device : String → Broker → Broker × ℕ
unfolding disconnect_all
disconnect_device device_id b =
    if str_eq device_id nil_uuid then (b, 0) else disconnect_all device_id b.clients b 0

-- `SubscribersFor`.
unfoldable pub subscribers_for : Scope → Broker → ℕ
unfolding subscribers
subscribers_for scope b = length (subscribers scope b.clients)

-- `select { case ch <- frame: … default: … }`.
unfoldable pub try_send : ℕ → Frame → Broker → Broker × Bool
unfolding buffer at set has
try_send c frame b =
    if has b.closed c
    then (record b { panicked = true }, false)
    else if ltb (length (buffer b c)) subscriber_buffer
    then (record b { buffers = set c (buffer b c ++ frame ∷ []) b.buffers }, true)
    else (b, false)

unfoldable pub send_all : List ℕ → Frame → Broker → ℕ → Broker × ℕ
unfolding try_send
send_all [] frame b delivered = (b, delivered)
send_all (c ∷ cs) frame b delivered =
    let sent = try_send c frame b in
    send_all cs frame sent.0 (if sent.1 then delivered + 1 else delivered)

-- `Publish`.
unfoldable pub publish : Scope → Frame → Broker → Broker × ℕ
unfolding send_all subscribers
publish scope frame b = send_all (subscribers scope b.clients) frame b 0

-- `PublishCommand`.
unfoldable pub publish_command : Scope → String → Broker → Broker × ℕ
unfolding publish
publish_command scope payload b = publish scope (record { event = "command"; payload = payload }) b

abbrev pub rest_of : List Frame → List Frame
rest_of [] = []
rest_of (f ∷ fs) = fs

-- The stream's handler takes the next frame of its channel.
unfoldable pub receive : ℕ → Broker → Broker
unfolding buffer set
receive c b = record b { buffers = set c (rest_of (buffer b c)) b.buffers }

pub data Call : Type 0 where
  subscribes : Scope → String → Call
  unsubscribes : Scope → ℕ → Call
  disconnects : String → Call
  publishes : Scope → Frame → Call
  receives : ℕ → Call

unfoldable pub step : Broker → Call → Broker
unfolding subscribe_as remove disconnect_device publish receive
step b (subscribes scope device_id) = (subscribe_as scope device_id b).0
step b (unsubscribes scope c) = remove scope c b
step b (disconnects device_id) = (disconnect_device device_id b).0
step b (publishes scope frame) = (publish scope frame b).0
step b (receives c) = receive c b

unfoldable pub run : Broker → List Call → Broker
unfolding step
run b [] = b
run b (c ∷ cs) = run (step b c) cs
