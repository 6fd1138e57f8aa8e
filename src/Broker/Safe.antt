-- ===== src/Broker/Safe.antt =====
-- backend/internal/infra/sse/broker.go: no call closes a channel twice or sends on a closed one, and no
-- buffer overflows.
use posserver.Prelude.{
  All, ℕ, ◌+◌, ◌≤◌, ◌<◌, ◌≡◌, refl, inl, inr, true, false, List, [], ◌∷◌, ◌++◌, arith, ltb,
  Bool-cases, length,
}
use posserver.Broker.{
  rest_of, Frame, Scope, Broker, Call, subscribes, unsubscribes, disconnects, publishes, receives,
  new_broker, subscriber_buffer, has, at, buffer, subscribers, try_send, send_all, publish, receive,
  step, run,
}
use posserver.Broker.Counted.{count, has-count_in, count_in-subscribers}
use posserver.Broker.Live.{
  IsSafe, at-set, subscribe_as-IsSafe, remove-IsSafe, disconnect_device-IsSafe,
}

-- The channels are open.
abbrev pub AreOpen : Broker → List ℕ → Type 0
AreOpen b = All (λ (c : ℕ). has b.closed c ≡ false)

pub length-last : (q : List Frame) (f : Frame) → length (q ++ f ∷ []) ≡ length q + 1
length-last [] f = refl
length-last (g ∷ q) f = omega (arith, length-last q f)

record Sends (b b' : Broker) : Type 0 where
  safe : IsSafe b'
  same : b'.closed ≡ b.closed

try_send-Sends :
    (c : ℕ) (frame : Frame) (b : Broker)
    → has b.closed c ≡ false
    → IsSafe b
    → Sends b (try_send c frame b).0
unfolding try_send buffer
try_send-Sends c frame b h v = elim (Bool-cases (ltb (length (buffer b c)) subscriber_buffer)) [
  | inl room ↦
      rw (h, room)
        (record {
          safe = record {
            live = v.live;
            past = v.past;
            calm = v.calm;
            fits = λ d. ground (
              arith,
              at-set c d (buffer b c ++ frame ∷ []) b.buffers,
              length-last (buffer b c) frame,
              v.fits d,
            );
          };
          same = refl;
        })
  | inr full ↦ rw (h, full) (record { safe = v; same = refl })
]

send_all-IsSafe :
    (cs : List ℕ) (frame : Frame) (b : Broker) (n : ℕ)
    → AreOpen b cs
    → IsSafe b
    → IsSafe (send_all cs frame b n).0
unfolding send_all
send_all-IsSafe [] frame b n o v = v
send_all-IsSafe (c ∷ cs) frame b n (o, os) v =
    let s = try_send-Sends c frame b o v in send_all-IsSafe cs frame _ _ (rw s.same os) s.safe

pub All-has : (P : ℕ → Type 0) (cs : List ℕ) → ((c : ℕ) → has cs c ≡ true → P c) → All P cs
unfolding has
All-has P [] f = tt
All-has P (c ∷ cs) f = (f c (ground arith), All-has P cs (λ d h. f d (ground arith)))

pub subscribers-AreOpen :
    (scope : Scope) (b : Broker) → IsSafe b → AreOpen b (subscribers scope b.clients)
subscribers-AreOpen scope b v = All-has _ (subscribers scope b.clients) λ c h. ground (
  arith,
  has-count_in c (subscribers scope b.clients),
  count_in-subscribers c scope b.clients,
  v.live c,
)

publish-IsSafe :
    (scope : Scope) (frame : Frame) (b : Broker) → IsSafe b → IsSafe (publish scope frame b).0
unfolding publish
publish-IsSafe scope frame b v =
    send_all-IsSafe (subscribers scope b.clients) frame b 0 (subscribers-AreOpen scope b v) v

length-rest_of : (q : List Frame) → length (rest_of q) ≤ length q
length-rest_of [] = omega arith
length-rest_of (f ∷ fs) = omega arith

receive-IsSafe : (c : ℕ) (b : Broker) → IsSafe b → IsSafe (receive c b)
unfolding receive buffer
receive-IsSafe c b v = record {
  live = v.live;
  past = v.past;
  calm = v.calm;
  fits = λ d. ground (
    arith,
    at-set c d (rest_of (buffer b c)) b.buffers,
    length-rest_of (buffer b c),
    v.fits d,
    v.fits c,
  );
}

step-IsSafe : (b : Broker) (call : Call) → IsSafe b → IsSafe (step b call)
unfolding step
step-IsSafe b (subscribes scope device_id) v = subscribe_as-IsSafe scope device_id b v
step-IsSafe b (unsubscribes scope c) v = remove-IsSafe scope c b v
step-IsSafe b (disconnects device_id) v = disconnect_device-IsSafe device_id b v
step-IsSafe b (publishes scope frame) v = publish-IsSafe scope frame b v
step-IsSafe b (receives c) v = receive-IsSafe c b v

pub run-IsSafe : (b : Broker) (calls : List Call) → IsSafe b → IsSafe (run b calls)
unfolding run
run-IsSafe b [] v = v
run-IsSafe b (c ∷ cs) v = run-IsSafe (step b c) cs (step-IsSafe b c v)

pub new_broker-IsSafe : IsSafe new_broker
unfolding buffer at count has
new_broker-IsSafe = record {
  live = λ c. (omega arith, λ h. absurd (omega arith));
  past = λ c h. absurd (cc);
  calm = refl;
  fits = λ c. omega arith;
}

-- Whatever calls a broker gets, in any order and with any channels, no channel is closed twice or sent
-- to once it is closed, every subscribed channel is open and in one place, and no buffer is over its
-- size.
pub run-new_broker :
    (calls : List Call) (c : ℕ)
    → let b = run new_broker calls in
      (b.panicked ≡ false)
      × (count c b.clients ≤ 1)
      × (0 < count c b.clients → has b.closed c ≡ false)
      × (length (buffer b c) ≤ 256)
run-new_broker calls c =
    let v = run-IsSafe new_broker calls new_broker-IsSafe in
    (v.calm, (v.live c).0, λ h. ((v.live c).1 h).1, v.fits c)
