-- ===== src/Broker/Live.antt =====
-- backend/internal/infra/sse/broker.go: to subscribe and to leave close no channel twice.
use posserver.Prelude.{
  ℕ, ◌≤◌, ◌<◌, String, ◌≡◌, refl, inl, inr, Bool, true, false, some, List, [], ◌∷◌, arith, ◌==◌,
  if◌then◌else◌, Bool-cases, length, str_eq,
}
use posserver.Broker.{
  nil_uuid, device_is, Scope, Broker, subscriber_buffer, has, at, set, buffer, subscribers,
  subscribe_as, remove, disconnect_set, disconnect_all, disconnect_device,
}
use posserver.Broker.Counted.{
  count, has-count_in, count-join, count-leave, count-leave_self, count_in-subscribers,
}

-- The channel is with the clients at most once, and then it was made and is open.
abbrev pub IsLive : Broker → ℕ → Type 0
IsLive b c =
    (count c b.clients ≤ 1) × (0 < count c b.clients → (c < b.made) × (has b.closed c ≡ false))

pub record IsSafe (b : Broker) : Type 0 where
  pub live : (c : ℕ) → IsLive b c
  pub past : (c : ℕ) → has b.closed c ≡ true → c < b.made
  pub calm : b.panicked ≡ false
  pub fits : (c : ℕ) → length (buffer b c) ≤ subscriber_buffer

pub at-set :
    {V : Type 0} (c d : ℕ) (v : V) (m : List (ℕ × V))
    → at d (set c v m) ≡ (if c == d then some v else at d m)
unfolding at set
at-set c d v [] = refl
at-set c d v ((e, w) ∷ m) = ground (arith, at-set c d v m)

pub subscribe_as-IsSafe :
    (scope : Scope) (device_id : String) (b : Broker)
    → IsSafe b
    → IsSafe (subscribe_as scope device_id b).0
unfolding subscribe_as buffer
subscribe_as-IsSafe scope device_id b v = record {
  live = λ c. ground (arith, count-join c b.made scope b.clients, v.live c, v.past c);
  past = λ c h. ground (arith, v.past c);
  calm = v.calm;
  fits = v.fits;
}

pub remove-IsSafe : (scope : Scope) (c : ℕ) (b : Broker) → IsSafe b → IsSafe (remove scope c b)
unfolding remove buffer has
remove-IsSafe scope c b v = elim (Bool-cases (has (subscribers scope b.clients) c)) [
  | inl h ↦ rw h (record {
    live = λ d. ground (
      arith,
      count-leave d c scope b.clients,
      count-leave_self c scope b.clients,
      has-count_in c (subscribers scope b.clients),
      v.live d,
      v.live c,
    );
    past = λ d i. ground (
      arith,
      has-count_in c (subscribers scope b.clients),
      count_in-subscribers c scope b.clients,
      v.past d,
      v.live c,
    );
    calm = ground (
      arith,
      has-count_in c (subscribers scope b.clients),
      count_in-subscribers c scope b.clients,
      v.live c,
      v.calm,
    );
    fits = v.fits;
  })
  | inr h ↦ rw h (record {
    live = λ d. ground (arith, count-leave d c scope b.clients, v.live d);
    past = v.past;
    calm = v.calm;
    fits = v.fits;
  })
]

if-IsSafe : (t : Bool) (b b' : Broker) → IsSafe b → IsSafe b' → IsSafe (if t then b else b')
if-IsSafe true b b' v w = v
if-IsSafe false b b' v w = w

disconnect_set-IsSafe :
    (device_id : String) (scope : Scope) (cs : List ℕ) (b : Broker) (n : ℕ)
    → IsSafe b
    → IsSafe (disconnect_set device_id scope cs b n).0
unfolding disconnect_set
disconnect_set-IsSafe device_id scope [] b n v = v
disconnect_set-IsSafe device_id scope (c ∷ cs) b n v =
    disconnect_set-IsSafe device_id scope cs _ _ (
      if-IsSafe (device_is (at c b.devices) device_id) (remove scope c b) b
        (remove-IsSafe scope c b v) v)

disconnect_all-IsSafe :
    (device_id : String) (m : List (Scope × List ℕ)) (b : Broker) (n : ℕ)
    → IsSafe b
    → IsSafe (disconnect_all device_id m b n).0
unfolding disconnect_all
disconnect_all-IsSafe device_id [] b n v = v
disconnect_all-IsSafe device_id ((scope, set) ∷ m) b n v =
    disconnect_all-IsSafe device_id m _ _ (disconnect_set-IsSafe device_id scope set b n v)

pub disconnect_device-IsSafe :
    (device_id : String) (b : Broker) → IsSafe b → IsSafe (disconnect_device device_id b).0
unfolding disconnect_device
disconnect_device-IsSafe device_id b v = elim (Bool-cases (str_eq device_id nil_uuid)) [
  | inl h ↦ rw h v
  | inr h ↦ rw h (disconnect_all-IsSafe device_id b.clients b 0 v)
]
