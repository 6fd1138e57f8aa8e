-- ===== src/Broker/Fanout.antt =====
-- backend/internal/infra/sse/broker.go, `Publish`: who gets a frame.
use posserver.Prelude.{
  All, ℕ, ◌+◌, ◌≤◌, ◌≡◌, refl, sym, inl, inr, Bool, false, ◌&&◌, List, [], ◌∷◌, ◌++◌, arith, ltb,
  ◌==◌, if◌then◌else◌, Bool-cases, length,
}
use posserver.Broker.{
  Frame, Scope, Broker, subscriber_buffer, has, buffer, subscribers, try_send, send_all, publish,
}
use posserver.Broker.Counted.{count_in, has-count_in, count_in-subscribers}
use posserver.Broker.Live.{IsSafe, at-set}
use posserver.Broker.Safe.{AreOpen, All-has, subscribers-AreOpen}

-- There is room in the channel's buffer.
abbrev pub room : Broker → ℕ → Bool
room b c = ltb (length (buffer b c)) subscriber_buffer

-- How many of the channels have room.
abbrev pub ready : Broker → List ℕ → ℕ
ready b [] = 0
ready b (c ∷ cs) = (if room b c then 1 else 0) + ready b cs

-- A send to one channel.
record SendsOne (c : ℕ) (frame : Frame) (b : Broker) (r : Broker × Bool) : Type 0 where
  answer : r.1 ≡ room b c
  closed : r.0.closed ≡ b.closed
  here : buffer r.0 c ≡ (if room b c then buffer b c ++ frame ∷ [] else buffer b c)
  else_where : (d : ℕ) → (c == d) ≡ false → buffer r.0 d ≡ buffer b d

try_send-SendsOne :
    (c : ℕ) (frame : Frame) (b : Broker)
    → has b.closed c ≡ false
    → SendsOne c frame b (try_send c frame b)
unfolding try_send buffer
try_send-SendsOne c frame b h = elim (Bool-cases (room b c)) [
  | inl r ↦
      rw (h, r)
        (record {
          answer = sym r;
          closed = refl;
          here = ground (arith, at-set c c (buffer b c ++ frame ∷ []) b.buffers);
          else_where = λ d e. ground (arith, at-set c d (buffer b c ++ frame ∷ []) b.buffers);
        })
  | inr r ↦
      rw (h, r)
        (record { answer = sym r; closed = refl; here = ground arith; else_where = λ d e. refl })
]

ready_same :
    (b b' : Broker) (cs : List ℕ)
    → All (λ (c : ℕ). buffer b' c ≡ buffer b c) cs
    → ready b' cs ≡ ready b cs
ready_same b b' [] p = refl
ready_same b b' (c ∷ cs) (p, ps) = rw (p, ready_same b b' cs ps)

record SendsAll (cs : List ℕ) (frame : Frame) (b : Broker) (n : ℕ) (r : Broker × ℕ) : Type 0 where
  delivered : r.1 ≡ n + ready b cs
  buffers :
      (c : ℕ)
      → buffer r.0 c ≡ (if has cs c && room b c then buffer b c ++ frame ∷ [] else buffer b c)

counted_one :
    (sent ready : Bool) (n : ℕ)
    → sent ≡ ready
    → (if sent then n + 1 else n) ≡ n + (if ready then 1 else 0)
counted_one sent ready n e = ground arith

send_all-SendsAll :
    (cs : List ℕ) (frame : Frame) (b : Broker) (n : ℕ)
    → AreOpen b cs
    → ((c : ℕ) → count_in c cs ≤ 1)
    → SendsAll cs frame b n (send_all cs frame b n)
unfolding send_all has count_in
send_all-SendsAll [] frame b n o once = record { delivered = omega arith; buffers = λ c. refl }
send_all-SendsAll (c ∷ cs) frame b n (o, os) once =
    let s = try_send-SendsOne c frame b o in
    let sent = try_send c frame b in
    let rest =
      send_all-SendsAll cs frame sent.0 (if sent.1 then n + 1 else n) (rw s.closed os)
        (λ d. ground (arith, once d)) in
    let same : All (λ (d : ℕ). buffer sent.0 d ≡ buffer b d) cs =
      All-has _ cs (λ d h. s.else_where d (ground (arith, has-count_in d cs, once d))) in
    record {
      delivered = omega (
        arith,
        rest.delivered,
        ready_same b sent.0 cs same,
        counted_one sent.1 (room b c) n s.answer,
      );
      buffers =
          λ d. ground (arith, rest.buffers d, s.here, s.else_where d, has-count_in d cs, once d);
    }

-- A published frame is put behind the others of each channel of its store that has room, no other
-- channel gets anything, and the answer is how many channels got it.
pub publish_lem :
    (scope : Scope) (frame : Frame) (b : Broker)
    → IsSafe b
    → let cs = subscribers scope b.clients in
      let r = publish scope frame b in
      (r.1 ≡ ready b cs)
      × ((c : ℕ)
          → buffer r.0 c ≡ (if has cs c && room b c then buffer b c ++ frame ∷ [] else buffer b c))
unfolding publish
publish_lem scope frame b v =
    let cs = subscribers scope b.clients in
    let s =
      send_all-SendsAll cs frame b 0 (subscribers-AreOpen scope b v)
        (λ c. omega (arith, count_in-subscribers c scope b.clients, (v.live c).0)) in
    (omega (arith, s.delivered), s.buffers)
