-- ===== src/Requester/Kept.antt =====
-- backend/internal/rpc/requester.go: every step keeps the requests, their waiters and their replies
-- together.
use posserver.Prelude.{
  All, ℕ, String, ◌≡◌, refl, Bool, true, false, Option, none, some, List, [], ◌∷◌, arith, ◌==◌,
  if◌then◌else◌, lookup,
}
use posserver.Broker.{Broker, Scope, at, unset, subscribers_for, publish_command}
use posserver.Requester.{
  Envelope, Marshal, Running, Phase, Requester, Step, Wait, replied, agent_offline, marshal_failed,
  timed_out, cancelled, checked, registered, waiting, begins, registers, sends, wakes, delivers,
  streams, for_reply, timeout, done, begin, begin_with, command, register, register_as, send,
  send_as, wake, wake_as, take_reply, deliver, step, run,
}
use posserver.Requester.Pending.{
  at-unset, owner, named, IsSound, give-IsSound, moves-IsSound, registers-IsSound, finish-IsSound,
  begins-IsSound, deliver_to-IsSound,
}

module _ (P : Scope → Envelope → Type 0) where
  if-IsSound :
      (b : Bool) (r r' : Requester) → IsSound P r → IsSound P r' → IsSound P (if b then r else r')
  if-IsSound true r r' v v' = v
  if-IsSound false r r' v v' = v'

  streams-IsSound : (b : Broker) (r : Requester) → IsSound P r → IsSound P (record r { broker = b })
  streams-IsSound b r v = record {
    past = v.past;
    owned = v.owned;
    heard = v.heard;
    answers = v.answers;
  }

  begin_with-IsSound :
      (id : String) (scope : Scope) (payload : Option String) (r : Requester)
      → IsSound P r
      → IsSound P (begin_with id scope payload r)
  begin_with-IsSound id scope none r v = give-IsSound P id scope marshal_failed r tt v
  begin_with-IsSound id scope (some text) r v = begins-IsSound P _ r v

  register_as-IsSound :
      (k : ℕ) (q : Running) (phase : Phase) (r : Requester)
      → owner r.running k ≡ some (q.id, q.scope)
      → IsSound P r
      → IsSound P (register_as k q phase r)
  register_as-IsSound k q checked r o v =
      moves-IsSound P k (record q { phase = registered }) _ o (registers-IsSound P k q r o v)
  register_as-IsSound k q registered r o v = v
  register_as-IsSound k q waiting r o v = v

  register-IsSound :
      (k : ℕ) (q : Option Running) (r : Requester)
      → owner r.running k ≡ named q
      → IsSound P r
      → IsSound P (register k q r)
  unfolding register
  register-IsSound k none r o v = v
  register-IsSound k (some q) r o v = register_as-IsSound k q q.phase r o v

  send_as-IsSound :
      (k : ℕ) (q : Running) (phase : Phase) (r : Requester)
      → owner r.running k ≡ some (q.id, q.scope)
      → IsSound P r
      → IsSound P (send_as k q phase r)
  send_as-IsSound k q registered r o v =
      let sent = publish_command q.scope q.payload r.broker in
      if-IsSound (sent.1 == 0) _ _
        (finish-IsSound P k q agent_offline _ o tt (streams-IsSound sent.0 r v))
        (moves-IsSound P k (record q { phase = waiting }) _ o (streams-IsSound sent.0 r v))
  send_as-IsSound k q checked r o v = v
  send_as-IsSound k q waiting r o v = v

  send-IsSound :
      (k : ℕ) (q : Option Running) (r : Requester)
      → owner r.running k ≡ named q
      → IsSound P r
      → IsSound P (send k q r)
  unfolding send
  send-IsSound k none r o v = v
  send-IsSound k (some q) r o v = send_as-IsSound k q q.phase r o v

  -- The reply leaves its channel.
  takes-IsSound :
      (k : ℕ) (r : Requester) → IsSound P r → IsSound P (record r { replies = unset k r.replies })
  takes-IsSound k r v = record {
    past = λ j le. ((v.past j le).0, ground (arith, at-unset k j r.replies, (v.past j le).1));
    owned = v.owned;
    heard = λ j env id scope a. v.heard j env id scope (ground (arith, at-unset k j r.replies, a));
    answers = v.answers;
  }

  take_reply-IsSound :
      (k : ℕ) (q : Running) (env : Option Envelope) (r : Requester)
      → owner r.running k ≡ some (q.id, q.scope)
      → at k r.replies ≡ env
      → IsSound P r
      → IsSound P (take_reply k q env r)
  take_reply-IsSound k q none r o a v = v
  take_reply-IsSound k q (some env) r o a v =
      finish-IsSound P k q (replied env) _ o (v.heard k env q.id q.scope a o) (takes-IsSound k r v)

  wake_as-IsSound :
      (k : ℕ) (q : Running) (phase : Phase) (w : Wait) (r : Requester)
      → owner r.running k ≡ some (q.id, q.scope)
      → IsSound P r
      → IsSound P (wake_as k q phase w r)
  wake_as-IsSound k q waiting for_reply r o v = take_reply-IsSound k q (at k r.replies) r o refl v
  wake_as-IsSound k q waiting timeout r o v = finish-IsSound P k q timed_out r o tt v
  wake_as-IsSound k q waiting done r o v = finish-IsSound P k q cancelled r o tt v
  wake_as-IsSound k q checked w r o v = v
  wake_as-IsSound k q registered w r o v = v

  wake-IsSound :
      (k : ℕ) (q : Option Running) (w : Wait) (r : Requester)
      → owner r.running k ≡ named q
      → IsSound P r
      → IsSound P (wake k q w r)
  unfolding wake
  wake-IsSound k none w r o v = v
  wake-IsSound k (some q) w r o v = wake_as-IsSound k q q.phase w r o v

  module _ {V : Type 0} (j : Marshal V) where
    -- `P` holds of what is delivered.
    abbrev pub Delivers : Step V → Type 0
    Delivers (delivers scope env) = P scope env
    Delivers _ = Unit

    step-IsSound : (s : Step V) (r : Requester) → Delivers s → IsSound P r → IsSound P (step j r s)
    unfolding step begin deliver
    step-IsSound (begins scope kind payload id) r p v =
        if-IsSound (subscribers_for scope r.broker == 0) _ _
          (give-IsSound P id scope agent_offline r tt v)
          (begin_with-IsSound id scope (command j kind payload id) r v)
    step-IsSound (registers k) r p v = register-IsSound k (at k r.running) r refl v
    step-IsSound (sends k) r p v = send-IsSound k (at k r.running) r refl v
    step-IsSound (wakes k w) r p v = wake-IsSound k (at k r.running) w r refl v
    step-IsSound (delivers scope env) r p v =
        deliver_to-IsSound P scope env (lookup env.id r.waiters) r p refl v
    step-IsSound (streams c) r p v = streams-IsSound _ r v

    pub run-IsSound :
        (ss : List (Step V)) (r : Requester)
        → All Delivers ss
        → IsSound P r
        → IsSound P (run j r ss)
    unfolding run
    run-IsSound [] r ps v = v
    run-IsSound (s ∷ ss) r (p, ps) v = run-IsSound ss (step j r s) ps (step-IsSound s r p v)
