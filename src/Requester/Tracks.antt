-- ===== src/Requester/Tracks.antt =====
-- backend/internal/rpc/requester.go: each step of one request keeps the others' ids and waiters.
use posserver.Prelude.{
  ℕ, String, ◌≡◌, refl, ap, ◌∙◌, inl, inr, Bool, true, false, Option, none, some, List, ◌∷◌, arith,
  ◌==◌, if◌then◌else◌, Bool-cases, str_eq_refl, contains, insert, delete, lookup-insert,
}
use posserver.Broker.{Scope, scope_eq, at, unset, publish_command}
use posserver.Requester.{
  Envelope, Waiter, Running, Phase, Requester, Wait, checked, registered, waiting, for_reply,
  timeout, done, begin_with, register, register_as, send, send_as, wake, wake_as, take_reply,
  finish, offer, deliver_to,
}
use posserver.Requester.Pending.{named}
use posserver.Requester.Tracked.{
  is_checked, waiter_of, IsTracked, drops-IsTracked, begins-IsTracked, moves-IsTracked,
  registers-IsTracked, finish-IsTracked,
}

abbrev pub Tracks : List String → Requester → Type 0
Tracks ids r = IsTracked ids r.made r.running r.waiters

module _ (ids : List String) where
  pub if-Tracks :
      (b : Bool) (r r' : Requester)
      → Tracks ids r
      → Tracks ids r'
      → Tracks ids (if b then r else r')
  if-Tracks true r r' v v' = v
  if-Tracks false r r' v v' = v'

  pub begin_with-Tracks :
      (id : String) (scope : Scope) (payload : Option String) (r : Requester)
      → contains ids id ≡ false
      → Tracks (id ∷ ids) r
      → Tracks ids (begin_with id scope payload r)
  begin_with-Tracks id scope none r f v = drops-IsTracked r.made r.running r.waiters id ids v
  begin_with-Tracks id scope (some text) r f v =
      begins-IsTracked r.made r.running r.waiters
        (record { id = id; scope = scope; payload = text; phase = checked }) ids f refl v

  register_as-Tracks :
      (k : ℕ) (q : Running) (phase : Phase) (r : Requester)
      → at k r.running ≡ some q
      → q.phase ≡ phase
      → Tracks ids r
      → Tracks ids (register_as k q phase r)
  register_as-Tracks k q checked r a c v =
      moves-IsTracked r.made r.running (insert q.id (waiter_of k q) r.waiters) ids k
        (record q { phase = registered }) (ap named a)
        (λ n. lookup-insert q.id q.id (waiter_of k q) r.waiters ∙ ground (arith, str_eq_refl q.id))
        (registers-IsTracked r.made r.running r.waiters ids k q a c v)
  register_as-Tracks k q registered r a c v = v
  register_as-Tracks k q waiting r a c v = v

  pub register-Tracks :
      (k : ℕ) (q : Option Running) (r : Requester)
      → at k r.running ≡ q
      → Tracks ids r
      → Tracks ids (register k q r)
  unfolding register
  register-Tracks k none r a v = v
  register-Tracks k (some q) r a v = register_as-Tracks k q q.phase r a refl v

  finish-Tracks :
      (k : ℕ) (q : Running) (r : Requester)
      → at k r.running ≡ some q
      → Tracks ids r
      → IsTracked ids r.made (unset k r.running) (delete q.id r.waiters)
  finish-Tracks k q r a v = finish-IsTracked r.made r.running r.waiters ids k q a v

  send_as-Tracks :
      (k : ℕ) (q : Running) (phase : Phase) (r : Requester)
      → at k r.running ≡ some q
      → q.phase ≡ phase
      → Tracks ids r
      → Tracks ids (send_as k q phase r)
  unfolding finish
  send_as-Tracks k q registered r a c v =
      if-Tracks ((publish_command q.scope q.payload r.broker).1 == 0) _ _ (finish-Tracks k q r a v)
        (moves-IsTracked r.made r.running r.waiters ids k (record q { phase = waiting })
          (ap named a) (λ n. v.waits k q a (ap is_checked c)) v)
  send_as-Tracks k q checked r a c v = v
  send_as-Tracks k q waiting r a c v = v

  pub send-Tracks :
      (k : ℕ) (q : Option Running) (r : Requester)
      → at k r.running ≡ q
      → Tracks ids r
      → Tracks ids (send k q r)
  unfolding send
  send-Tracks k none r a v = v
  send-Tracks k (some q) r a v = send_as-Tracks k q q.phase r a refl v

  take_reply-Tracks :
      (k : ℕ) (q : Running) (env : Option Envelope) (r : Requester)
      → at k r.running ≡ some q
      → Tracks ids r
      → Tracks ids (take_reply k q env r)
  unfolding finish
  take_reply-Tracks k q none r a v = v
  take_reply-Tracks k q (some env) r a v = finish-Tracks k q r a v

  wake_as-Tracks :
      (k : ℕ) (q : Running) (phase : Phase) (w : Wait) (r : Requester)
      → at k r.running ≡ some q
      → Tracks ids r
      → Tracks ids (wake_as k q phase w r)
  unfolding finish
  wake_as-Tracks k q waiting for_reply r a v = take_reply-Tracks k q (at k r.replies) r a v
  wake_as-Tracks k q waiting timeout r a v = finish-Tracks k q r a v
  wake_as-Tracks k q waiting done r a v = finish-Tracks k q r a v
  wake_as-Tracks k q checked w r a v = v
  wake_as-Tracks k q registered w r a v = v

  pub wake-Tracks :
      (k : ℕ) (q : Option Running) (w : Wait) (r : Requester)
      → at k r.running ≡ q
      → Tracks ids r
      → Tracks ids (wake k q w r)
  unfolding wake
  wake-Tracks k none w r a v = v
  wake-Tracks k (some q) w r a v = wake_as-Tracks k q q.phase w r a v

  offer-Tracks :
      (ch : ℕ) (env : Envelope) (first : Option Envelope) (r : Requester)
      → Tracks ids r
      → Tracks ids (offer ch env first r)
  offer-Tracks ch env none r v = v
  offer-Tracks ch env (some first) r v = v

  pub deliver_to-Tracks :
      (scope : Scope) (env : Envelope) (w : Option Waiter) (r : Requester)
      → Tracks ids r
      → Tracks ids (deliver_to scope env w r).0
  unfolding deliver_to
  deliver_to-Tracks scope env none r v = v
  deliver_to-Tracks scope env (some w) r v = elim (Bool-cases (scope_eq w.scope scope)) [
    | inl same ↦ rw same (offer-Tracks w.ch env (at w.ch r.replies) r v)
    | inr other ↦ rw other v
  ]
