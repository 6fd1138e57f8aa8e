-- ===== src/Requester/Pending.antt =====
-- backend/internal/rpc/requester.go: which request a waiter and a reply belong to, after any steps.
use posserver.Prelude.{
  All, All-append, ℕ, ◌+◌, ◌≤◌, String, ◌≡◌, refl, sym, ◌∙◌, inl, inr, true, Option, none, some,
  List, [], ◌∷◌, arith, ◌==◌, if◌then◌else◌, Bool-cases, str_eq_iff, lookup, insert, lookup-insert,
  lookup-delete,
}
use mathlib.Core.Path.{subst}
use posserver.Broker.{Scope, scope_eq, at, set, unset}
use posserver.Broker.Live.{at-set}
use posserver.Requester.{
  Envelope, Waiter, Running, Result, Returned, Requester, replied, give, finish, offer, deliver_to,
}

pub at-unset :
    {V : Type 0} (c d : ℕ) (m : List (ℕ × V)) → at d (unset c m) ≡ (if c == d then none else at d m)
unfolding at unset
at-unset c d [] = ground arith
at-unset c d ((e, w) ∷ m) = ground (arith, at-unset c d m)

pub scope_eq-true : (s t : Scope) → scope_eq s t ≡ true → s ≡ t
scope_eq-true s t h = cc (
  (str_eq_iff s.tenant_id t.tenant_id).0 (ground arith),
  (str_eq_iff s.location_id t.location_id).0 (ground arith),
)

-- What was returned is a reply to the request, of which `P` holds.
abbrev pub IsAnswer : (Scope → Envelope → Type 0) → String → Scope → Result → Type 0
IsAnswer P id scope (replied env) = (env.id ≡ id) × P scope env
IsAnswer P id scope _ = Unit

abbrev pub named : Option Running → Option (String × Scope)
named none = none
named (some q) = some (q.id, q.scope)

-- The id and the scope of the running request of a number.
abbrev pub owner : List (ℕ × Running) → ℕ → Option (String × Scope)
owner m k = named (at k m)

pub owner-set :
    (j k : ℕ) (q : Running) (m : List (ℕ × Running))
    → owner (set j q m) k ≡ (if j == k then some (q.id, q.scope) else owner m k)
owner-set j k q m = ground (arith, at-set j k q m)

pub owner-unset :
    (j k : ℕ) (m : List (ℕ × Running)) → owner (unset j m) k ≡ (if j == k then none else owner m k)
owner-unset j k m = ground (arith, at-unset j k m)

-- A step of a request keeps its id and scope.
pub owner-set_same :
    (j k : ℕ) (q : Running) (m : List (ℕ × Running))
    → owner m j ≡ some (q.id, q.scope)
    → owner (set j q m) k ≡ owner m k
owner-set_same j k q m h = ground (arith, owner-set j k q m, h)

module _ (P : Scope → Envelope → Type 0) where
  pub record IsSound (r : Requester) : Type 0 where
    pub past : (k : ℕ) → r.made ≤ k → (owner r.running k ≡ none) × (at k r.replies ≡ none)
    pub owned :
        (id : String) (w : Waiter)
        → lookup id r.waiters ≡ some w
        → owner r.running w.ch ≡ some (id, w.scope)
    pub heard :
        (k : ℕ) (env : Envelope) (id : String) (scope : Scope)
        → at k r.replies ≡ some env
        → owner r.running k ≡ some (id, scope)
        → (env.id ≡ id) × P scope env
    pub answers : All (λ (x : Returned). IsAnswer P x.id x.scope x.result) r.returned

  pub give-IsSound :
      (id : String) (scope : Scope) (result : Result) (r : Requester)
      → IsAnswer P id scope result
      → IsSound r
      → IsSound (give id scope result r)
  give-IsSound id scope result r a v = record {
    past = v.past;
    owned = v.owned;
    heard = v.heard;
    answers = All-append _ r.returned _ v.answers (a, tt);
  }

  -- A request moves to another phase.
  pub moves-IsSound :
      (k : ℕ) (q : Running) (r : Requester)
      → owner r.running k ≡ some (q.id, q.scope)
      → IsSound r
      → IsSound (record r { running = set k q r.running })
  moves-IsSound k q r h v = record {
    past = λ j le. (owner-set_same k j q r.running h ∙ (v.past j le).0, (v.past j le).1);
    owned = λ id w l. owner-set_same k w.ch q r.running h ∙ v.owned id w l;
    heard =
        λ j env id scope a o. v.heard j env id scope a (sym (owner-set_same k j q r.running h) ∙ o);
    answers = v.answers;
  }

  pub registers-IsSound :
      (k : ℕ) (q : Running) (r : Requester)
      → owner r.running k ≡ some (q.id, q.scope)
      → IsSound r
      → IsSound (record r { waiters = insert q.id (record { scope = q.scope; ch = k }) r.waiters })
  registers-IsSound k q r h v = record {
    past = v.past;
    owned = λ id w l. ground (
      arith,
      lookup-insert q.id id (record { scope = q.scope; ch = k }) r.waiters,
      str_eq_iff q.id id,
      l,
      h,
      v.owned id w,
    );
    heard = v.heard;
    answers = v.answers;
  }

  pub finish-IsSound :
      (k : ℕ) (q : Running) (result : Result) (r : Requester)
      → owner r.running k ≡ some (q.id, q.scope)
      → IsAnswer P q.id q.scope result
      → IsSound r
      → IsSound (finish k q result r)
  unfolding finish
  finish-IsSound k q result r h a v = give-IsSound q.id q.scope result _ a (record {
    past = λ j le. (ground (arith, owner-unset k j r.running, (v.past j le).0), (v.past j le).1);
    owned = λ id w l. ground (
      arith,
      owner-unset k w.ch r.running,
      lookup-delete q.id id r.waiters,
      str_eq_iff q.id id,
      l,
      h,
      v.owned id w,
    );
    heard = λ j env id scope a o.
        v.heard j env id scope a (ground (arith, owner-unset k j r.running, o));
    answers = v.answers;
  })

  pub begins-IsSound :
      (q : Running) (r : Requester)
      → IsSound r
      → IsSound (record r { running = set r.made q r.running; made = r.made + 1 })
  begins-IsSound q r v = record {
    past = λ j le. (
      ground (arith, owner-set r.made j q r.running, v.past j (omega arith)),
      (v.past j (omega arith)).1,
    );
    owned = λ id w l.
        ground
          (arith, owner-set r.made w.ch q r.running, v.owned id w l, v.past r.made (omega arith));
    heard = λ j env id scope a o.
        v.heard j env id scope a
          (ground (arith, owner-set r.made j q r.running, o, a, v.past r.made (omega arith)));
    answers = v.answers;
  }

  offer-IsSound :
      (ch : ℕ) (env : Envelope) (first : Option Envelope) (r : Requester) (id : String)
      (scope : Scope)
      → env.id ≡ id
      → P scope env
      → owner r.running ch ≡ some (id, scope)
      → IsSound r
      → IsSound (offer ch env first r)
  offer-IsSound ch env (some first) r id scope e p o v = v
  offer-IsSound ch env none r id scope e p o v = record {
    past = λ j le. (
      (v.past j le).0,
      ground (arith, at-set ch j env r.replies, (v.past j le).0, (v.past j le).1, o),
    );
    owned = v.owned;
    heard = λ j env' id' scope' a o'. elim (Bool-cases (ch == j)) [
      | inl same ↦
          (let env≡ : env ≡ env' = ground (arith, at-set ch j env r.replies, a, same) in
            let scope≡ : scope ≡ scope' = ground (arith, o, o', same) in
            let id≡ : id ≡ id' = ground (arith, o, o', same) in
            (cc (e, env≡, id≡), subst (λ s. P s env') scope≡ (subst (P scope) env≡ p)))
      | inr other ↦
          v.heard j env' id' scope' (ground (arith, at-set ch j env r.replies, a, other)) o'
    ];
    answers = v.answers;
  }

  pub deliver_to-IsSound :
      (scope : Scope) (env : Envelope) (w : Option Waiter) (r : Requester)
      → P scope env
      → lookup env.id r.waiters ≡ w
      → IsSound r
      → IsSound (deliver_to scope env w r).0
  unfolding deliver_to
  deliver_to-IsSound scope env none r p l v = v
  deliver_to-IsSound scope env (some w) r p l v = elim (Bool-cases (scope_eq w.scope scope)) [
    | inl same ↦ rw same (
        offer-IsSound w.ch env (at w.ch r.replies) r env.id scope refl p
          (subst (λ s. owner r.running w.ch ≡ some (env.id, s)) (scope_eq-true w.scope scope same)
            (v.owned env.id w l))
          v)
    | inr other ↦ rw other v
  ]
