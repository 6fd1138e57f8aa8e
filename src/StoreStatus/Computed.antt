-- ===== src/StoreStatus/Computed.antt =====
-- backend/internal/domain/storestatus/status.go: what a computed status says.
use posserver.Prelude.{
  ◌<◌, ◌≡◌, refl, inl, inr, Bool, true, false, not, ◌&&◌, ◌||◌, Option, none, some, arith, ltb→lt,
  Bool-cases,
}
use posserver.Prelude.Int.{ℤ}
use posserver.Order.Types.{Time}
use posserver.StoreStatus.Schedule.{Schedule, is_none, open_at}
use posserver.StoreStatus.Status.{
  Settings, Status, store_open, paused, is_later, state_of, is_open_state, next_order, compute,
}
use posserver.StoreStatus.Opens.{next_open_lem, closes_at-lt, closes_at-some}

next_order-lt :
    (sch : Schedule) (is_paused : Bool) (u : Option Time) (is_open : Bool) (now t : Time)
    → (is_paused ≡ true → is_later u now ≡ true)
    → open_at sch now ≡ is_open
    → next_order sch is_paused u is_open now ≡ some t
    → now < t
next_order-lt sch true none is_open now t p o h = absurd (ground (arith, h))
next_order-lt sch true (some u) is_open now t p o h =
    let n = next_open_lem sch u t h in omega (arith, ltb→lt now u (p refl), n.0)
next_order-lt sch false u true now t p o h = absurd (ground (arith, h))
next_order-lt sch false u false now t p o h = (next_open_lem sch now t h).1 o

paused-is_later :
    (st : Settings) (now : Time) → paused st now ≡ true → is_later st.paused_until now ≡ true
unfolding paused
paused-is_later st now h = ground (arith, h)

pub record IsConsistent (now : Time) (sch : Schedule) (st : Settings) (s : Status) : Type 0 where
  pub accepts :
      s.accepting
      ≡ (not (paused st now) && open_at sch now && (st.pickup_enabled || st.delivery_enabled))
  pub pauses : not (is_none s.pause) ≡ paused st now
  pub now_served : s.accepting ≡ true → (s.state ≡ store_open) × (s.next_open_at ≡ none)
  pub later : (t : Time) → s.next_open_at ≡ some t → (s.accepting ≡ false) × (now < t)
  pub closing_named : s.open_now ≡ true → s.hours_set ≡ true → (t : Time) × (s.closes ≡ some t)
  pub closing : (t : Time) → s.closes ≡ some t → (s.open_now ≡ true) × (now < t)

-- A status accepts orders exactly where the store is open, not paused, and has an order type on; then its
-- state is open and no later opening is named. A later opening is after now, and so is the closing time,
-- which only an open store has, and
-- which an open store with hours has.
pub compute-IsConsistent :
    (now : Time) (sch : Schedule) (st : Settings) (radius_m : ℤ)
    → IsConsistent now sch st (compute now sch st radius_m)
unfolding compute
compute-IsConsistent now sch st radius_m = record {
  accepts = ground arith;
  pauses = ground arith;
  now_served = λ a. ground (arith, a);
  later = λ t h.
      let accepting =
        is_open_state (state_of (paused st now) (open_at sch now))
        && (st.pickup_enabled || st.delivery_enabled) in
      elim (Bool-cases accepting) [
        | inl on ↦ absurd (ground (arith, h, on))
        | inr off ↦ (
          off,
          next_order-lt sch (paused st now) st.paused_until (open_at sch now) now t
              (paused-is_later st now) refl (ground (arith, h, off)),
        )
      ];
  closing_named = λ on set. let c = closes_at-some sch now on set in (c.0, rw on c.1);
  closing = λ t h. elim (Bool-cases (open_at sch now)) [
    | inl on ↦ (on, closes_at-lt sch now t (ground (arith, h, on)))
    | inr off ↦ absurd (ground (arith, h, off))
  ];
}
