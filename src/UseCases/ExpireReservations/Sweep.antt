-- ===== src/UseCases/ExpireReservations/Sweep.antt =====
-- The tables after a sweep: nothing overdue is left, and the slots of what expired are free.
use onion_architecture.Base.{
  ◌≡◌, refl, ap, ◌∙◌, ◌⊎◌, inl, inr, true, some, List, [], ◌∷◌, arith, ◌==◌, Bool-cases,
}
use onion_architecture.Base.Rows.{All, find, update_many, count_where}
use onion_architecture.Base.Rows.Keys.{find-modify-some}
use onion_architecture.Base.Rows.Sweep.{sweep, sweep-select, length-select, All-mono}
use onion_architecture.Domain.{
  Text, Millis, ParkingSlot, Reservation, same_status, disponible, is_available,
}
use onion_architecture.World.{World}
use onion_architecture.World.Env.{Env}
use onion_architecture.World.Action.{ok}
use onion_architecture.Repositories.Slots.{slot_id, with_status}
use onion_architecture.Repositories.Reservations.{reservation_id, is_overdue}
use onion_architecture.UseCases.ExpireReservations.{expire_overdue}
use onion_architecture.UseCases.ExpireReservations.Outcome.{
  expire_row, expired_world, swept_world, overdue, expire_overdue-eq, expire_overdue-Consistent,
  pending-live, overdue-rows,
}
use onion_architecture.Invariant.{Consistent}

swept-reservations :
    (env : Env) (cs : List Reservation) (w : World)
    → (swept_world env cs w).reservations ≡ sweep reservation_id expire_row cs w.reservations
unfolding swept_world sweep
swept-reservations env [] w = refl
swept-reservations env (r ∷ cs) w = swept-reservations env cs (expired_world env r w)

swept-sessions :
    (env : Env) (cs : List Reservation) (w : World) → (swept_world env cs w).sessions ≡ w.sessions
unfolding swept_world
swept-sessions env [] w = refl
swept-sessions env (r ∷ cs) w = swept-sessions env cs (expired_world env r w)

-- In consistent tables, a sweep returns the number of overdue pending reservations, turns just
-- those into expired ones in one pass over the table, and leaves the sessions alone.
pub expire_overdue-reservations :
    (env : Env) (w : World)
    → Consistent w
    → ((expire_overdue env w).0 ≡ ok (count_where (is_overdue env.now) w.reservations))
      × ((expire_overdue env w).1.reservations
          ≡ update_many (is_overdue env.now) expire_row w.reservations)
      × ((expire_overdue env w).1.sessions ≡ w.sessions)
expire_overdue-reservations env w c =
    let q = length-select (is_overdue env.now) w.reservations in
    rw (expire_overdue-eq env w c) (
      ap ok q,
      swept-reservations env (overdue env w) w
          ∙ sweep-select reservation_id expire_row (is_overdue env.now) w.reservations (λ r. refl)
              c.reservations_keyed,
      swept-sessions env (overdue env w) w,
    )

none_left :
    (now : Millis) (rs : List Reservation)
    → count_where (is_overdue now) (update_many (is_overdue now) expire_row rs) ≡ 0
unfolding count_where update_many same_status
none_left now [] = refl
none_left now (r ∷ rs) = ground (arith, none_left now rs)

-- In consistent tables, a sweep right after another one, at the same time, finds nothing and
-- returns 0.
expire_overdue_twice :
    (env : Env) (w : World) → Consistent w → (expire_overdue env (expire_overdue env w).1).0 ≡ ok 0
expire_overdue_twice env w c =
    let (_, rows, _) = expire_overdue-reservations env w c in
    (expire_overdue-reservations env (expire_overdue env w).1 (expire_overdue-Consistent env w c)).0
    ∙ ap ok (ap (count_where (is_overdue env.now)) rows ∙ none_left env.now w.reservations)

-- A slot that is there and free.
abbrev pub IsFree : World → Text → Type 0
IsFree w k = (s : ParkingSlot) × (find slot_id k w.slots ≡ some s) × (is_available s ≡ true)

-- The release of a slot leaves the free slots free, and frees that one.
release-IsFree :
    (env : Env) (r : Reservation) (k : Text) (w : World) (s : ParkingSlot)
    → find slot_id k w.slots ≡ some s
    → (k ≡ r.slot_id) ⊎ (is_available s ≡ true)
    → IsFree (expired_world env r w) k
release-IsFree env r k w s e a =
    let q =
      find-modify-some slot_id k r.slot_id (with_status env.now disponible) w.slots {r = s}
        (λ s. refl) e in
    elim (Bool-cases (k == r.slot_id)) [
      | inl y ↦ (with_status env.now disponible s, ground (arith, q), refl)
      | inr n ↦ (s, ground (arith, q), ground (arith, a))
    ]

swept-IsFree :
    (env : Env) (cs : List Reservation) (k : Text) (w : World)
    → IsFree w k
    → IsFree (swept_world env cs w) k
unfolding swept_world
swept-IsFree env [] k w h = h
swept-IsFree env (r ∷ cs) k w (s, e, a) =
    swept-IsFree env cs k (expired_world env r w) (release-IsFree env r k w s e (inr a))

abbrev HasSlot : World → Reservation → Type 0
HasSlot w r = (s : ParkingSlot) × (find slot_id r.slot_id w.slots ≡ some s)

HasSlot-expired :
    (env : Env) (r : Reservation) (w : World) (q : Reservation)
    → HasSlot w q
    → HasSlot (expired_world env r w) q
HasSlot-expired env r w q (s, e) = (
  _,
  find-modify-some slot_id q.slot_id r.slot_id (with_status env.now disponible) w.slots {r = s}
      (λ s. refl) e,
)

swept-All :
    (env : Env) (cs : List Reservation) (w : World)
    → All (HasSlot w) cs
    → All (λ r. IsFree (swept_world env cs w) r.slot_id) cs
unfolding swept_world
swept-All env [] w h = tt
swept-All env (r ∷ cs) w h = (
  swept-IsFree env cs r.slot_id (expired_world env r w)
      (release-IsFree env r r.slot_id w h.0.0 h.0.1 (inl refl)),
  swept-All env cs (expired_world env r w)
      (All-mono (HasSlot w) (HasSlot (expired_world env r w)) (HasSlot-expired env r w) cs h.1),
)

-- In consistent tables, after a sweep the slot of every reservation that was overdue is free.
expire_overdue-IsFree :
    (env : Env) (w : World)
    → Consistent w
    → All (λ r. IsFree (expire_overdue env w).1 r.slot_id) (overdue env w)
expire_overdue-IsFree env w c = rw (expire_overdue-eq env w c) (
    swept-All env (overdue env w) w (
      All-mono _ (HasSlot w)
        (λ r h. let (s, e, _) = c.held r.id r h.0 (pending-live r (ground (arith, h.1))) in (s, e))
        (overdue env w) (overdue-rows env w c)))
