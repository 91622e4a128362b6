-- ===== src/UseCases/ExpireReservations/Outcome.antt =====
-- What a sweep over the overdue reservations does, one by one.
use onion_architecture.Base.{
  ℕ, ◌+◌, ◌≡◌, ◌≢◌, refl, sym, ap, ◌∙◌, true, none, some, List, [], ◌∷◌, arith,
}
use onion_architecture.Base.Rows.{All, find, modify, select}
use onion_architecture.Base.Rows.Keys.{find-modify-some}
use onion_architecture.Base.Rows.Sweep.{
  length, Distinct, All-select, All-select_holds, All-found, select-Distinct,
}
use onion_architecture.Domain.{
  Reservation, ParkingSession, ReservationStatus, is_live, is_active, is_pending, same_status,
  disponible,
}
use onion_architecture.World.{World}
use onion_architecture.World.Events.{Event, slot_status_changed, occupancy_updated}
use onion_architecture.World.Env.{Env}
use onion_architecture.World.Action.{ok}
use onion_architecture.Repositories.Slots as Slots
use onion_architecture.Repositories.Slots.{slot_id, with_status}
use onion_architecture.Repositories.Reservations as Reservations
use onion_architecture.Repositories.Reservations.{reservation_id, set_status, is_overdue}
use onion_architecture.Repositories.Sessions.{session_id}
use onion_architecture.Policies.Eligibility.{is_expired}
use onion_architecture.Policies.Parking.{release_slot}
use onion_architecture.UseCases.ExpireReservations.{expire_one, expire_all, expire_overdue}
use onion_architecture.Invariant.{Consistent}
use onion_architecture.Invariant.Retire.{retire-IsConsistent}

abbrev pub expire_row : Reservation → Reservation
expire_row = set_status ReservationStatus.expired none

-- The world once one reservation has expired.
abbrev pub expired_world : Env → Reservation → World → World
expired_world env r w = record w {
  slots = modify slot_id r.slot_id (with_status env.now disponible) w.slots;
  reservations = modify reservation_id r.id expire_row w.reservations;
  sent =
      occupancy_updated r.branch_id
      ∷ slot_status_changed r.branch_id r.slot_id disponible
      ∷ Event.reservation_expired r.id r.branch_id r.slot_id
      ∷ w.sent;
}

unfoldable pub swept_world : Env → List Reservation → World → World
swept_world env [] w = w
swept_world env (r ∷ rs) w = swept_world env rs (expired_world env r w)

-- A pending reservation is live, and has no car inside.
pub pending-live : (r : Reservation) → is_pending r ≡ true → is_live r.status ≡ true
unfolding same_status
pending-live r h = ground arith

module _ (env : Env) (w : World) (c : Consistent w) (r : Reservation)
    (found : find reservation_id r.id w.reservations ≡ some r) (p : is_pending r ≡ true) where
  pub pending-outside :
      (i : ℕ) (s : ParkingSession)
      → find session_id i w.sessions ≡ some s
      → is_active s ≡ true
      → s.reservation_id ≡ r.id
      → ⊥
  unfolding same_status
  pending-outside i s hs as' e =
      let (q, eq, cq, _) = c.entered i s hs as' in
      let eq' = sym (ap (λ j. find reservation_id j w.reservations) e) ∙ eq in
      ground (arith, found, cq, p, eq')

  expire_one-eq : expire_one env r w ≡ (ok tt, expired_world env r w)
  unfolding expire_one release_slot
  expire_one-eq =
      let (s, es, _) = c.held r.id r found (pending-live r p) in
      let v = record w { reservations = modify reservation_id r.id expire_row w.reservations } in
      rw
        (
          Reservations.update_status-some r.id ReservationStatus.expired none w found,
          Slots.update_status-some env r.slot_id disponible v es,
        )
        refl

  expired_world-Consistent : Consistent (expired_world env r w)
  expired_world-Consistent =
      retire-IsConsistent c r.id env.now ReservationStatus.expired none found (pending-live r p)
        refl pending-outside

-- The candidates that are still to come: pending rows of the table, each once.
abbrev Waiting : Env → World → List Reservation → Type 0
Waiting env w cs =
    All (λ r. is_overdue env.now r ≡ true) cs
    × All (λ r. find reservation_id r.id w.reservations ≡ some r) cs
    × Distinct reservation_id cs

Waiting-next :
    (env : Env) (w : World) (r : Reservation) (cs : List Reservation)
    → Waiting env w (r ∷ cs)
    → Waiting env (expired_world env r w) cs
Waiting-next env w r cs (o, f, d) = (o.1, still cs f.1 d.0, d.1)
  where
    still :
        (ds : List Reservation)
        → All (λ q. find reservation_id q.id w.reservations ≡ some q) ds
        → All (λ q. q.id ≢ r.id) ds
        → All (λ q. find reservation_id q.id (expired_world env r w).reservations ≡ some q) ds
    still [] h n = tt
    still (q ∷ ds) h n = (
      ground (
        arith,
        n.0,
        find-modify-some reservation_id q.id r.id expire_row w.reservations {r = q} (λ r. refl) h.0,
      ),
      still ds h.1 n.1,
    )

pub expire_all-eq :
    (env : Env) (cs : List Reservation) (n : ℕ) (w : World)
    → Consistent w
    → Waiting env w cs
    → (expire_all env cs n w ≡ (ok (n + length cs), swept_world env cs w))
      × Consistent (swept_world env cs w)
unfolding expire_all is_expired swept_world
expire_all-eq env [] n w c h = (ap (λ m. (ok m, w)) (omega arith), c)
expire_all-eq env (r ∷ cs) n w c h =
    let p : is_pending r ≡ true = ground (arith, h.0.0) in
    let one = expire_one-eq env w c r h.1.0 p in
    let rest =
      expire_all-eq env cs (n + 1) (expired_world env r w)
        (expired_world-Consistent env w c r h.1.0 p) (Waiting-next env w r cs h) in
    (
      rw (h.0.0, one)
          (rest.0 ∙ ap (λ m. (ok m, swept_world env cs (expired_world env r w))) (omega arith)),
      rest.1,
    )

-- The candidates of a sweep.
abbrev pub overdue : Env → World → List Reservation
overdue env w = select (is_overdue env.now) w.reservations

overdue-Waiting : (env : Env) (w : World) → Consistent w → Waiting env w (overdue env w)
overdue-Waiting env w c = (
  All-select_holds (is_overdue env.now) w.reservations,
  All-select _ (is_overdue env.now) w.reservations
      (All-found reservation_id w.reservations c.reservations_keyed),
  select-Distinct reservation_id (is_overdue env.now) w.reservations c.reservations_keyed,
)

zip-All :
    (P Q : Reservation → Type 0) (rs : List Reservation)
    → All P rs
    → All Q rs
    → All (λ r. P r × Q r) rs
zip-All P Q [] p q = tt
zip-All P Q (r ∷ rs) p q = ((p.0, q.0), zip-All P Q rs p.1 q.1)

-- The candidates are rows of the table, and overdue.
pub overdue-rows :
    (env : Env) (w : World)
    → Consistent w
    → All
        (λ r. (find reservation_id r.id w.reservations ≡ some r) × (is_overdue env.now r ≡ true))
        (overdue env w)
overdue-rows env w c = let (o, f, _) = overdue-Waiting env w c in zip-All _ _ (overdue env w) f o

-- A sweep never throws: it expires each reservation that is overdue, and returns their number.
pub expire_overdue-eq :
    (env : Env) (w : World)
    → Consistent w
    → expire_overdue env w ≡ (ok (length (overdue env w)), swept_world env (overdue env w) w)
unfolding expire_overdue Reservations.find_expired_pending
expire_overdue-eq env w c =
    (expire_all-eq env (overdue env w) 0 w c (overdue-Waiting env w c)).0
    ∙ ap (λ m. (ok m, swept_world env (overdue env w) w)) (omega arith)

pub expire_overdue-Consistent :
    (env : Env) (w : World) → Consistent w → Consistent (expire_overdue env w).1
expire_overdue-Consistent env w c =
    rw (expire_overdue-eq env w c)
      (expire_all-eq env (overdue env w) 0 w c (overdue-Waiting env w c)).1
