-- ===== src/UseCases/ExpireReservations.antt =====
-- `ExpireOverdueReservationsUseCase`, which the scheduler runs every minute.
pub mod Outcome
pub mod Sweep
use onion_architecture.Base.{
  ℕ, zero, suc, ◌+◌, Bool, Option, none, some, List, [], ◌∷◌, if◌then◌else◌,
}
use onion_architecture.Domain.{Text, ReservationStatus, disponible, Reservation}
use onion_architecture.World.{World}
use onion_architecture.World.Events.{Event, slot_status_changed, occupancy_updated}
use onion_architecture.World.Env.{Env}
use onion_architecture.World.Action.{Action, Result, ok, err, pure, ◌>>=◌, ◌>>◌}
use onion_architecture.Repositories.Reservations as Reservations
use onion_architecture.Policies.Eligibility.{is_expired}
use onion_architecture.Policies.Parking.{release_slot}
use onion_architecture.UseCases.CreateReservation.{send}

-- The body of the loop, for a reservation whose time is over.
unfoldable pub expire_one : Env → Reservation → Action World (Unit {0})
unfolding Reservations.update_status release_slot
expire_one env r = do
  Reservations.update_status r.id ReservationStatus.expired none
  release_slot env r.slot_id
  send (Event.reservation_expired r.id r.branch_id r.slot_id)
  send (slot_status_changed r.branch_id r.slot_id disponible)
  send (occupancy_updated r.branch_id)

-- The loop over the candidates, with the count so far.
unfoldable pub expire_all : Env → List Reservation → ℕ → Action World ℕ
unfolding is_expired expire_one
expire_all env [] n = pure n
expire_all env (r ∷ rs) n = do
  let expired = is_expired r env.now
  (if expired then expire_one env r else pure tt)
  expire_all env rs (if expired then n + 1 else n)

-- `ExpireOverdueReservationsUseCase.execute`
unfoldable pub expire_overdue : Env → Action World ℕ
unfolding Reservations.find_expired_pending expire_all
expire_overdue env = do
  candidates ← Reservations.find_expired_pending env.now
  expire_all env candidates 0
