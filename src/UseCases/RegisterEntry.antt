-- ===== src/UseCases/RegisterEntry.antt =====
-- `RegisterEntryUseCase`.
pub mod Outcome
use onion_architecture.Base.{Option, none, some, Bool, truthy}
use onion_architecture.Domain.{
  Text, ocupada, Reservation, ParkingSession, Failure, domain, invalid_qr_code,
}
use onion_architecture.World.{World}
use onion_architecture.World.Events.{entry_registered, slot_status_changed, occupancy_updated}
use onion_architecture.World.Env.{Env, QrPayload, entry, exit}
use onion_architecture.World.Action.{Action, Result, ok, err, pure, or_throw, ◌>>=◌, ◌>>◌}
use onion_architecture.Repositories.Reservations as Reservations
use onion_architecture.Policies.Parking.{register_entry}
use onion_architecture.UseCases.CreateReservation.{send}

-- `payload.type !== 'ENTRY' || !payload.reservationId`
abbrev pub entry_target : Option QrPayload → Option Text
entry_target (some (entry id)) = truthy id
entry_target _ = none

abbrev pub announce_entry : Option Reservation → ParkingSession → Action World (Unit {0})
announce_entry none s = pure tt
announce_entry (some r) s = do
  send (entry_registered s.id r.branch_id s.slot_id s.user_id)
  send (slot_status_changed r.branch_id s.slot_id ocupada)
  send (occupancy_updated r.branch_id)

-- `RegisterEntryUseCase.execute`
unfoldable pub enter : Env → Text → Action World ParkingSession
unfolding register_entry Reservations.find_by_id
enter env qr = do
  id ← or_throw (entry_target (env.verify_qr qr)) (domain invalid_qr_code)
  s ← register_entry env id
  found ← Reservations.find_by_id id
  announce_entry found s
  pure s
