-- ===== src/Tests/Requests.antt =====
-- The requests on the small system.
use onion_architecture.Base.{◌≡◌, refl, true, Option, some, [], ◌∷◌}
use onion_architecture.Base.Rows.{find, count_where, update_many}
use onion_architecture.Domain.{Text, same_status, ReservationStatus, is_available, ParkingSlot}
use onion_architecture.World.{World}
use onion_architecture.World.Env.{Env, QrPayload, entry}
use onion_architecture.World.Action.{ok}
use onion_architecture.Repositories.Slots.{slot_id}
use onion_architecture.Repositories.Sessions.{session_id}
use onion_architecture.Policies.Parking.Entry.{entry_session}
use onion_architecture.Invariant.{Consistent}
use onion_architecture.UseCases.CreateReservation.{create_reservation}
use onion_architecture.UseCases.CreateReservation.Outcome.{Concludes, create_reservation-Concludes}
use onion_architecture.UseCases.CancelReservation.{cancel_reservation}
use onion_architecture.UseCases.CancelReservation.Outcome.{cancel_live, cancelled_world}
use onion_architecture.UseCases.CancelReservation.Cars.{cancel_stranded}
use onion_architecture.UseCases.ExpireReservations.{expire_overdue}
use onion_architecture.UseCases.ExpireReservations.Outcome.{expire_row}
use onion_architecture.UseCases.ExpireReservations.Sweep.{expire_overdue-reservations}
use onion_architecture.UseCases.RegisterEntry.{enter}
use onion_architecture.UseCases.RegisterEntry.Outcome.{enter_admits, admitted_world}
use onion_architecture.UseCases.RegisterExit.{leave}
use onion_architecture.UseCases.RegisterExit.Release.{LeavesOrStays, leave-LeavesOrStays}
use onion_architecture.System.{Request, create, handle}
use onion_architecture.System as System
use onion_architecture.System.Reach.{Reach, start, step, Reach-Consistent, IsStart}
use onion_architecture.Tests.Data.{
  env, input, empty_world, waiting_world, inside_world, reservation_in, session,
}
use onion_architecture.Tests.Tables.{empty-slots, waiting-Consistent, inside-Consistent}

empty-IsStart : IsStart empty_world
empty-IsStart = record { slots_keyed = empty-slots; no_reservations = refl; no_sessions = refl }

leave-LeavesOrStays_example : LeavesOrStays env 2 inside_world (leave env 2 inside_world)
leave-LeavesOrStays_example = leave-LeavesOrStays env 2 inside_world inside-Consistent

create_reservation-Concludes_example :
    Concludes env input empty_world (create_reservation env input empty_world)
create_reservation-Concludes_example =
    create_reservation-Concludes env input empty_world empty-slots

expire_overdue-reservations_example :
    ((expire_overdue env waiting_world).0 ≡ ok 1)
    × ((expire_overdue env waiting_world).1.reservations
        ≡ expire_row (reservation_in ReservationStatus.pending) ∷ [])
    × ((expire_overdue env waiting_world).1.sessions ≡ [])
unfolding count_where update_many same_status
expire_overdue-reservations_example =
    expire_overdue-reservations env waiting_world waiting-Consistent

cancel_live_example :
    cancel_reservation env 100 7 waiting_world
    ≡ (ok tt, cancelled_world env 7 (reservation_in ReservationStatus.pending) waiting_world)
unfolding find
cancel_live_example =
    cancel_live env 100 7 waiting_world {r = reservation_in ReservationStatus.pending} refl refl
      waiting-Consistent refl

-- User 7 cancels with the car inside.
cancel_stranded_example :
    (find session_id 101 (cancel_reservation env 100 7 inside_world).1.sessions ≡ some session)
    × (t : ParkingSlot) × (find slot_id 11 (cancel_reservation env 100 7 inside_world).1.slots
        ≡ some t)
    × (is_available t ≡ true)
unfolding find
cancel_stranded_example =
    cancel_stranded env 100 7 inside_world inside-Consistent
      {r = reservation_in ReservationStatus.confirmed} {s = session} 101 refl refl refl refl refl

enter_admits_example : enter env 1 waiting_world ≡ (
  ok (entry_session env (reservation_in ReservationStatus.pending) waiting_world),
  admitted_world env (reservation_in ReservationStatus.pending) waiting_world,
)
unfolding find
enter_admits_example =
    enter_admits env 1 waiting_world {id = 100} refl {r = reservation_in ReservationStatus.pending}
      waiting-Consistent refl refl refl refl

-- Users 7 and 8 reserve and drive in, with entry codes for reservations 100 and 102.
abbrev two_scans : Text → Option QrPayload
two_scans t = some (entry (some t))

abbrev two_env : Env
two_env = record env { verify_qr = two_scans }

abbrev world_1 : World
world_1 = handle two_env (create input) empty_world

abbrev world_2 : World
world_2 = handle two_env (System.entry 100) world_1

abbrev world_3 : World
world_3 = handle two_env (create (record input { user_id = 8 })) world_2

abbrev world_4 : World
world_4 = handle two_env (System.entry 102) world_3

two_cars : Reach world_4
two_cars = step two_env (System.entry 102) world_3 tt (
    step two_env (create (record input { user_id = 8 })) world_2 tt (
      step two_env (System.entry 100) world_1 tt
        (step two_env (create input) empty_world tt (start empty_world empty-IsStart))))

Reach-Consistent_example : Consistent world_4
Reach-Consistent_example = Reach-Consistent two_cars
