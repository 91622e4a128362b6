-- ===== src/Tests/Worker.antt =====
-- A worker with two messages.
use onion_architecture.Base.{◌≡◌, refl, none, some, [], ◌∷◌}
use onion_architecture.Base.Rows.{find, first, select_min}
use onion_architecture.Repositories.Slots.{is_claimable}
use onion_architecture.Policies.Eligibility.{calculate_expires_at}
use onion_architecture.Domain.{Reservation, reservation_already_active}
use onion_architecture.World.{World}
use onion_architecture.World.Events.{Resolution, request_resolved}
use onion_architecture.World.Action.{ok}
use onion_architecture.UseCases.CreateReservation.{
  create_reservation, created, process_request, resolution_of,
}
use onion_architecture.UseCases.CreateReservation.Outcome.{reservation_for}
use onion_architecture.UseCases.CreateReservation.Queue.{message_of}
use onion_architecture.Worker.{RawRequest, Message, Work, idle}
use onion_architecture.Worker.Again.{process_request-again}
use onion_architecture.Worker.Drain.{Drains, drain, drain-Drains}
use onion_architecture.Tests.Data.{env, empty_world, waiting_world, input, slot_in}
use onion_architecture.Tests.Tables.{empty-slots}

abbrev raw : RawRequest
raw = record {
  request_id = some 77;
  user_id = some 8;
  branch_id = some 1;
  slot_type = none;
  start_at = none;
  requested_at = 9000000;
}

-- One of a request, and one that is no JSON.
abbrev first_message : Message
first_message = record { tag = 1; content = some raw }

abbrev bad_message : Message
bad_message = record { tag = 2; content = none }

abbrev work : Work
work = record (idle waiting_world) { ready = first_message ∷ bad_message ∷ [] }

drain-Drains_example : Drains 1 work (drain (λ k. env) 0 work.ready work)
drain-Drains_example = drain-Drains 1 (λ k. env) 0 work refl

-- The reservation of slot 11, and the world once it is made.
abbrev made : Reservation
made = reservation_for env input (slot_in 11 1) empty_world

abbrev made_world : World
made_world = (create_reservation env input empty_world).1

process_request-again_example :
    process_request env
      (message_of env input)
      (process_request env (message_of env input) empty_world).1
    ≡ (
      ok tt,
      record made_world {
        sent =
            request_resolved 77 7 (Resolution.rejected reservation_already_active)
            ∷ request_resolved 77 7 (resolution_of (created made))
            ∷ made_world.sent;
      },
    )
unfolding create_reservation find first select_min is_claimable calculate_expires_at
process_request-again_example =
    process_request-again env env (message_of env input) empty_world {r = made} {w' = made_world}
      empty-slots refl
