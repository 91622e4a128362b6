-- ===== src/UseCases/CreateReservation/Queue.antt =====
-- The queue in front of the use case: each request is either queued or refused, and each message
-- that is taken from it gets one answer.
use onion_architecture.Base.{◌≡◌, refl, inl, inr, ◌∷◌, Bool-cases}
use onion_architecture.Base.Rows.{Keyed}
use onion_architecture.Domain.{Text, domain, infra, reservation_queue_unavailable}
use onion_architecture.World.{World}
use onion_architecture.World.Events.{RequestMessage, Resolution, request_resolved, request_queued}
use onion_architecture.World.Env.{Env}
use onion_architecture.World.Action.{Result, ok, err}
use onion_architecture.Repositories.Slots.{slot_id}
use onion_architecture.UseCases.CreateReservation.{
  CreateReservationInput, CreateReservationResult, create_reservation, request_reservation,
  process_request, resolve, resolution_of, input_of,
}
use onion_architecture.UseCases.CreateReservation.Outcome.{Concludes, create_reservation-Concludes}

-- The message that a request puts in the queue.
abbrev pub message_of : Env → CreateReservationInput → RequestMessage
message_of env input = record {
  request_id = env.random_uuid;
  user_id = input.user_id;
  branch_id = input.branch_id;
  slot_type = input.slot_type;
  start_at = input.start_at;
  requested_at = env.now;
}

-- The caller gets the identifier of a message that is in the queue and asks for what the caller
-- asked, or an error and nothing is queued.
abbrev pub Queues : Env → CreateReservationInput → World → Result Text × World → Type 0
Queues env input w (ok id, w') =
    (id ≡ (message_of env input).request_id)
    × (input_of (message_of env input) ≡ input)
    × (w' ≡ record w { sent = request_queued (message_of env input) ∷ w.sent })
Queues env input w (err e, w') = (e ≡ domain reservation_queue_unavailable) × (w' ≡ w)

-- A request for the queue returns the identifier of a message that asks for just what was asked
-- and is now queued, or throws that the queue is unavailable and queues nothing.
request_reservation-Queues :
    (env : Env) (input : CreateReservationInput) (w : World)
    → Queues env input w (request_reservation env input w)
unfolding request_reservation
request_reservation-Queues env input w =
    elim (Bool-cases (env.enqueue_accepted (message_of env input))) [
      | inl e ↦ rw e (refl, refl, refl)
      | inr e ↦ rw e (refl, refl)
    ]

-- What the consumer answers to the outcome of the use case.
abbrev pub Answers :
    RequestMessage
    → World
    → Result CreateReservationResult × World
    → Result (Unit {0}) × World
    → Type 0
Answers m w (ok r, w') x = x ≡ (
  ok tt,
  record w' { sent = request_resolved m.request_id m.user_id (resolution_of r) ∷ w'.sent },
)
Answers m w (err (domain e), w') x = x ≡ (
  ok tt,
  record w { sent = request_resolved m.request_id m.user_id (Resolution.rejected e) ∷ w.sent },
)
Answers m w (err (infra e), w') x = x ≡ (err (infra e), w)

resolve-Answers :
    (env : Env) (m : RequestMessage) (w : World) (x : Result CreateReservationResult × World)
    → Concludes env (input_of m) w x
    → Answers m w x (resolve m x.0 x.1)
resolve-Answers env m w (ok r, w') h = refl
resolve-Answers env m w (err (domain e), w') h = rw h refl
resolve-Answers env m w (err (infra e), w') h = rw h refl

-- Where slots have distinct identifiers: a message that is processed gets one answer, the result
-- of the use case or its domain error, in which case nothing else is changed; a failure that is
-- no domain error is thrown on, and nothing is changed.
process_request-Answers :
    (env : Env) (m : RequestMessage) (w : World)
    → Keyed slot_id w.slots
    → Answers m w (create_reservation env (input_of m) w) (process_request env m w)
unfolding process_request
process_request-Answers env m w k =
    resolve-Answers env m w _ (create_reservation-Concludes env (input_of m) w k)
