-- ===== src/Worker.antt =====
-- The reservations-worker of backend: ReservationRequestConsumer
-- (backend/src/adapters/in/messaging/reservation-request.consumer.ts) on the queue that
-- backend/src/adapters/out/messaging/rabbitmq.topology.ts declares.
pub mod Again
pub mod Drain
use onion_architecture.Base.{
  ℕ, zero, suc, ◌≡◌, ◌<◌, Bool, true, false, Option, none, some, List, [], ◌∷◌, ◌++◌, is_some,
  truthy,
}
use onion_architecture.Base.Rows.Sweep.{length}
use onion_architecture.Domain.{Text, Millis, SlotType}
use onion_architecture.World.{World}
use onion_architecture.World.Events.{RequestMessage}
use onion_architecture.World.Env.{Env}
use onion_architecture.World.Action.{Result, ok, err}
use onion_architecture.System.{Request, handle}
use onion_architecture.System.Reach.{IsOrderly}
use onion_architecture.UseCases.CreateReservation.{process_request}

-- The JSON of a message, with the fields that `parse` checks.
pub record RawRequest : Type 0 where
  pub request_id : Option Text
  pub user_id : Option Text
  pub branch_id : Option Text
  pub slot_type : Option SlotType
  pub start_at : Option Millis
  pub requested_at : Millis

-- A message of the broker: a number that tells it from others, and what it holds; none: no JSON.
pub record Message : Type 0 where
  pub tag : ℕ
  pub content : Option RawRequest

abbrev pub request_of : RawRequest → Option Text → Option Text → Option Text → Option RequestMessage
request_of raw (some r) (some u) (some b) = some (record {
  request_id = r;
  user_id = u;
  branch_id = b;
  slot_type = raw.slot_type;
  start_at = raw.start_at;
  requested_at = raw.requested_at;
})
request_of raw _ _ _ = none

-- `parse`; none: it throws
unfoldable pub parse : Option RawRequest → Option RequestMessage
parse none = none
parse (some raw) =
    request_of raw (truthy raw.request_id) (truthy raw.user_id) (truthy raw.branch_id)

-- `channel.ack`, or `channel.nack` with no requeue, with the label of the metric
pub data Verdict : Type 0 where
  processed invalid failed : Verdict

abbrev pub verdict_of : Result (Unit {0}) × World → Verdict × World
verdict_of (ok x, w) = (processed, w)
verdict_of (err e, w) = (failed, w)

abbrev pub handle_parsed : Env → Option RequestMessage → World → Verdict × World
handle_parsed env none w = (invalid, w)
handle_parsed env (some m) w = verdict_of (process_request env m w)

-- `handle`
unfoldable pub handle_message : Env → Message → World → Verdict × World
unfolding parse process_request
handle_message env m w = handle_parsed env (parse m.content) w

-- What the broker keeps, with the tables: the queue, what is delivered and not yet settled, what
-- was acknowledged, and the dead letters.
pub record Work : Type 0 where
  pub world : World
  pub ready : List Message
  pub unacked : List Message
  pub acked : List Message
  pub dead : List Message

-- A message that is settled leaves those that are not, by its verdict.
abbrev pub settle_by : Message → List Message → Work → Verdict × World → Work
settle_by m others s (processed, w) = record s { world = w; unacked = others; acked = m ∷ s.acked }
settle_by m others s (invalid, w) = record s { world = w; unacked = others; dead = m ∷ s.dead }
settle_by m others s (failed, w) = record s { world = w; unacked = others; dead = m ∷ s.dead }

-- Whether one more message may be out, as AMQP documents it: a prefetch of 0 sets no limit.
abbrev pub HasRoom : ℕ → ℕ → Type 0
HasRoom zero out = Unit {0}
HasRoom (suc prefetch) out = out < suc prefetch

-- RabbitMQ, as it documents itself, round the handler: it delivers the messages in their order while
-- there is room, and forgets a message, or puts it to the dead letters, on the verdict.
pub data Step (prefetch : ℕ) : Work → Work → Type 0 where
  deliver :
      (m : Message) (rest : List Message) (s : Work)
      → s.ready ≡ m ∷ rest
      → HasRoom prefetch (length s.unacked)
      → Step prefetch s (record s { ready = rest; unacked = s.unacked ++ m ∷ [] })
  settle :
      (m : Message) (before after : List Message) (env : Env) (s : Work)
      → s.unacked ≡ before ++ m ∷ after
      → Step prefetch s (settle_by m (before ++ after) s (handle_message env m s.world))

pub data Run (prefetch : ℕ) (s : Work) : Work → Type 0 where
  here : Run prefetch s s
  next : {t u : Work} → Run prefetch s t → Step prefetch t u → Run prefetch s u

-- A worker that starts on an empty queue.
abbrev pub idle : World → Work
idle w = record { world = w; ready = []; unacked = []; acked = []; dead = [] }
