-- ===== src/Realtime/Publisher/Told.antt =====
-- Which sockets hear of what happens in the parking.
use onion_architecture.Base.{◌≡◌, refl, Bool, false, Option, none, some, List, ◌==◌}
use onion_architecture.Domain.{Text}
use onion_architecture.World.{World}
use onion_architecture.World.Events.{
  Event, reservation_created, reservation_expired, reservation_cancelled, slot_status_changed,
  occupancy_updated, entry_registered, exit_registered, request_resolved, audit, confirmation_email,
  request_queued,
}
use onion_architecture.Auth.Tokens.{Claims}
use onion_architecture.Realtime.{
  Room, Socket, Envelope, Target, to_branch, to_user, rooms_of, Relay, relay_message,
}
use onion_architecture.Realtime.Hub.{Reach}
use onion_architecture.Realtime.Audience.{IsUnion, PassedOn, relay_message-PassedOn}
use onion_architecture.Realtime.Publisher.{Payload, of_event, envelope_of}
use onion_architecture.Realtime.Publisher.Name as Name

-- The sockets that should hear of an event: the admins, with those that joined the branch where it
-- happens, or with those of the user whose request was answered.
abbrev pub meant_for : Event → Option Target
meant_for (reservation_created r b s u t) = some (to_branch b)
meant_for (reservation_expired r b s) = some (to_branch b)
meant_for (reservation_cancelled r b s) = some (to_branch b)
meant_for (slot_status_changed b s t) = some (to_branch b)
meant_for (occupancy_updated b) = some (to_branch b)
meant_for (entry_registered i b s u) = some (to_branch b)
meant_for (exit_registered i b s) = some (to_branch b)
meant_for (request_resolved i u r) = some (to_user u)
meant_for _ = none

-- The exchange hands a message that was published to the relay.
abbrev pub relayed : Option (Envelope Payload) → Relay Payload → Relay Payload
relayed none r = r
relayed (some e) r = relay_message (some e) r

module _ (delivers : List Room → List Room → Bool) (union : IsUnion delivers)
    (jwt_verify : Text → Option Claims) {ss : List Socket} (reach : Reach jwt_verify ss) where
  abbrev pub Tells :
      Option (Envelope Payload) → Option Target → Relay Payload → Relay Payload → Type 0
  Tells (some e) (some t) r r' = PassedOn delivers union ss e t (rooms_of t) r r'
  Tells none none r r' = r' ≡ r
  Tells _ _ r r' = ⊥

  told :
      (event : Text) (t : Target) (payload : Payload) (r : Relay Payload)
      → (event == 0) ≡ false
      → Tells
          (some (record { event = event; target = some t; payload = payload }))
          (some t)
          r
          (relay_message (some (record { event = event; target = some t; payload = payload })) r)
  told event t payload r named =
      relay_message-PassedOn delivers union jwt_verify reach
        (record { event = event; target = some t; payload = payload }) t r named refl

  -- Whatever clients have connected, joined and left, where a broadcast reaches the sockets that
  -- are in one of its rooms: a notice that backend publishes is passed on to just the sockets
  -- that it is meant for, those of admins with those that joined its branch, or with those of
  -- the user who is answered; what is no notice for sockets is not passed on.
  pub envelope_of-Tells :
      (w : World) (ev : Event) (r : Relay Payload)
      → Tells (envelope_of w ev) (meant_for ev) r (relayed (envelope_of w ev) r)
  unfolding envelope_of
  envelope_of-Tells w (reservation_created r b s u t) z =
      told Name.created (to_branch b) (of_event (reservation_created r b s u t)) z refl
  envelope_of-Tells w (reservation_expired r b s) z =
      told Name.expired (to_branch b) (of_event (reservation_expired r b s)) z refl
  envelope_of-Tells w (reservation_cancelled r b s) z =
      told Name.cancelled (to_branch b) (of_event (reservation_cancelled r b s)) z refl
  envelope_of-Tells w (slot_status_changed b s t) z =
      told Name.slot_changed (to_branch b) (of_event (slot_status_changed b s t)) z refl
  envelope_of-Tells w (entry_registered i b s u) z =
      told Name.entry (to_branch b) (of_event (entry_registered i b s u)) z refl
  envelope_of-Tells w (exit_registered i b s) z =
      told Name.exit (to_branch b) (of_event (exit_registered i b s)) z refl
  envelope_of-Tells w (occupancy_updated b) z = told Name.occupancy_changed (to_branch b) _ z refl
  envelope_of-Tells w (request_resolved i u r) z =
      told Name.resolved (to_user u) (of_event (request_resolved i u r)) z refl
  envelope_of-Tells w (audit a) z = refl
  envelope_of-Tells w (confirmation_email m) z = refl
  envelope_of-Tells w (request_queued m) z = refl
