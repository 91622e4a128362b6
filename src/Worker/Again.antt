-- ===== src/Worker/Again.antt =====
-- A message that is handled a second time.
use onion_architecture.Base.{
  ◌≡◌, refl, ap, ◌∙◌, inl, inr, Bool, true, some, List, [], ◌∷◌, ◌++◌, arith, ==_iff, subst,
  Bool-cases,
}
use onion_architecture.Base.Rows.{first, Keyed}
use onion_architecture.Domain.{Reservation, domain, reservation_already_active}
use onion_architecture.World.{World}
use onion_architecture.World.Events.{RequestMessage, Resolution, request_resolved}
use onion_architecture.World.Env.{Env}
use onion_architecture.World.Action.{ok, err}
use onion_architecture.Repositories.Slots.{slot_id}
use onion_architecture.Repositories.Reservations.{is_live_of, find_active_by_user}
use onion_architecture.Policies.Eligibility.{can_create_reservation}
use onion_architecture.UseCases.CreateReservation.{
  create_reservation, created, process_request, input_of, resolution_of,
}
use onion_architecture.UseCases.CreateReservation.Outcome.{
  Creates, Concludes, create_reservation-Concludes,
}

first-snoc :
    {R : Type 0} (p : R → Bool) (rs : List R) (r : R)
    → p r ≡ true
    → (s : R) × (first p (rs ++ r ∷ []) ≡ some s)
unfolding first
first-snoc p [] r h = (r, rw h refl)
first-snoc p (s ∷ rs) r h = elim (Bool-cases (p s)) [
  | inl e ↦ (s, rw e refl)
  | inr e ↦ let (t, f) = first-snoc p rs r h in (t, rw e f)
]

-- Who has a live reservation is refused.
refused :
    (env : Env) (m : RequestMessage) (w : World) {r : Reservation}
    → first (is_live_of m.user_id) w.reservations ≡ some r
    → create_reservation env (input_of m) w ≡ (err (domain reservation_already_active), w)
unfolding create_reservation can_create_reservation find_active_by_user
refused env m w e = rw e refl

made_live :
    (env : Env) (m : RequestMessage) (w w' : World) {r : Reservation}
    → Creates env (input_of m) w r w'
    → is_live_of m.user_id r ≡ true
made_live env m w w' c = rw c.row (ground (arith, (==_iff m.user_id m.user_id).1 refl))

-- The messages of a run do not decide whether a user has a live reservation.
answered :
    (later : Env) (m : RequestMessage) (w' : World) (r : Reservation) {s : Reservation}
    → first (is_live_of m.user_id) w'.reservations ≡ some s
    → process_request later m (record w' {
      sent = request_resolved m.request_id m.user_id (resolution_of (created r)) ∷ w'.sent;
    })
      ≡ (
        ok tt,
        record w' {
          sent =
              request_resolved m.request_id m.user_id
                (Resolution.rejected reservation_already_active)
              ∷ request_resolved m.request_id m.user_id (resolution_of (created r))
              ∷ w'.sent;
        },
      )
unfolding process_request
answered later m w' r h =
    rw
      (refused later m
        (record w' {
          sent = request_resolved m.request_id m.user_id (resolution_of (created r)) ∷ w'.sent;
        })
        h)
      refl

first_time :
    (env : Env) (m : RequestMessage) (w : World) {r : Reservation} {w' : World}
    → create_reservation env (input_of m) w ≡ (ok (created r), w')
    → process_request env m w ≡ (
      ok tt,
      record w' {
        sent = request_resolved m.request_id m.user_id (resolution_of (created r)) ∷ w'.sent;
      },
    )
unfolding process_request
first_time env m w e = rw e refl

-- Where slots have distinct identifiers: a message that led to a reservation and is handled
-- again, at any time and with nothing in between, makes no other one, and is answered a second
-- time, that the user has a reservation already.
pub process_request-again :
    (env later : Env) (m : RequestMessage) (w : World) {r : Reservation} {w' : World}
    → Keyed slot_id w.slots
    → create_reservation env (input_of m) w ≡ (ok (created r), w')
    → process_request later m (process_request env m w).1 ≡ (
      ok tt,
      record w' {
        sent =
            request_resolved m.request_id m.user_id (Resolution.rejected reservation_already_active)
            ∷ request_resolved m.request_id m.user_id (resolution_of (created r))
            ∷ w'.sent;
      },
    )
process_request-again env later m w {r = r} {w' = w'} k e =
    let c =
      subst (λ x. Concludes env (input_of m) w x) e
        (create_reservation-Concludes env (input_of m) w k) in
    let (s, f) = first-snoc (is_live_of m.user_id) w.reservations r (made_live env m w w' c) in
    ap (λ x. process_request later m x.1) (first_time env m w e)
    ∙ answered later m w' r {s = s} (rw c.reservations f)
