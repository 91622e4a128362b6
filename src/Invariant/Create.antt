-- ===== src/Invariant/Create.antt =====
-- A request for a reservation keeps the tables consistent.
use onion_architecture.Base.{ℕ, ◌≡◌, ◌≢◌, refl, ap, ◌∙◌, true, false, Option, some, List, arith}
use onion_architecture.Base.Rows.{find, modify}
use onion_architecture.Base.Rows.Keys.{find-modify-some}
use onion_architecture.Base.Rows.Queries.{first-none}
use onion_architecture.Domain.{
  Text, Reservation, ParkingSlot, SlotType, is_live, is_available, reservada, domain, infra,
}
use onion_architecture.World.{World}
use onion_architecture.World.Env.{Env}
use onion_architecture.World.Action.{Result, ok, err}
use onion_architecture.World.Events.{RequestMessage}
use onion_architecture.Repositories.Slots.{slot_id, with_status, is_claimable}
use onion_architecture.Repositories.Reservations.{reservation_id, is_live_of}
use onion_architecture.UseCases.CreateReservation.{
  CreateReservationInput, CreateReservationResult, created, suggest_other_branch,
  create_reservation, process_request, resolve, input_of,
}
use onion_architecture.UseCases.CreateReservation.Outcome.{
  Creates, Concludes, create_reservation-Concludes,
}
use onion_architecture.Invariant.{Consistent}
use onion_architecture.Invariant.Updates.{with_status-IsConsistent}
use onion_architecture.Invariant.Inserts.{new_reservation-IsConsistent}

-- A slot that can be claimed is free.
claimable-is_available :
    (b : Text) (t : Option SlotType) (s : ParkingSlot)
    → is_claimable b t s ≡ true
    → is_available s ≡ true
unfolding is_claimable
claimable-is_available b t s h = ground arith

module _ (env : Env) (input : CreateReservationInput) (w : World) (c : Consistent w) where
  module _ (r : Reservation) (w' : World) (d : Creates env input w r w') where
    abbrev reserved_slots : List ParkingSlot
    reserved_slots = modify slot_id d.slot.id (with_status env.now reservada) w.slots

    slots-reserved : w'.slots ≡ reserved_slots
    slots-reserved = d.slots ∙ ap (λ (v : World). v.slots) d.claim.after

    user_free :
        (i : ℕ) (s : Reservation)
        → find reservation_id i w.reservations ≡ some s
        → is_live s.status ≡ true
        → s.user_id ≢ r.user_id
    user_free i s hs ls e = ground (
      arith,
      ap (λ (q : Reservation). q.user_id) d.row,
      first-none (is_live_of input.user_id) reservation_id i w.reservations {s = s} d.no_reservation
          hs,
    )

    slot_free :
        (i : ℕ) (s : Reservation)
        → find reservation_id i w.reservations ≡ some s
        → is_live s.status ≡ true
        → s.slot_id ≢ r.slot_id
    slot_free i s hs ls e =
        let (t, et, at) = c.held i s hs ls in
        let b =
          claimable-is_available input.branch_id input.slot_type d.claim.before d.claim.claimable in
        let same : s.slot_id ≡ d.slot.id = e ∙ ap (λ (q : Reservation). q.slot_id) d.row in
        ground (arith, rw same at et, d.claim.row, at, b)

    now_held :
        (s : ParkingSlot) × (find slot_id r.slot_id reserved_slots ≡ some s)
        × (is_available s ≡ false)
    now_held =
        let q =
          find-modify-some slot_id d.slot.id d.slot.id (with_status env.now reservada) w.slots
            {r = d.claim.before} (λ s. refl) d.claim.row in
        rw (ap (λ (q : Reservation). q.slot_id) d.row)
          (with_status env.now reservada d.claim.before, ground (arith, q), refl)

    Creates-Consistent : Consistent w'
    Creates-Consistent =
        rw (slots-reserved, d.reservations, d.sessions, d.next_id)
          (new_reservation-IsConsistent
            (with_status-IsConsistent c d.slot.id env.now reservada (λ i s h l e. refl)) r
            (ap (λ (q : Reservation). q.id) d.row) user_free slot_free now_held)

  Concludes-Consistent :
      (x : Result CreateReservationResult × World) → Concludes env input w x → Consistent x.1
  Concludes-Consistent (ok (created r), w') h = Creates-Consistent r w' h
  Concludes-Consistent (ok (suggest_other_branch b d), w') h = rw h c
  Concludes-Consistent (err e, w') h = rw h c

  pub create_reservation-Consistent : Consistent (create_reservation env input w).1
  create_reservation-Consistent =
      Concludes-Consistent _ (create_reservation-Concludes env input w c.slots_keyed)

resolve-Consistent :
    (m : RequestMessage) (x : Result CreateReservationResult) (w : World)
    → Consistent w
    → Consistent (resolve m x w).1
resolve-Consistent m (ok r) w c = c
resolve-Consistent m (err (domain e)) w c = c
resolve-Consistent m (err (infra e)) w c = c

pub process_request-Consistent :
    (env : Env) (m : RequestMessage) (w : World)
    → Consistent w
    → Consistent (process_request env m w).1
unfolding process_request
process_request-Consistent env m w c =
    resolve-Consistent m _ _ (create_reservation-Consistent env (input_of m) w c)
