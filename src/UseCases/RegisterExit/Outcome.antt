-- ===== src/UseCases/RegisterExit/Outcome.antt =====
-- What a guard's scan of an exit code comes to.
use onion_architecture.Base.{◌≡◌, refl, true, false, Option, none, some, ◌∷◌, arith, ltb, ◌-◌, ◌*◌}
use onion_architecture.Base.Rows.{find}
use onion_architecture.Domain.{
  Text, Cents, Reservation, ParkingSession, Payment, Branch, disponible, is_active, domain,
  invalid_qr_code, session_not_active, not_found, branch, payment_not_approved,
  payment_service_unavailable, overstay_payment_insufficient,
}
use onion_architecture.World.{World}
use onion_architecture.World.Events.{exit_registered, slot_status_changed, occupancy_updated}
use onion_architecture.World.Env.{Env, answer, failed}
use onion_architecture.World.Action.{ok, err}
use onion_architecture.Repositories.Branches as Branches
use onion_architecture.Repositories.Branches.{branch_id}
use onion_architecture.Repositories.Reservations as Reservations
use onion_architecture.Repositories.Reservations.{reservation_id}
use onion_architecture.Repositories.Sessions as Sessions
use onion_architecture.Repositories.Sessions.{session_id, complete}
use onion_architecture.Policies.Pricing.{calculate, billable_hours}
use onion_architecture.Policies.Parking as Parking
use onion_architecture.Policies.Parking.Exit.{left_world, register_exit-eq}
use onion_architecture.UseCases.RegisterExit.{
  leave, exit_target, if_active, if_approved, overstay_tolerance,
}
use onion_architecture.Invariant.{Consistent}

-- What the stay costs up to now.
abbrev pub cost : Env → ParkingSession → Branch → Cents
cost env s b = billable_hours s.entry_at env.now * b.price_per_hour

-- The world once the car is out and its exit is announced.
abbrev pub released_world : Env → ParkingSession → Reservation → World → World
released_world env s r w = record (left_world env s w) {
  sent =
      occupancy_updated r.branch_id
      ∷ slot_status_changed r.branch_id s.slot_id disponible
      ∷ exit_registered s.id r.branch_id s.slot_id
      ∷ w.sent;
}

module _ (env : Env) (qr : Text) (w : World) where
  -- A code that is forged, or of another kind, or that names no session, is refused.
  pub leave_forged :
      exit_target (env.verify_qr qr) ≡ none → leave env qr w ≡ (err (domain invalid_qr_code), w)
  unfolding leave
  leave_forged h = rw h refl

  module _ {id : Text} (scanned : exit_target (env.verify_qr qr) ≡ some id) where
    pub leave_outside :
        if_active (find session_id id w.sessions) ≡ none
        → leave env qr w ≡ (err (domain session_not_active), w)
    unfolding leave Sessions.find_by_id
    leave_outside h = rw (scanned, h) refl

    module _ {s : ParkingSession} (found : if_active (find session_id id w.sessions) ≡ some s)
        {r : Reservation}
        (stored : find reservation_id s.reservation_id w.reservations ≡ some r) where
      pub leave_unknown :
          env.find_payment s.id ≡ failed
          → leave env qr w ≡ (err (domain payment_service_unavailable), w)
      unfolding leave Sessions.find_by_id Reservations.find_by_id
      leave_unknown h = rw (scanned, found, stored, h) refl

      module _ {o : Option Payment} (paid : env.find_payment s.id ≡ answer o) where
        pub leave_unpaid :
            if_approved o ≡ none → leave env qr w ≡ (err (domain payment_not_approved), w)
        unfolding leave Sessions.find_by_id Reservations.find_by_id
        leave_unpaid h = rw (scanned, found, stored, paid, h) refl

        module _ {p : Payment} (approved : if_approved o ≡ some p) where
          pub leave_nowhere :
              find branch_id r.branch_id w.branches ≡ none
              → leave env qr w ≡ (err (domain (not_found branch r.branch_id)), w)
          unfolding leave Sessions.find_by_id Reservations.find_by_id calculate Branches.find_by_id
          leave_nowhere h = rw (scanned, found, stored, paid, approved, h) refl

          module _ {b : Branch} (here : find branch_id r.branch_id w.branches ≡ some b) where
            -- A stay that costs more than what was paid keeps the car in, and says how much is due.
            pub leave_short :
                ltb overstay_tolerance (cost env s b - p.amount) ≡ true
                → leave env qr w
                  ≡ (err (domain (overstay_payment_insufficient (cost env s b - p.amount))), w)
            unfolding leave Sessions.find_by_id Reservations.find_by_id calculate
                Branches.find_by_id
            leave_short h = rw (scanned, found, stored, paid, approved, here, h) refl

            active_row :
                (o : Option ParkingSession)
                → if_active o ≡ some s
                → (o ≡ some s) × (is_active s ≡ true)
            active_row none h = cc
            active_row (some t) h = ground arith

            settled : (o : Option Payment) → if_approved o ≡ some p → Parking.is_settled o ≡ true
            settled none h = cc
            settled (some t) h = ground arith

            -- In consistent tables, a valid exit code of an active session, with an approved
            -- payment that the price exceeds by one cent at most, lets the car out: the
            -- completed session is returned, and the world after is the released one.
            pub leave_releases :
                Consistent w
                → ltb overstay_tolerance (cost env s b - p.amount) ≡ false
                → leave env qr w ≡ (ok (complete env.now s), released_world env s r w)
            unfolding leave Sessions.find_by_id Reservations.find_by_id calculate
                Branches.find_by_id
            leave_releases c h =
                let (f, a) = active_row (find session_id id w.sessions) found in
                rw
                  (
                    scanned,
                    found,
                    stored,
                    paid,
                    approved,
                    here,
                    h,
                    register_exit-eq env id w c f a paid (settled o approved),
                  )
                  refl
