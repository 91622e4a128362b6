-- ===== src/Repositories/Reservations.antt =====
-- `PrismaReservationRepository`.
use onion_architecture.Base.{
  ◌≡◌, refl, Bool, ◌&&◌, Option, none, some, List, [], ◌∷◌, ◌++◌, suc, ltb, ◌==◌, is_some,
  if◌then◌else◌,
}
use onion_architecture.Base.Rows.{find, modify, first, select}
use onion_architecture.Domain.{
  Text, Millis, SlotType, ReservationStatus, Reservation, is_live, is_pending, infra,
  record_not_found,
}
use onion_architecture.World.{World}
use onion_architecture.World.Env.{Env}
use onion_architecture.World.Action.{Action, ok, err}

abbrev pub reservation_id : Reservation → Text
reservation_id r = r.id

-- `CreateReservationData`
pub record CreateReservationData : Type 0 where
  pub user_id : Text
  pub branch_id : Text
  pub slot_id : Text
  pub requested_type : SlotType
  pub start_at : Millis
  pub expires_at : Millis

unfoldable pub find_by_id : Text → Action World (Option Reservation)
find_by_id i w = (ok (find reservation_id i w.reservations), w)

-- A reservation that stands in the way of another one of its user.
abbrev pub is_live_of : Text → Reservation → Bool
is_live_of u r = (r.user_id == u) && is_live r.status

unfoldable pub find_active_by_user : Text → Action World (Option Reservation)
find_active_by_user u w = (ok (first (is_live_of u) w.reservations), w)

abbrev pub is_overdue : Millis → Reservation → Bool
is_overdue now r = is_pending r && ltb r.expires_at now

unfoldable pub find_expired_pending : Millis → Action World (List Reservation)
find_expired_pending now w = (ok (select (is_overdue now) w.reservations), w)

-- The columns that are not given take the defaults of the schema.
abbrev pub new_reservation : Env → Text → CreateReservationData → Reservation
new_reservation env id d = record {
  id = id;
  user_id = d.user_id;
  branch_id = d.branch_id;
  slot_id = d.slot_id;
  requested_type = d.requested_type;
  status = ReservationStatus.pending;
  created_at = env.now;
  start_at = d.start_at;
  expires_at = d.expires_at;
  confirmed_at = none;
}

unfoldable pub create : Env → CreateReservationData → Action World Reservation
create env d w =
    let r = new_reservation env w.next_id d in
    (ok r, record w { reservations = w.reservations ++ r ∷ []; next_id = suc w.next_id })

-- `...(confirmedAt ? { confirmedAt } : {})`
abbrev pub set_status : ReservationStatus → Option Millis → Reservation → Reservation
set_status status none r = record r { status = status }
set_status status (some at) r = record r { status = status; confirmed_at = some at }

unfoldable pub update_status : Text → ReservationStatus → Option Millis → Action World (Unit {0})
update_status i status at w =
    if is_some (find reservation_id i w.reservations)
    then (
      ok tt,
      record w { reservations = modify reservation_id i (set_status status at) w.reservations },
    )
    else (err (infra record_not_found), w)

-- An update of a row that is there.
pub update_status-some :
    (i : Text) (status : ReservationStatus) (at : Option Millis) (w : World) {r : Reservation}
    → find reservation_id i w.reservations ≡ some r
    → update_status i status at w ≡ (
      ok tt,
      record w { reservations = modify reservation_id i (set_status status at) w.reservations },
    )
unfolding update_status
update_status-some i status at w e = rw e refl
