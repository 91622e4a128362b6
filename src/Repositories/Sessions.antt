-- ===== src/Repositories/Sessions.antt =====
-- `PrismaParkingSessionRepository`.
use onion_architecture.Base.{
  ◌≡◌, refl, Bool, ◌&&◌, Option, none, some, [], ◌∷◌, ◌++◌, suc, ◌==◌, is_some, if◌then◌else◌,
}
use onion_architecture.Base.Rows.{find, modify, first}
use onion_architecture.Domain.{
  Text, Millis, SessionStatus, ParkingSession, is_active, infra, record_not_found, unique_violation,
}
use onion_architecture.World.{World}
use onion_architecture.World.Action.{Action, ok, err}

abbrev pub session_id : ParkingSession → Text
session_id s = s.id

-- `reservationId` is `@unique`: a second key of the table.
abbrev pub session_reservation : ParkingSession → Text
session_reservation s = s.reservation_id

-- `CreateParkingSessionData`
pub record CreateParkingSessionData : Type 0 where
  pub reservation_id : Text
  pub user_id : Text
  pub slot_id : Text
  pub entry_at : Millis

unfoldable pub find_by_id : Text → Action World (Option ParkingSession)
find_by_id i w = (ok (find session_id i w.sessions), w)

abbrev pub is_active_of : Text → ParkingSession → Bool
is_active_of u s = (s.user_id == u) && is_active s

unfoldable pub find_active_by_user : Text → Action World (Option ParkingSession)
find_active_by_user u w = (ok (first (is_active_of u) w.sessions), w)

unfoldable pub find_by_reservation_id : Text → Action World (Option ParkingSession)
find_by_reservation_id r w = (ok (find session_reservation r w.sessions), w)

abbrev pub new_session : Text → CreateParkingSessionData → ParkingSession
new_session id d = record {
  id = id;
  reservation_id = d.reservation_id;
  user_id = d.user_id;
  slot_id = d.slot_id;
  status = SessionStatus.active;
  entry_at = d.entry_at;
  exit_at = none;
}

unfoldable pub create : CreateParkingSessionData → Action World ParkingSession
create d w =
    if is_some (find session_reservation d.reservation_id w.sessions)
    then (err (infra unique_violation), w)
    else (let s = new_session w.next_id d in
        (ok s, record w { sessions = w.sessions ++ s ∷ []; next_id = suc w.next_id }))

abbrev pub complete : Millis → ParkingSession → ParkingSession
complete at s = record s { status = SessionStatus.completed; exit_at = some at }

unfoldable pub mark_completed : Text → Millis → Action World (Unit {0})
mark_completed i at w =
    if is_some (find session_id i w.sessions)
    then (ok tt, record w { sessions = modify session_id i (complete at) w.sessions })
    else (err (infra record_not_found), w)

-- An update of a row that is there.
pub mark_completed-some :
    (i : Text) (at : Millis) (w : World) {s : ParkingSession}
    → find session_id i w.sessions ≡ some s
    → mark_completed i at w
      ≡ (ok tt, record w { sessions = modify session_id i (complete at) w.sessions })
unfolding mark_completed
mark_completed-some i at w e = rw e refl
