-- ===== src/Policies/Eligibility.antt =====
-- `DefaultReservationPolicy`.
use onion_architecture.Base.{◌+◌, ◌*◌, Bool, ◌&&◌, none, some, ltb}
use onion_architecture.Domain.{Text, Millis, Reservation, is_pending}
use onion_architecture.World.{World}
use onion_architecture.World.Env.{Env}
use onion_architecture.World.Action.{Action, pure, ◌>>=◌}
use onion_architecture.Repositories.Reservations as Reservations
use onion_architecture.Repositories.Sessions as Sessions

-- `ReservationEligibility`
pub data Eligibility : Type 0 where
  allowed active_reservation_exists active_session_exists : Eligibility

unfoldable pub check_session : Text → Action World Eligibility
unfolding Sessions.find_active_by_user
check_session u = do
  session ← Sessions.find_active_by_user u
  (elim session [ some _ ↦ pure active_session_exists | none ↦ pure allowed ])

unfoldable pub can_create_reservation : Text → Action World Eligibility
unfolding Reservations.find_active_by_user check_session
can_create_reservation u = do
  reservation ← Reservations.find_active_by_user u
  (elim reservation [ some _ ↦ pure active_reservation_exists | none ↦ check_session u ])

unfoldable pub is_expired : Reservation → Millis → Bool
is_expired r now = is_pending r && ltb r.expires_at now

unfoldable pub calculate_expires_at : Env → Millis → Millis
calculate_expires_at env created_at = created_at + env.tolerance_minutes * 60000
