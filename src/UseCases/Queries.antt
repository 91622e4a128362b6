-- ===== src/UseCases/Queries.antt =====
-- The use cases that read one row or one user's rows, and those that price a session.
use onion_architecture.Base.{Bool, Option, none, some, or_else, ◌==◌, if◌then◌else◌}
use onion_architecture.Domain.{
  Text, Reservation, ParkingSession, is_active, domain, not_found, reservation, session,
}
use onion_architecture.World.{World}
use onion_architecture.World.Env.{Env}
use onion_architecture.World.Action.{Action, pure, or_throw, ◌>>=◌}
use onion_architecture.Repositories.Sessions as Sessions
use onion_architecture.Repositories.Reservations as Reservations
use onion_architecture.Policies.Pricing.{PricingInput, PricingResult, calculate}
use onion_architecture.UseCases.CancelReservation.{owned_by}

-- `session.exitAt ?? this.clock.now()`
abbrev pub pricing_input : Env → ParkingSession → Reservation → PricingInput
pricing_input env s r = record {
  branch_id = r.branch_id;
  slot_type = r.requested_type;
  entry_at = s.entry_at;
  exit_at = or_else s.exit_at env.now;
  user_id = s.user_id;
}

-- `SessionQuote`
pub record SessionQuote : Type 0 where
  pub session_id : Text
  pub user_id : Text
  pub branch_id : Text
  pub active : Bool
  pub pricing : PricingResult

-- `GetSessionQuoteUseCase.execute`
unfoldable pub get_session_quote : Env → Text → Action World SessionQuote
unfolding Sessions.find_by_id Reservations.find_by_id calculate
get_session_quote env id = do
  found ← Sessions.find_by_id id
  s ← or_throw found (domain (not_found session id))
  stored ← Reservations.find_by_id s.reservation_id
  r ← or_throw stored (domain (not_found reservation s.reservation_id))
  price ← calculate (pricing_input env s r)
  pure (record {
    session_id = s.id;
    user_id = s.user_id;
    branch_id = r.branch_id;
    active = is_active s;
    pricing = price;
  })

abbrev pub session_owned_by : Text → Option ParkingSession → Option ParkingSession
session_owned_by u none = none
session_owned_by u (some s) = if s.user_id == u then some s else none

-- `CalculateAmountUseCase.execute`
unfoldable pub calculate_amount : Env → Text → Text → Action World PricingResult
unfolding Sessions.find_by_id Reservations.find_by_id calculate
calculate_amount env id user_id = do
  found ← Sessions.find_by_id id
  s ← or_throw (session_owned_by user_id found) (domain (not_found session id))
  stored ← Reservations.find_by_id s.reservation_id
  r ← or_throw stored (domain (not_found reservation s.reservation_id))
  calculate (pricing_input env s r)

-- `GenerateEntryQrUseCase.execute`
unfoldable pub generate_entry_qr : Env → Text → Text → Action World Text
unfolding Reservations.find_by_id
generate_entry_qr env id user_id = do
  found ← Reservations.find_by_id id
  r ← or_throw (owned_by user_id found) (domain (not_found reservation id))
  pure (env.sign_entry_token r.id)

-- `GenerateExitQrUseCase.execute`
unfoldable pub generate_exit_qr : Env → Text → Text → Action World Text
unfolding Sessions.find_by_id
generate_exit_qr env id user_id = do
  found ← Sessions.find_by_id id
  s ← or_throw (session_owned_by user_id found) (domain (not_found session id))
  pure (env.sign_exit_token s.id)
