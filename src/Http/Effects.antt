-- ===== src/Http/Effects.antt =====
-- What a request can change, and for whom.
use onion_architecture.Base.{
  ℕ, ◌≡◌, refl, ◌∙◌, ◌⊎◌, inl, inr, true, false, Option, none, some, List, [], or_else, Bool-cases,
}
use onion_architecture.Domain.{Text}
use onion_architecture.World.{World}
use onion_architecture.World.Env.{Env, Reply}
use onion_architecture.World.Action.{Result, ok, err}
use onion_architecture.Auth.{admin}
use onion_architecture.Auth.Tokens.{Claims, TokenUser}
use onion_architecture.Realtime.Hub.{is_admin_sound}
use onion_architecture.Repositories.Branches as Branches
use onion_architecture.Payments.Table.{BranchRevenue}
use onion_architecture.UseCases.Lists.{list_branches}
use onion_architecture.UseCases.Lists.{
  list_user_reservations, list_reservations, list_user_sessions,
}
use onion_architecture.System.{
  Request, queue, create, process, cancel, expire, entry, exit, report_blocked, simulate_full,
  handle,
}
use onion_architecture.Http.Routes.{
  Route, at_reservations, at_parking, at_users, at_branches, at_admin, create_route,
  confirm_suggestion, list_route, reservation_route, cancel_route, my_reservations, my_sessions,
  entry_qr, exit_qr, amount, entry_route, exit_route, report_route, branches_route, occupancy_route,
  branch_route, availability_route, dashboard, expire_now, revenue_route, simulate_route,
}
use onion_architecture.Http.{
  reservations_controller, parking_controller, users_controller, branches_controller,
  admin_controller, Body, respond, input_by, route_to, is_guarded, has_role, sub_of, authenticate,
  authorised, serve,
}
use onion_architecture.Http.Quiet.{
  get_reservation-quiet, generate_entry_qr-quiet, generate_exit_qr-quiet, calculate_amount-quiet,
  get_branch_availability-quiet, compare_branches_occupancy-quiet, get_revenue_report-quiet,
}

-- The world after a response is that after the call.
respond-world : {A : Type 0} (n : ℕ) (f : A → Body) (x : Result A × World) → (respond n f x).1 ≡ x.1
respond-world n f (ok a, w) = refl
respond-world n f (err e, w) = refl

-- What a user may bring about: requests to reserve in their own name, cancellations in their own
-- name, scans and reports; and what is for admins.
abbrev pub MayCause : TokenUser → Request → Type 0
MayCause u (queue input) = input.user_id ≡ or_else u.sub 0
MayCause u (cancel id user_id) = user_id ≡ or_else u.sub 0
MayCause u expire = u.role ≡ some admin
MayCause u (simulate_full id) = u.role ≡ some admin
MayCause u (entry qr) = Unit {0}
MayCause u (exit qr) = Unit {0}
MayCause u (report_blocked id) = Unit {0}
MayCause u (create input) = ⊥
MayCause u (process m) = ⊥

module _ (jwt_verify : Text → Option Claims) (ask : List Text → Reply (List BranchRevenue))
    (env : Env) (w : World) where
  -- The tables are as before, or as one request of the system leaves them, which the user who is
  -- authenticated may make.
  abbrev pub Effect : Option TokenUser → World → Type 0
  Effect o w' =
      (w' ≡ w)
      ⊎ ((u : TokenUser) × (q : Request) × (o ≡ some u) × MayCause u q × (w' ≡ handle env q w))

  caused :
      (u : TokenUser) (q : Request) {w' : World}
      → MayCause u q
      → w' ≡ handle env q w
      → Effect (some u) w'
  caused u q m e = inr (u, q, refl, m, e)

  routed :
      (u : TokenUser) (route : Route)
      → has_role jwt_verify route u ≡ true
      → is_guarded route ≡ true
      → Effect (some u) (route_to ask env (sub_of jwt_verify u) route w).1
  unfolding route_to reservations_controller parking_controller users_controller admin_controller
      handle list_user_reservations list_user_sessions list_reservations
  routed u (at_reservations (create_route none)) h g = inl refl
  routed u (at_reservations (create_route (some dto))) h g =
      caused u (queue (input_by (or_else u.sub 0) dto)) refl (respond-world _ _ _)
  routed u (at_reservations (confirm_suggestion none)) h g = inl refl
  routed u (at_reservations (confirm_suggestion (some dto))) h g =
      caused u (queue (input_by (or_else u.sub 0) dto)) refl (respond-world _ _ _)
  routed u (at_reservations (list_route f)) h g = inl refl
  routed u (at_reservations (reservation_route id)) h g =
      inl (respond-world _ _ _ ∙ get_reservation-quiet id w)
  routed u (at_reservations (cancel_route id)) h g =
      caused u (cancel id (or_else u.sub 0)) refl (respond-world _ _ _)
  routed u (at_users my_reservations) h g = inl refl
  routed u (at_users my_sessions) h g = inl refl
  routed u (at_parking (entry_qr id)) h g =
      inl (respond-world _ _ _ ∙ generate_entry_qr-quiet env id _ w)
  routed u (at_parking (exit_qr id)) h g =
      inl (respond-world _ _ _ ∙ generate_exit_qr-quiet env id _ w)
  routed u (at_parking (amount id)) h g =
      inl (respond-world _ _ _ ∙ calculate_amount-quiet env id _ w)
  routed u (at_parking (entry_route none)) h g = inl refl
  routed u (at_parking (entry_route (some qr))) h g = caused u (entry qr) tt (respond-world _ _ _)
  routed u (at_parking (exit_route none)) h g = inl refl
  routed u (at_parking (exit_route (some qr))) h g = caused u (exit qr) tt (respond-world _ _ _)
  routed u (at_parking (report_route id)) h g =
      caused u (report_blocked id) tt (respond-world _ _ _)
  routed u (at_branches r) h g = cc
  routed u (at_admin dashboard) h g = inl refl
  routed u (at_admin expire_now) h g =
      caused u expire (is_admin_sound u.role h) (respond-world _ _ _)
  routed u (at_admin (revenue_route id)) h g =
      inl (respond-world _ _ _ ∙ get_revenue_report-quiet ask id w)
  routed u (at_admin (simulate_route id)) h g =
      caused u (simulate_full id) (is_admin_sound u.role h) (respond-world _ _ _)

  unguarded :
      (o : Option TokenUser) (route : Route)
      → is_guarded route ≡ false
      → Effect o (route_to ask env 0 route w).1
  unfolding route_to branches_controller list_branches Branches.find_all
  unguarded o (at_branches branches_route) g = inl refl
  unguarded o (at_branches (occupancy_route ids)) g =
      inl (respond-world _ _ _ ∙ compare_branches_occupancy-quiet (or_else ids []) w)
  unguarded o (at_branches (branch_route id)) g =
      inl (respond-world _ _ _ ∙ get_branch_availability-quiet id w)
  unguarded o (at_branches (availability_route id)) g =
      inl (respond-world _ _ _ ∙ get_branch_availability-quiet id w)
  unguarded o (at_reservations r) g = cc
  unguarded o (at_parking r) g = cc
  unguarded o (at_users r) g = cc
  unguarded o (at_admin r) g = cc

  authorised-Effect :
      (o : Option TokenUser) (route : Route)
      → is_guarded route ≡ true
      → Effect o (authorised jwt_verify ask env route o w).1
  authorised-Effect none route g = inl refl
  authorised-Effect (some u) route g = elim (Bool-cases (has_role jwt_verify route u)) [
    | inl e ↦ rw e (routed u route e g)
    | inr e ↦ rw e (inl refl)
  ]

  -- Whatever request comes in over HTTP, with whatever token: the tables afterwards are as
  -- before, or as one request of the system leaves them, where the token verifies and its user
  -- may make that request; to queue and to cancel is in the user's own name, and to expire or to
  -- fill a branch is for admins.
  pub serve-Effect :
      (bearer : Option Text) (route : Route)
      → Effect (authenticate jwt_verify bearer) (serve jwt_verify ask env bearer route w).1
  unfolding serve
  serve-Effect bearer route = elim (Bool-cases (is_guarded route)) [
    | inl g ↦ rw g (authorised-Effect (authenticate jwt_verify bearer) route g)
    | inr g ↦ rw g (unguarded (authenticate jwt_verify bearer) route g)
  ]
