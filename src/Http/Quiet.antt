-- ===== src/Http/Quiet.antt =====
-- The use cases of backend that only read leave the tables as they are.
use onion_architecture.Base.{
  ◌≡◌, refl, ◌⊎◌, inl, inr, Option, none, some, List, [], ◌∷◌, map, truthy, Option-cases,
}
use onion_architecture.Base.Rows.{find}
use onion_architecture.Domain.{Text, Branch}
use onion_architecture.World.{World}
use onion_architecture.World.Env.{Env, Reply, answer, failed}
use onion_architecture.World.Action.{◌>>=◌}
use onion_architecture.Repositories.Branches as Branches
use onion_architecture.Repositories.Reservations as Reservations
use onion_architecture.Repositories.Sessions as Sessions
use onion_architecture.Payments.Table.{BranchRevenue}
use onion_architecture.Policies.Pricing.{PricingInput, calculate}
use onion_architecture.UseCases.CancelReservation.{owned_by}
use onion_architecture.UseCases.Admin.{compare_branches_occupancy}
use onion_architecture.UseCases.Queries.{
  calculate_amount, generate_entry_qr, generate_exit_qr, session_owned_by, pricing_input,
}
use onion_architecture.UseCases.Lists.{
  get_reservation, get_branch_availability, count_by_branch_and_type,
}
use onion_architecture.Checkout.Revenue.{get_revenue_report, branches_of, join_sums}

calculate-quiet : (p : PricingInput) (w : World) → (calculate p w).1 ≡ w
unfolding calculate Branches.find_by_id
calculate-quiet p w = elim (Option-cases (find Branches.branch_id p.branch_id w.branches)) [
  | inl n ↦ rw n refl
  | inr (b, e) ↦ rw e refl
]

pub get_reservation-quiet : (id : Text) (w : World) → (get_reservation id w).1 ≡ w
unfolding get_reservation
get_reservation-quiet id w =
    elim (Option-cases (find Reservations.reservation_id id w.reservations)) [
      | inl n ↦ rw n refl
      | inr (b, e) ↦ rw e refl
    ]

pub generate_entry_qr-quiet :
    (env : Env) (id u : Text) (w : World) → (generate_entry_qr env id u w).1 ≡ w
unfolding generate_entry_qr Reservations.find_by_id
generate_entry_qr-quiet env id u w =
    elim (Option-cases (owned_by u (find Reservations.reservation_id id w.reservations))) [
      | inl n ↦ rw n refl
      | inr (b, e) ↦ rw e refl
    ]

pub generate_exit_qr-quiet :
    (env : Env) (id u : Text) (w : World) → (generate_exit_qr env id u w).1 ≡ w
unfolding generate_exit_qr Sessions.find_by_id
generate_exit_qr-quiet env id u w =
    elim (Option-cases (session_owned_by u (find Sessions.session_id id w.sessions))) [
      | inl n ↦ rw n refl
      | inr (b, e) ↦ rw e refl
    ]

pub calculate_amount-quiet :
    (env : Env) (id u : Text) (w : World) → (calculate_amount env id u w).1 ≡ w
unfolding calculate_amount Sessions.find_by_id Reservations.find_by_id
calculate_amount-quiet env id u w =
    elim (Option-cases (session_owned_by u (find Sessions.session_id id w.sessions))) [
      | inl n ↦ rw n refl
      | inr (s, e) ↦
          elim (Option-cases (find Reservations.reservation_id s.reservation_id w.reservations)) [
            | inl n ↦ rw (e, n) refl
            | inr (r, f) ↦ rw (e, f) (calculate-quiet (pricing_input env s r) w)
          ]
    ]

pub get_branch_availability-quiet : (id : Text) (w : World) → (get_branch_availability id w).1 ≡ w
unfolding get_branch_availability count_by_branch_and_type
get_branch_availability-quiet id w = elim (Option-cases (find Branches.branch_id id w.branches)) [
  | inl n ↦ rw n refl
  | inr (b, e) ↦ rw e refl
]

pub compare_branches_occupancy-quiet :
    (ids : List Text) (w : World) → (compare_branches_occupancy ids w).1 ≡ w
unfolding compare_branches_occupancy
compare_branches_occupancy-quiet [] w = refl
compare_branches_occupancy-quiet (i ∷ is) w = refl

Reply-cases : {A : Type 0} (x : Reply A) → (x ≡ failed) ⊎ ((a : A) × (x ≡ answer a))
Reply-cases failed = inl refl
Reply-cases (answer a) = inr (a, refl)

join_sums-quiet :
    (ask : List Text → Reply (List BranchRevenue)) (bs : List Branch) (w : World)
    → (join_sums ask bs w).1 ≡ w
join_sums-quiet ask [] w = refl
join_sums-quiet ask (b ∷ bs) w = elim (Reply-cases (ask (map Branches.branch_id (b ∷ bs)))) [
  | inl e ↦ rw e refl
  | inr (rows, e) ↦ rw e refl
]

pub get_revenue_report-quiet :
    (ask : List Text → Reply (List BranchRevenue)) (id : Option Text) (w : World)
    → (get_revenue_report ask id w).1 ≡ w
unfolding get_revenue_report Branches.find_all Branches.find_by_ids
get_revenue_report-quiet ask id w = chosen (truthy id)
  where
    chosen : (o : Option Text) → (◌>>=◌ (branches_of o) (join_sums ask) w).1 ≡ w
    chosen none = join_sums-quiet ask _ w
    chosen (some i) = join_sums-quiet ask _ w
