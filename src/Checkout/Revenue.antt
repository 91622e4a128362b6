-- ===== src/Checkout/Revenue.antt =====
-- `GetRevenueReportUseCase`, which joins backend's branches with payments-service's sums.
use onion_architecture.Base.{
  ◌≡◌, refl, ap, inl, inr, true, Option, none, some, List, [], ◌∷◌, map, arith, ◌==◌, truthy,
  Bool-cases,
}
use onion_architecture.Base.Rows.{All, find}
use onion_architecture.Domain.{Text, Millis, Cents, Branch, domain, payment_service_unavailable}
use onion_architecture.World.{World}
use onion_architecture.World.Env.{Reply, answer, failed}
use onion_architecture.World.Action.{Action, Result, ok, err, pure, ◌>>=◌}
use onion_architecture.Repositories.Slots.{is_among}
use onion_architecture.Repositories.Branches as Branches
use onion_architecture.Repositories.Branches.{branch_id}
use onion_architecture.Policies.Assignment.Balance.{among-All}
use onion_architecture.Payments.{PaymentWorld}
use onion_architecture.Payments.Table.{BranchRevenue, sum_approved_by_branch}
use onion_architecture.Payments.Revenue.{revenue_of, revenue_row, sum_approved_by_branch_lem}

-- `RevenueReportRow`
pub record RevenueReportRow : Type 0 where
  pub branch : Branch
  pub total_revenue : Cents

-- `payments.sumApprovedByBranch`
abbrev pub sums_reply : Reply (List BranchRevenue) → Action World (List BranchRevenue)
sums_reply (answer rows) w = (ok rows, w)
sums_reply failed w = (err (domain payment_service_unavailable), w)

abbrev pub revenue_branch : BranchRevenue → Text
revenue_branch r = r.branch_id

abbrev pub total_or_zero : Option BranchRevenue → Cents
total_or_zero none = 0
total_or_zero (some r) = r.total

abbrev pub branches_of : Option Text → Action World (List Branch)
branches_of none = Branches.find_all
branches_of (some i) = Branches.find_by_ids (i ∷ [])

-- What follows the query of the branches: with none, no call is made.
abbrev pub join_sums :
    (List Text → Reply (List BranchRevenue)) → List Branch → Action World (List RevenueReportRow)
join_sums ask [] = pure []
join_sums ask (b ∷ bs) = do
  revenue ← sums_reply (ask (map branch_id (b ∷ bs)))
  pure (
      map
        (λ c. record {
          branch = c;
          total_revenue = total_or_zero (find revenue_branch c.id revenue);
        })
        (b ∷ bs))

-- `GetRevenueReportUseCase.execute`, given payments-service's answer for the period
unfoldable pub get_revenue_report :
    (List Text → Reply (List BranchRevenue)) → Option Text → Action World (List RevenueReportRow)
unfolding Branches.find_all Branches.find_by_ids
get_revenue_report ask id = do branches ← branches_of (truthy id); join_sums ask branches

-- payments-service's answer, where it gives one
abbrev pub rows_of : Result (List BranchRevenue) → Reply (List BranchRevenue)
rows_of (ok rows) = answer rows
rows_of (err e) = failed

abbrev pub ask_sums :
    Option Millis → Option Millis → PaymentWorld → List Text → Reply (List BranchRevenue)
ask_sums from to pw ids = rows_of (sum_approved_by_branch ids from to pw).0

module _ (from to : Option Millis) (pw : PaymentWorld) where
  find-row :
      (k : Text) (ids : List Text)
      → is_among ids k ≡ true
      → find revenue_branch k (map (revenue_row from to pw) ids) ≡ some (revenue_row from to pw k)
  unfolding find
  find-row k [] h = cc
  find-row k (i ∷ is) h = elim (Bool-cases (i == k)) [
    | inl e ↦ let d : i ≡ k = ground arith in rw (e, d) refl
    | inr e ↦ rw e (find-row k is (ground (arith, h, e)))
  ]

  abbrev pub report_row : Branch → RevenueReportRow
  report_row b = record { branch = b; total_revenue = revenue_of b.id from to pw }

  joined :
      (ids : List Text) (bs : List Branch)
      → All (λ b. is_among ids b.id ≡ true) bs
      → map
          (λ c. record {
            branch = c;
            total_revenue =
                total_or_zero (find revenue_branch c.id (map (revenue_row from to pw) ids));
          })
          bs
        ≡ map report_row bs
  joined ids [] h = refl
  joined ids (b ∷ bs) h = rw (find-row b.id ids h.0, joined ids bs h.1) refl

  -- Where payments-service answers, the revenue report has one row for each branch with the sum
  -- of its approved payments of the period, and an empty one for no branches.
  pub join_sums_lem :
      (bs : List Branch) (w : World)
      → join_sums (ask_sums from to pw) bs w ≡ (ok (map report_row bs), w)
  join_sums_lem [] w = refl
  join_sums_lem (b ∷ bs) w =
      rw (sum_approved_by_branch_lem from to pw (map branch_id (b ∷ bs)))
        (ap (λ rows. (ok rows, w)) (joined (map branch_id (b ∷ bs)) (b ∷ bs) (among-All (b ∷ bs))))
