-- ===== src/Payments/Revenue.antt =====
-- The revenue of a branch is the sum of its approved payments.
use onion_architecture.Base.{
  ◌+◌, ◌≡◌, refl, ap, ◌∙◌, inl, inr, Bool, true, ◌&&◌, Option, List, [], ◌∷◌, map, arith, ◌==◌,
  or_else, if◌then◌else◌, Bool-cases,
}
use onion_architecture.Domain.{Text, Millis, Cents, is_paid}
use onion_architecture.World.Action.{ok}
use onion_architecture.Payments.{Payment, PaymentWorld}
use onion_architecture.Payments.Table.{
  BranchRevenue, sum_approved_by_branch, group_sum, add_to, total_in, counts, is_among, not_before,
  not_after,
}

-- The sum of the payments of a kind.
unfoldable pub sum_where : (Payment → Bool) → List Payment → Cents
sum_where p [] = 0
sum_where p (r ∷ rs) = (if p r then r.amount else 0) + sum_where p rs

-- An approved payment of the branch, made within the period.
abbrev pub pays_in : Text → Option Millis → Option Millis → Payment → Bool
pays_in b from to p =
    (p.branch_id == b)
    && (is_paid p.status && (not_before from p.created_at && not_after to p.created_at))

abbrev pub revenue_of : Text → Option Millis → Option Millis → PaymentWorld → Cents
revenue_of b from to w = sum_where (pays_in b from to) w.payments

total_in-add_to :
    (k j : Text) (n : Cents) (g : List (Text × Cents))
    → or_else (total_in k (add_to j n g)) 0 ≡ (if j == k then n else 0) + or_else (total_in k g) 0
unfolding total_in add_to
total_in-add_to k j n [] = ground arith
total_in-add_to k j n ((i, m) ∷ g) = ground (arith, total_in-add_to k j n g)

total_in-group_sum :
    (p : Payment → Bool) (k : Text) (rs : List Payment)
    → or_else (total_in k (group_sum p rs)) 0 ≡ sum_where (λ r. (r.branch_id == k) && p r) rs
unfolding group_sum sum_where total_in
total_in-group_sum p k [] = refl
total_in-group_sum p k (r ∷ rs) =
    ground
      (arith, total_in-add_to k r.branch_id r.amount (group_sum p rs), total_in-group_sum p k rs)

sum-cong :
    (p q : Payment → Bool) (rs : List Payment)
    → ((r : Payment) → p r ≡ q r)
    → sum_where p rs ≡ sum_where q rs
unfolding sum_where
sum-cong p q [] h = refl
sum-cong p q (r ∷ rs) h = ground (arith, h r, sum-cong p q rs h)

module _ (from to : Option Millis) (w : PaymentWorld) where
  total_of :
      (ids : List Text) (k : Text)
      → is_among ids k ≡ true
      → or_else (total_in k (group_sum (counts ids from to) w.payments)) 0 ≡ revenue_of k from to w
  total_of ids k h =
      total_in-group_sum (counts ids from to) k w.payments
      ∙ sum-cong _ (pays_in k from to) w.payments same
    where
      same : (r : Payment) → ((r.branch_id == k) && counts ids from to r) ≡ pays_in k from to r
      same r = elim (Bool-cases (r.branch_id == k)) [
        | inl e ↦ let d : r.branch_id ≡ k = ground arith in rw (d, h) refl
        | inr e ↦ rw e refl
      ]

  abbrev pub revenue_row : Text → BranchRevenue
  revenue_row b = record { branch_id = b; total = revenue_of b from to w }

  -- For any period and branches, each branch asked for gets the sum of its approved payments of
  -- the period, 0 included, and nothing is changed.
  pub sum_approved_by_branch_lem :
      (ids : List Text) → sum_approved_by_branch ids from to w ≡ (ok (map revenue_row ids), w)
  unfolding sum_approved_by_branch
  sum_approved_by_branch_lem ids = ap (λ rows. (ok rows, w)) (rows ids (λ k h. total_of ids k h))
    where
      rows :
          (js : List Text)
          → ((k : Text)
              → is_among js k ≡ true
              → or_else (total_in k (group_sum (counts ids from to) w.payments)) 0
                ≡ revenue_of k from to w)
          → map {B = BranchRevenue}
              (λ b. record {
                branch_id = b;
                total = or_else (total_in b (group_sum (counts ids from to) w.payments)) 0;
              })
              js
            ≡ map revenue_row js
      rows [] h = refl
      rows (j ∷ js) h = rw (h j (ground arith), rows js (λ k e. h k (ground (arith, e)))) refl
