-- ===== src/Payments/Table.antt =====
-- `PrismaPaymentRepository`.
use onion_architecture.Base.{
  suc, ◌+◌, Bool, true, false, ◌&&◌, ◌||◌, Option, none, some, List, [], ◌∷◌, ◌++◌, map, leb, ◌==◌,
  is_some, if◌then◌else◌, or_else,
}
use onion_architecture.Base.Rows.{find, modify, select}
use onion_architecture.Base.Sort.{sort_by}
use onion_architecture.Domain.{
  Text, Millis, Cents, PaymentStatus, approved, is_paid, infra, record_not_found, unique_violation,
}
use onion_architecture.World.Action.{Action, ok, err}
use onion_architecture.Payments.{Payment, PaymentWorld, PaymentEnv}

abbrev pub payment_id : Payment → Text
payment_id p = p.id

-- `sessionId` is `@unique`.
abbrev pub payment_session : Payment → Text
payment_session p = p.session_id

-- `CreatePaymentData`
pub record CreatePaymentData : Type 0 where
  pub session_id : Text
  pub user_id : Text
  pub branch_id : Text
  pub amount : Cents
  pub status : PaymentStatus
  pub external_reference : List Text
  pub paid_at : Option Millis

unfoldable pub find_by_id : Text → Action PaymentWorld (Option Payment)
find_by_id i w = (ok (find payment_id i w.payments), w)

unfoldable pub find_by_session_id : Text → Action PaymentWorld (Option Payment)
find_by_session_id i w = (ok (find payment_session i w.payments), w)

abbrev pub new_payment : PaymentEnv → Text → CreatePaymentData → Payment
new_payment env id d = record {
  id = id;
  session_id = d.session_id;
  user_id = d.user_id;
  branch_id = d.branch_id;
  amount = d.amount;
  status = d.status;
  external_reference = d.external_reference;
  paid_at = d.paid_at;
  created_at = env.now;
}

unfoldable pub create : PaymentEnv → CreatePaymentData → Action PaymentWorld Payment
create env d w =
    if is_some (find payment_session d.session_id w.payments)
    then (err (infra unique_violation), w)
    else (let p = new_payment env w.next_id d in
        (ok p, record w { payments = w.payments ++ p ∷ []; next_id = suc w.next_id }))

abbrev pub increased : Cents → Text → Millis → Payment → Payment
increased more reference at p = record p {
  amount = p.amount + more;
  status = approved;
  external_reference = p.external_reference ++ reference ∷ [];
  paid_at = some at;
}

abbrev pub update_found : Text → (Payment → Payment) → Option Payment → Action PaymentWorld Payment
update_found i f none w = (err (infra record_not_found), w)
update_found i f (some p) w = (ok (f p), record w { payments = modify payment_id i f w.payments })

-- The row is read, and then written.
unfoldable pub increase_amount : Text → Cents → Text → Millis → Action PaymentWorld Payment
increase_amount i more reference at w =
    update_found i (increased more reference at) (find payment_id i w.payments) w

-- `orderBy: { createdAt: 'desc' }`
abbrev newer : Payment → Payment → Bool
newer p q = leb q.created_at p.created_at

unfoldable pub list_by_user : Text → Action PaymentWorld (List Payment)
list_by_user u w = (ok (sort_by newer (select (λ p. p.user_id == u) w.payments)), w)

-- `{ in: branchIds }`
abbrev pub is_among : List Text → Text → Bool
is_among [] i = false
is_among (j ∷ js) i = (j == i) || is_among js i

-- `{ gte: from }`
abbrev pub not_before : Option Millis → Millis → Bool
not_before none t = true
not_before (some from) t = leb from t

-- `{ lte: to }`
abbrev pub not_after : Option Millis → Millis → Bool
not_after none t = true
not_after (some to) t = leb t to

abbrev pub counts : List Text → Option Millis → Option Millis → Payment → Bool
counts ids from to p =
    is_among ids p.branch_id
    && (is_paid p.status && (not_before from p.created_at && not_after to p.created_at))

-- `_sum: { amount: true }` of a `groupBy({ by: ['branchId'] })`
unfoldable pub add_to : Text → Cents → List (Text × Cents) → List (Text × Cents)
add_to b n [] = (b, n) ∷ []
add_to b n ((c, m) ∷ g) = if c == b then (c, m + n) ∷ g else (c, m) ∷ add_to b n g

unfoldable pub group_sum : (Payment → Bool) → List Payment → List (Text × Cents)
unfolding add_to
group_sum p [] = []
group_sum p (r ∷ rs) = if p r then add_to r.branch_id r.amount (group_sum p rs) else group_sum p rs

-- `new Map(groups).get(branchId)`
unfoldable pub total_in : Text → List (Text × Cents) → Option Cents
total_in b [] = none
total_in b ((c, n) ∷ g) = if c == b then some n else total_in b g

-- `BranchRevenue`
pub record BranchRevenue : Type 0 where
  pub branch_id : Text
  pub total : Cents

unfoldable pub sum_approved_by_branch :
    List Text → Option Millis → Option Millis → Action PaymentWorld (List BranchRevenue)
unfolding group_sum total_in
sum_approved_by_branch ids from to w =
    let totals = group_sum (counts ids from to) w.payments in
    (ok (map (λ b. record { branch_id = b; total = or_else (total_in b totals) 0 }) ids), w)
