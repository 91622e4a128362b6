-- ===== src/Tests/Payments.antt =====
-- Payments for the car of the small system.
use onion_architecture.Base.{List, ◌≡◌, refl, true, none, [], ◌∷◌, map, arith}
use onion_architecture.Base.Rows.{find}
use onion_architecture.Domain.{ReservationStatus, approved, rejected, domain, payment_not_approved}
use onion_architecture.World.Env.{Env}
use onion_architecture.World.Action.{ok, err}
use onion_architecture.Repositories.Sessions.{complete}
use onion_architecture.Policies.Pricing.{billable_hours}
use onion_architecture.UseCases.RegisterExit.{leave}
use onion_architecture.UseCases.RegisterExit.Outcome.{released_world}
use onion_architecture.Payments.{
  Payment, PaymentMethodType, cash, yape, SessionQuote, PaymentWorld, PaymentEnv,
}
use onion_architecture.Payments.Methods.{References, route, route-RejectsNothing}
use onion_architecture.Payments.Register.{RegisterPaymentInput, register_payment}
use onion_architecture.Payments.Ledger.{IsBalanced, charged_for}
use onion_architecture.Payments.Covers.{
  Covers, register_payment-IsBalanced, register_payment-Covers,
}
use onion_architecture.Checkout.{ask_quote, ask_payment}
use onion_architecture.Checkout.Settled.{IsInside, register_payment-leave}
use onion_architecture.Checkout.Stuck.{Try, pay_all, IsRepeated, pay_all-leave}
use onion_architecture.Checkout.Revenue.{join_sums, ask_sums, report_row, join_sums_lem}
use onion_architecture.Tests.Data.{env, inside_world, reservation_in, session, branch_at}
use onion_architecture.Tests.Tables.{inside-Consistent}

abbrev references : References
references = record { reference = λ m. 5 }

abbrev no_payments : PaymentWorld
no_payments = record { payments = []; next_id = 900; charged = []; sent = [] }

no_payments-IsBalanced : IsBalanced no_payments
unfolding find charged_for
no_payments-IsBalanced = record {
  keyed = tt;
  unique = tt;
  fresh = λ i h. refl;
  balanced = λ i. refl;
  rejected_empty = λ i p f h. cc;
}

abbrev pay_env : PaymentEnv
pay_env = record {
  now = 9000000;
  get_quote = ask_quote env inside_world;
  charge = route references;
}

abbrev pay_input : RegisterPaymentInput
pay_input = record { session_id = 101; user_id = 7; method = cash }

session-IsInside :
    IsInside inside_world 101 session (reservation_in ReservationStatus.confirmed) (branch_at 1 3)
unfolding find
session-IsInside = record {
  row = refl;
  active = refl;
  no_exit = refl;
  booked = refl;
  located = refl;
}

abbrev quote : SessionQuote
quote = record { session_id = 101; user_id = 7; branch_id = 1; active = true; amount = 1000 }

register_payment-IsBalanced_example : IsBalanced (register_payment pay_env pay_input no_payments).1
register_payment-IsBalanced_example =
    register_payment-IsBalanced pay_env pay_input no_payments (route-RejectsNothing references)
      no_payments-IsBalanced

abbrev quote_env : PaymentEnv
quote_env = record pay_env { get_quote = λ i. ok quote }

register_payment-Covers_example :
    Covers quote_env pay_input no_payments quote (register_payment quote_env pay_input no_payments)
register_payment-Covers_example =
    register_payment-Covers quote_env pay_input no_payments {quote = quote}
      (route-RejectsNothing references) no_payments-IsBalanced refl refl (omega arith)

-- The barrier asks payments-service after the payment.
abbrev exit_env : Env
exit_env = record env {
  find_payment = ask_payment (λ l. 1) (register_payment pay_env pay_input no_payments).1;
}

register_payment-leave_example : leave exit_env 2 inside_world ≡ (
  ok (complete 9000000 session),
  released_world exit_env session (reservation_in ReservationStatus.confirmed) inside_world,
)
unfolding billable_hours
register_payment-leave_example =
    register_payment-leave env exit_env pay_env 2 inside_world no_payments pay_input {s = session}
      {r = reservation_in ReservationStatus.confirmed} {b = branch_at 1 3} (λ l. 1)
      inside-Consistent no_payments-IsBalanced (route-RejectsNothing references) session-IsInside
      refl refl refl refl (omega arith) (omega arith)

-- A gateway rejected the first charge of eight soles.
abbrev refused : Payment
refused = record {
  id = 900;
  session_id = 101;
  user_id = 7;
  branch_id = 1;
  amount = 800;
  status = rejected;
  external_reference = 5 ∷ [];
  paid_at = none;
  created_at = 0;
}

-- Still in the first hour.
abbrev early_env : Env
early_env = record env { now = 3000000 }

abbrev refused_world : PaymentWorld
refused_world = record { payments = refused ∷ []; next_id = 901; charged = []; sent = [] }

-- Two more requests, by cash and by Yape, on a quote of eight soles at the most.
abbrev again : PaymentMethodType → Try
again m = record {
  backend = early_env;
  payments = record pay_env { get_quote = ask_quote early_env inside_world };
  input = record pay_input { method = m };
}

abbrev tries : List Try
tries = again cash ∷ again yape ∷ []

abbrev barrier : Env
barrier = record env { find_payment = ask_payment (λ l. 1) (pay_all tries refused_world) }

pay_all-leave_example :
    (pay_all tries refused_world ≡ refused_world)
    × (leave barrier 2 inside_world ≡ (err (domain payment_not_approved), inside_world))
unfolding find billable_hours
pay_all-leave_example =
    pay_all-leave inside_world 101 {s = session} {r = reservation_in ReservationStatus.confirmed}
      {b = branch_at 1 3} session-IsInside refused_world {p = refused} refl barrier 2 (λ l. 1) tries
      refl (once cash, (once yape, tt)) refl refl
  where
    once :
        (m : PaymentMethodType)
        → IsRepeated inside_world 101 session-IsInside refused_world refl (again m)
    once m = record { session = refl; quoted = refl; no_dearer = omega arith }

abbrev paid_world : PaymentWorld
paid_world = record refused_world { payments = record refused { status = approved } ∷ [] }

join_sums_lem_example :
    join_sums (ask_sums none none paid_world) (branch_at 1 3 ∷ []) inside_world
    ≡ (ok (map (report_row none none paid_world) (branch_at 1 3 ∷ [])), inside_world)
join_sums_lem_example = join_sums_lem none none paid_world (branch_at 1 3 ∷ []) inside_world
