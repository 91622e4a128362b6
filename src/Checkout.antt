-- ===== src/Checkout.antt =====
-- The two gRPC calls by which backend and payments-service settle a stay: payments-service asks
-- backend for a quote, and backend asks payments-service for the payment.
pub mod Settled
pub mod Stuck
pub mod Revenue
use mathlib.Core.Option as Option
use onion_architecture.Base.{Bool, Option, none, some, List, map, truthy}
use onion_architecture.Base.Rows.{find}
use onion_architecture.Domain.{Text, Failure, domain, infra, parking_service_unavailable}
use onion_architecture.Domain as Domain
use onion_architecture.World.{World}
use onion_architecture.World.Env.{Env, Reply, answer}
use onion_architecture.World.Action.{Result, ok, err}
use onion_architecture.UseCases.Queries.{get_session_quote}
use onion_architecture.UseCases.Queries as Queries
use onion_architecture.Payments.{Payment, SessionQuote, PaymentWorld}
use onion_architecture.Payments.Table.{payment_session}

-- `ParkingGrpcAdapter.getQuote` and its `translate`
abbrev pub quote_reply : Result Queries.SessionQuote → Result SessionQuote
quote_reply (ok q) = ok (record {
  session_id = q.session_id;
  user_id = q.user_id;
  branch_id = q.branch_id;
  active = q.active;
  amount = q.pricing.amount;
})
quote_reply (err (domain e)) = err (domain e)
quote_reply (err (infra e)) = err (domain parking_service_unavailable)

unfoldable pub ask_quote : Env → World → Text → Result SessionQuote
unfolding get_session_quote
ask_quote env w id = quote_reply (get_session_quote env id w).0

-- `toDomain` of `PaymentsServiceGrpcAdapter`, given how references are joined with commas
abbrev pub to_domain : (List Text → Text) → Payment → Domain.Payment
to_domain join p = record {
  id = p.id;
  session_id = p.session_id;
  user_id = p.user_id;
  amount = p.amount;
  status = p.status;
  external_reference = truthy (some (join p.external_reference));
  paid_at = p.paid_at;
  created_at = p.created_at;
}

-- `PaymentsServiceGrpcAdapter.findBySessionId`, where payments-service answers
abbrev pub ask_payment : (List Text → Text) → PaymentWorld → Text → Reply (Option Domain.Payment)
ask_payment join pw id = answer (Option.map (to_domain join) (find payment_session id pw.payments))
