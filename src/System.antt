-- ===== src/System.antt =====
-- The backend as a whole: the requests that its controllers, its consumer and its scheduler make,
-- handled one after another (backend/src/adapters/in).
pub mod Reach
use onion_architecture.Base.{Bool, List, [], ◌∷◌}
use onion_architecture.Domain.{Text}
use onion_architecture.World.{World}
use onion_architecture.World.Events.{RequestMessage}
use onion_architecture.World.Env.{Env}
use onion_architecture.UseCases.CreateReservation.{
  CreateReservationInput, request_reservation, process_request, create_reservation,
}
use onion_architecture.UseCases.CancelReservation.{cancel_reservation}
use onion_architecture.UseCases.ExpireReservations.{expire_overdue}
use onion_architecture.UseCases.RegisterEntry.{enter}
use onion_architecture.UseCases.RegisterExit.{leave}
use onion_architecture.UseCases.Admin.{report_slot_blocked, simulate_branch_full}

-- The requests that write.
pub data Request : Type 0 where
  queue : CreateReservationInput → Request
  create : CreateReservationInput → Request
  process : RequestMessage → Request
  cancel : (id user_id : Text) → Request
  expire : Request
  entry exit : (qr : Text) → Request
  report_blocked simulate_full : (id : Text) → Request

-- What a request leaves behind, whether it returns or throws.
unfoldable pub handle : Env → Request → World → World
unfolding request_reservation create_reservation process_request cancel_reservation expire_overdue
    enter leave report_slot_blocked simulate_branch_full
handle env (queue input) w = (request_reservation env input w).1
handle env (create input) w = (create_reservation env input w).1
handle env (process m) w = (process_request env m w).1
handle env (cancel id user_id) w = (cancel_reservation env id user_id w).1
handle env expire w = (expire_overdue env w).1
handle env (entry qr) w = (enter env qr w).1
handle env (exit qr) w = (leave env qr w).1
handle env (report_blocked id) w = (report_slot_blocked env id w).1
handle env (simulate_full id) w = (simulate_branch_full env id w).1
