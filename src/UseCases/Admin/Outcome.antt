-- ===== src/UseCases/Admin/Outcome.antt =====
-- What the use cases on slots change.
use onion_architecture.Base.{◌≡◌, refl, inl, inr, ◌&&◌, none, some, ◌∷◌, Option-cases, ◌==◌}
use onion_architecture.Base.Rows.{find, modify, update_many}
use onion_architecture.Domain.{
  Text, ParkingSlot, Branch, no_disponible, ocupada, is_available, domain, not_found, slot, branch,
}
use onion_architecture.World.{World}
use onion_architecture.World.Events.{slot_status_changed, occupancy_updated}
use onion_architecture.World.Env.{Env}
use onion_architecture.World.Action.{ok, err}
use onion_architecture.Repositories.Slots as Slots
use onion_architecture.Repositories.Slots.{slot_id, with_status}
use onion_architecture.Repositories.Branches as Branches
use onion_architecture.Repositories.Branches.{branch_id}
use onion_architecture.UseCases.Admin.{report_slot_blocked, simulate_branch_full}
use onion_architecture.Invariant.{Consistent}
use onion_architecture.Invariant.Updates.{with_status-IsConsistent}
use onion_architecture.Invariant.Inserts.{update_many-IsConsistent}

module _ (env : Env) (id : Text) (w : World) where
  -- The world once a slot is reported.
  abbrev pub blocked_world : ParkingSlot → World
  blocked_world s = record w {
    slots = modify slot_id id (with_status env.now no_disponible) w.slots;
    sent =
        occupancy_updated s.branch_id ∷ slot_status_changed s.branch_id id no_disponible ∷ w.sent;
  }

  pub report_unknown :
      find slot_id id w.slots ≡ none
      → report_slot_blocked env id w ≡ (err (domain (not_found slot id)), w)
  unfolding report_slot_blocked Slots.find_by_id
  report_unknown h = rw h refl

  pub report_blocks :
      {s : ParkingSlot}
      → find slot_id id w.slots ≡ some s
      → report_slot_blocked env id w ≡ (ok tt, blocked_world s)
  unfolding report_slot_blocked Slots.find_by_id
  report_blocks h = rw (h, Slots.update_status-some env id no_disponible w h) refl

  pub report_slot_blocked-Consistent : Consistent w → Consistent (report_slot_blocked env id w).1
  report_slot_blocked-Consistent c = elim (Option-cases (find slot_id id w.slots)) [
    | inl n ↦ rw (report_unknown n) c
    | inr (s, e) ↦
        rw (report_blocks e)
          (with_status-IsConsistent c id env.now no_disponible (λ i r hr lr q. refl))
  ]

  -- The world once the free slots of a branch are marked.
  abbrev pub full_world : World
  full_world = record w {
    slots =
        update_many (λ s. (s.branch_id == id) && is_available s) (with_status env.now ocupada)
          w.slots;
    sent = occupancy_updated id ∷ w.sent;
  }

  pub simulate_unknown :
      find branch_id id w.branches ≡ none
      → simulate_branch_full env id w ≡ (err (domain (not_found branch id)), w)
  unfolding simulate_branch_full Branches.find_by_id
  simulate_unknown h = rw h refl

  pub simulate_fills :
      {b : Branch}
      → find branch_id id w.branches ≡ some b
      → simulate_branch_full env id w ≡ (ok tt, full_world)
  unfolding simulate_branch_full Branches.find_by_id Slots.mark_all_occupied
  simulate_fills h = rw h refl

  pub simulate_branch_full-Consistent : Consistent w → Consistent (simulate_branch_full env id w).1
  simulate_branch_full-Consistent c = elim (Option-cases (find branch_id id w.branches)) [
    | inl n ↦ rw (simulate_unknown n) c
    | inr (b, e) ↦ rw (simulate_fills e) (update_many-IsConsistent c _ env.now)
  ]
