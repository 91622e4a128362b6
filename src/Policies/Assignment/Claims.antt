-- ===== src/Policies/Assignment/Claims.antt =====
-- What an assignment does to the slots: it claims one that was free, or changes nothing.
use onion_architecture.Base.{
  ◌≡◌, refl, inl, inr, Bool, true, Option, none, some, List, [], ◌∷◌, arith, Option-cases, ltb, ℕ,
}
use onion_architecture.Base.Rows.{find, modify, select_min, select, count_where, Keyed}
use onion_architecture.Base.Rows.Queries.{select_min-holds, select_min-find}
use onion_architecture.Domain.{Text, SlotType, Branch, ParkingSlot}
use onion_architecture.World.{World}
use onion_architecture.World.Env.{Env, Strategy, default_strategy, balanced_strategy}
use onion_architecture.World.Action.{Action, Result, ok, err, ◌>>=◌}
use onion_architecture.Repositories.Slots as Slots
use onion_architecture.Repositories.Slots.{is_claimable, slot_id, reserve, take_row}
use onion_architecture.Repositories.Branches as Branches
use onion_architecture.Policies.Assignment.{
  Assignment, assigned, suggest_other_branch, no_availability, Candidate, suggest_first, suggest,
  default_rank, balanced_rank, available_branches, default_assign, balanced_assign, assign,
  assign_by, or_suggest, take_best,
}

-- A call that only reads, and assigns nothing.
abbrev pub Reads : World → Result Assignment × World → Type 0
Reads w (ok (assigned s), w') = ⊥
Reads w (ok (suggest_other_branch b d), w') = w' ≡ w
Reads w (ok no_availability, w') = w' ≡ w
Reads w (err e, w') = ⊥

suggest_first-Reads :
    (cs : List Candidate) (t : Option SlotType) (w : World) → Reads w (suggest_first cs t w)
unfolding suggest_first Slots.has_availability
suggest_first-Reads [] t w = refl
suggest_first-Reads (c ∷ cs) t w = ground (arith, suggest_first-Reads cs t w)

default_rank-Reads :
    (env : Env) (here : Branch) (t : Option SlotType) (w : World)
    → Reads w (default_rank env here t w)
unfolding default_rank Branches.find_all_except
default_rank-Reads env here t w = suggest_first-Reads _ t w

-- A branch offers a slot of the type.
abbrev pub offers : Option SlotType → World → Branch → Bool
offers t w b = ltb 0 (count_where (is_claimable b.id t) w.slots)

pub available_branches-select :
    (bs : List Branch) (t : Option SlotType) (w : World)
    → available_branches bs t w ≡ (ok (select (offers t w) bs), w)
unfolding available_branches Slots.has_availability select
available_branches-select [] t w = refl
available_branches-select (b ∷ bs) t w = rw (available_branches-select bs t w)

take_best-Reads : (cs : List Candidate) (w : World) → Reads w (ok (take_best cs), w)
take_best-Reads [] w = refl
take_best-Reads (c ∷ cs) w = refl

balanced_rank-Reads :
    (env : Env) (here : Branch) (t : Option SlotType) (w : World)
    → Reads w (balanced_rank env here t w)
unfolding balanced_rank Branches.find_all_except Slots.get_occupancy_summary
balanced_rank-Reads env here t w = rw (available_branches-select _ t w) (take_best-Reads _ w)

suggest-Reads :
    (rank : Branch → Action World Assignment) (b : Text) (w : World)
    → ((here : Branch) → Reads w (rank here w))
    → Reads w (suggest rank b w)
unfolding suggest Branches.find_by_id
suggest-Reads rank b w h = elim (Option-cases (find Branches.branch_id b w.branches)) [
  | inl e ↦ rw (e) refl
  | inr (here, e) ↦ rw (e) (h here)
]

-- The slot that is handed out was free, in the branch and of the type asked for, and is now
-- reserved; no other row changes.
pub record Claims (env : Env) (b : Text) (t : Option SlotType) (w : World) (s : ParkingSlot)
    (w' : World) : Type 0 where
  pub before : ParkingSlot
  pub row : find slot_id s.id w.slots ≡ some before
  pub claimable : is_claimable b t before ≡ true
  pub reserved : s ≡ reserve env.now before
  pub after : w' ≡ record w { slots = modify slot_id s.id (reserve env.now) w.slots }

-- The outcome of an assignment.
abbrev pub Assigns : Env → Text → Option SlotType → World → Result Assignment × World → Type 0
Assigns env b t w (ok (assigned s), w') = Claims env b t w s w'
Assigns env b t w (ok (suggest_other_branch c d), w') = w' ≡ w
Assigns env b t w (ok no_availability, w') = w' ≡ w
Assigns env b t w (err e, w') = ⊥

Reads-Assigns :
    (env : Env) (b : Text) (t : Option SlotType) (w : World) (r : Result Assignment × World)
    → Reads w r
    → Assigns env b t w r
Reads-Assigns env b t w (ok (assigned s), w') h = elim h [ ]
Reads-Assigns env b t w (ok (suggest_other_branch c d), w') h = h
Reads-Assigns env b t w (ok no_availability, w') h = h
Reads-Assigns env b t w (err e, w') h = elim h [ ]

module _ (env : Env) (b : Text) (t : Option SlotType) (w : World) (k : Keyed slot_id w.slots) where
  -- A claim, and the search that follows a failed one.
  claim-Assigns :
      (key : ParkingSlot → ℕ) (rest : Action World Assignment)
      → Reads w (rest w)
      → (o : Option ParkingSlot) → select_min (is_claimable b t) key w.slots ≡ o
      → Assigns env b t w
          (((λ (v : World). take_row env v o) >>= λ claimed. or_suggest claimed rest) w)
  claim-Assigns key rest h none e = Reads-Assigns env b t w (rest w) h
  claim-Assigns key rest h (some s) e = record {
    before = s;
    row = select_min-find (is_claimable b t) key slot_id w.slots k e;
    claimable = select_min-holds (is_claimable b t) key w.slots e;
    reserved = refl;
    after = refl;
  }

  default_assign-Assigns : Assigns env b t w (default_assign env b t w)
  unfolding default_assign Slots.claim_available_slot
  default_assign-Assigns =
      claim-Assigns (λ s. s.code) _ (suggest-Reads _ b w λ here. default_rank-Reads env here t w) _
        refl

  balanced_assign-Assigns : Assigns env b t w (balanced_assign env b t w)
  unfolding balanced_assign Slots.claim_least_recently_used_slot
  balanced_assign-Assigns =
      claim-Assigns (λ s. s.updated_at) _
        (suggest-Reads _ b w λ here. balanced_rank-Reads env here t w) _ refl

  -- Where slots have distinct identifiers, under either policy: an assigned slot was claimable
  -- in the branch and of the type, and the only change is that its row is reserved at the
  -- present time; any other outcome changes nothing.
  pub assign-Assigns : Assigns env b t w (assign env b t w)
  unfolding assign
  assign-Assigns = by_strategy env.strategy
    where
      by_strategy : (s : Strategy) → Assigns env b t w (assign_by s env b t w)
      by_strategy default_strategy = default_assign-Assigns
      by_strategy balanced_strategy = balanced_assign-Assigns
