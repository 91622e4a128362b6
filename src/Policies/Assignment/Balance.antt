-- ===== src/Policies/Assignment/Balance.antt =====
-- Which slot the balanced policy claims, and which branch it suggests.
use onion_architecture.Base.{
  ◌≡◌, ◌≢◌, refl, sym, ap, Bool, true, false, Option, some, List, [], ◌∷◌, map, arith, subst,
}
use onion_architecture.Base.Rows.{All, find, select, first, Keyed}
use onion_architecture.Base.Rows.Sweep.{All-mono, All-select, All-select_holds}
use onion_architecture.Base.Rows.Choice.{All-unmap, map-All, All-unselect, first-IsSorted}
use onion_architecture.Base.Sort.{sort_by, sort_by-All, All-sort_by, sort_by-IsSorted}
use onion_architecture.Domain.{Double, SlotType, Branch}
use onion_architecture.World.{World}
use onion_architecture.World.Env.{Env, DoubleOps}
use onion_architecture.World.Action.{ok}
use onion_architecture.Repositories.Slots as Slots
use onion_architecture.Repositories.Slots.{
  is_claimable, take_row, is_among, OccupancySummary, summary_branch, get_occupancy_summary,
}
use onion_architecture.Repositories.Slots.Occupancy.{summary_of, get_occupancy_summary_lem}
use onion_architecture.Repositories.Branches as Branches
use onion_architecture.Repositories.Branches.{branch_id}
use onion_architecture.Policies.Assignment.{
  Candidate, distance_km_to, by_load, by_score, take_best, occupancy_ratio, occupancy_penalty_km,
  balanced_rank,
}
use onion_architecture.Policies.Assignment.Claims.{offers, available_branches-select}
use onion_architecture.Policies.Assignment.Choice.{
  IsOrder, IsChoice, Ranks, IsCandidate, others, others-rows, All-others,
}

-- The distance, and a penalty for the share of the branch's slots that are taken.
abbrev pub load_score : DoubleOps → World → Branch → Branch → Double
load_score m w here b =
    m.add (distance_km_to m here b)
      (m.mul (occupancy_ratio m (summary_of b.id w)) (m.of_int occupancy_penalty_km))

pub among-All : (bs : List Branch) → All (λ b. is_among (map branch_id bs) b.id ≡ true) bs
among-All [] = tt
among-All (b ∷ bs) = (
  ground arith,
  All-mono (λ c. is_among (map branch_id bs) c.id ≡ true) _ (λ c h. ground (arith, h)) bs
      (among-All bs),
)

module _ (env : Env) (o : IsOrder env.doubles.le) (here : Branch) (t : Option SlotType) (w : World)
    (k : Keyed branch_id w.branches) where
  abbrev score : Branch → Double
  score = load_score env.doubles w here

  abbrev candidates : List Branch
  candidates = select (offers t w) (others here w)

  -- What is known of a candidate that is ranked.
  abbrev IsOffer : Candidate → Type 0
  IsOffer c = IsCandidate env.doubles score here w c × (offers t w c.branch ≡ true)

  module _ (summaries : List OccupancySummary)
      (answered : get_occupancy_summary (map branch_id candidates) w ≡ (ok summaries, w)) where
    abbrev ranked : List Candidate
    ranked = sort_by (by_score env.doubles) (map (by_load env.doubles here summaries) candidates)

    -- The penalty is that of the branch.
    same_score :
        (b : Branch)
        → is_among (map branch_id candidates) b.id ≡ true
        → (by_load env.doubles here summaries b).score ≡ score b
    same_score b h =
        ap
          (λ x. env.doubles.add (distance_km_to env.doubles here b) (
            env.doubles.mul (occupancy_ratio env.doubles x)
              (env.doubles.of_int occupancy_penalty_km)))
          (get_occupancy_summary_lem (map branch_id candidates) b.id h w summaries answered)

    offered :
        (bs : List Branch)
        → All (λ b. is_among (map branch_id candidates) b.id ≡ true) bs
        → All (λ b. (find branch_id b.id w.branches ≡ some b) × (b.id ≢ here.id)) bs
        → All (λ b. offers t w b ≡ true) bs
        → All (λ b. IsOffer (by_load env.doubles here summaries b)) bs
    offered [] a r f = tt
    offered (b ∷ bs) a r f = (
      (record { row = r.0.0; elsewhere = r.0.1; distance = refl; scored = same_score b a.0 }, f.0),
      offered bs a.1 r.1 f.1,
    )

    ranked-rows : All IsOffer ranked
    ranked-rows = sort_by-All (by_score env.doubles) _ _ (
        map-All _ (by_load env.doubles here summaries) candidates (
          offered candidates (among-All candidates)
            (All-select _ (offers t w) (others here w) (others-rows here w k))
            (All-select_holds (offers t w) (others here w))))

    -- What holds of the ranked candidates holds of every choice.
    spread :
        (P : Double → Type 0)
        → All (λ c. P c.score) ranked
        → All (λ b. IsChoice here t w b → P (score b)) w.branches
    spread P h =
        All-mono _ _ (λ b f c. f c.0 c.1) w.branches
          (All-others here w (λ b. offers t w b ≡ true → P (score b))
            (All-unselect (offers t w) (λ b. P (score b)) (others here w)
              (rescored candidates (among-All candidates) (
                All-unmap (λ c. P c.score) (by_load env.doubles here summaries) candidates
                  (All-sort_by (by_score env.doubles) (λ c. P c.score) _ h)))))
      where
        rescored :
            (bs : List Branch)
            → All (λ b. is_among (map branch_id candidates) b.id ≡ true) bs
            → All (λ b. P (by_load env.doubles here summaries b).score) bs
            → All (λ b. P (score b)) bs
        rescored [] a p = tt
        rescored (b ∷ bs) a p = (subst P (same_score b a.0) p.0, rescored bs a.1 p.1)

    best-Ranks :
        (cs : List Candidate) → ranked ≡ cs → Ranks env.doubles score here t w (ok (take_best cs))
    unfolding first
    best-Ranks [] e =
        All-mono _ _ (λ b f n. no_offer (offers t w b) (λ y. f (n, y))) w.branches
          (spread (λ s. ⊥) (rw e tt))
      where
        no_offer : (x : Bool) → (x ≡ true → ⊥) → x ≡ false
        no_offer true f = absurd (f refl)
        no_offer false f = refl
    best-Ranks (c ∷ cs) e =
        let rows : All IsOffer (c ∷ cs) = rw e at ranked-rows in
        let (p, y) = rows.0 in
        record {
          row = p.row;
          choice = (p.elsewhere, y);
          distance = p.distance;
          best =
              spread (λ s. env.doubles.le (score c.branch) s ≡ true)
                (rw (sym p.scored) (
                  All-mono _ _ (λ d f. f refl) ranked
                    (first-IsSorted (by_score env.doubles) (λ a b. o.total a.score b.score)
                      (λ _. true) ranked {x = c}
                      (sort_by-IsSorted (by_score env.doubles) (λ a b. o.total a.score b.score)
                        (λ a b d. o.trans a.score b.score d.score) _)
                      (heads e))));
        }
      where
        heads : {cs : List Candidate} → ranked ≡ c ∷ cs → first (λ _. true) ranked ≡ some c
        heads e = rw e refl

  pub balanced_rank-Ranks : Ranks env.doubles score here t w (balanced_rank env here t w).0
  unfolding balanced_rank Branches.find_all_except get_occupancy_summary
  balanced_rank-Ranks =
      rw (available_branches-select (others here w) t w) (best-Ranks _ refl _ refl)
