-- ===== src/Planner/Limits.antt =====
-- The concurrency of a plan of orchestration/planner.py, against the limits that it goes by.
use fabric_data_framework.Prelude.{
  ℕ, zero, suc, ◌≤◌, ◌≡◌, refl, inl, inr, false, Option, none, some, [], ◌∷◌, ◌==◌, list_eq, nat_eq,
  Text, Bool-cases, arith, length,
}
use fabric_data_framework.Prelude.Dict.{Dict, get}
use fabric_data_framework.Planner.Config.{EffectiveDatasetConfig}
use fabric_data_framework.Planner.Policy.{ExecutionGroupPolicy}
use fabric_data_framework.Planner.Build.{
  PlanRequest, limited_by, effective_concurrency, smaller, group_limit,
}

limited_by-le :
    (limit : ℕ) (d : Dict Text EffectiveDatasetConfig)
    → (limited_by limit d ≤ limit)
      × ((id : Text) (e : EffectiveDatasetConfig)
          → get id d ≡ some e
          → limited_by limit d ≤ e.config.orchestration.max_concurrency)
unfolding limited_by get
limited_by-le limit [] = (omega arith, λ id e h. cc)
limited_by-le limit ((j, w) ∷ d) =
    let (below, each) = limited_by-le limit d in
    (
      ground arith,
      λ id e h. elim (Bool-cases (j == id)) [
        | inl same ↦
            let value : some w ≡ some e = rw same at h in
            let limit_of : w.config.orchestration.max_concurrency
                ≡ e.config.orchestration.max_concurrency =
              cc in
            ground arith
        | inr other ↦ let rest = each id e (rw other at h) in ground arith
      ],
    )

group_limit-le :
    (policy : Option ExecutionGroupPolicy) (limit : ℕ)
    → (group_limit policy limit ≤ limit)
      × ((p : ExecutionGroupPolicy) (n : ℕ)
          → policy ≡ some p
          → p.max_concurrency ≡ some (suc n)
          → group_limit policy limit ≤ suc n)
group_limit-le none limit = (omega arith, λ p n h k. cc)
group_limit-le (some policy) limit = by_cap policy.max_concurrency refl
  where
    by_cap :
        (cap : Option ℕ)
        → policy.max_concurrency ≡ cap
        → (group_limit (some policy) limit ≤ limit)
          × ((p : ExecutionGroupPolicy) (n : ℕ)
              → (let given : Option ExecutionGroupPolicy = some policy in given) ≡ some p
              → p.max_concurrency ≡ some (suc n)
              → group_limit (some policy) limit ≤ suc n)
    by_cap none e = rw e (omega arith, λ p n h k. cc)
    by_cap (some zero) e = rw e (omega arith, λ p n h k. cc)
    by_cap (some (suc m)) e =
        rw e (ground arith, λ p n h k. let caps : some (suc m) ≡ some (suc n) = cc in ground arith)

pub concurrency-le :
    (request : PlanRequest) (chosen : Dict Text EffectiveDatasetConfig)
    → (request.max_concurrency == 0) ≡ false
    → (effective_concurrency request chosen ≤ request.max_concurrency)
      × ((id : Text) (e : EffectiveDatasetConfig)
          → get id chosen ≡ some e
          → effective_concurrency request chosen ≤ e.config.orchestration.max_concurrency)
      × ((policy : ExecutionGroupPolicy) (n : ℕ)
          → request.execution_group_policy ≡ some policy
          → policy.max_concurrency ≡ some (suc n)
          → effective_concurrency request chosen ≤ suc n)
unfolding effective_concurrency get
concurrency-le request [] positive = (ground arith, (λ id e h. cc), λ policy n h k. omega arith)
concurrency-le request (first ∷ rest) positive =
    let chosen = first ∷ rest in
    let limit = smaller request.max_concurrency (length chosen) in
    let (below, each) = limited_by-le limit chosen in
    let (under, capped) = group_limit-le request.execution_group_policy (limited_by limit chosen) in
    let bound : limit ≤ request.max_concurrency = ground arith in
    (omega arith, (λ id e h. let one = each id e h in omega arith), capped)
