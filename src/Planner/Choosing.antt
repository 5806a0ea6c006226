-- ===== src/Planner/Choosing.antt =====
-- The loop of build_dispatch_plan that chooses the datasets of a plan.
use fabric_data_framework.Prelude.{
  ◌≡◌, subst, ◌↔◌, inl, inr, true, false, not, ◌&&◌, Option, none, some, [], ◌∷◌, if◌then◌else◌,
  ◌==◌, ==_iff, list_eq, nat_eq, Text, Bool-cases, Option-cases, ok, >>=-eq-ok, guard-ok, ok-inj,
  arith,
}
use fabric_data_framework.Prelude.Dict.{Dict, get, HasUniqueKeys}
use fabric_data_framework.Planner.Config.{
  DatasetConfig, EffectiveDatasetConfig, unsupported_combination,
}
use fabric_data_framework.Planner.Build.{
  Hashes, PlanRequest, effective_config, is_chosen, choose_each,
}

module _ (hashes : Hashes) (request : PlanRequest) (group : Option Text) where
  -- The dataset is deployed with this effective configuration, is enabled by it, and is in the group
  -- and among the requested ones.
  abbrev pub IsChosen : Dict Text DatasetConfig → Text → EffectiveDatasetConfig → Type 0
  IsChosen deployed id effective =
      (base : DatasetConfig) × (get id deployed ≡ some base)
      × (effective_config hashes request id base ≡ ok effective)
      × (is_chosen hashes request group id effective ≡ true)

  record Step (id : Text) (base : DatasetConfig) (deployed : Dict Text DatasetConfig)
      (chosen : Dict Text EffectiveDatasetConfig) : Type 0 where
    effective : EffectiveDatasetConfig
    resolved : effective_config hashes request id base ≡ ok effective
    supported :
        is_chosen hashes request group id effective ≡ true
        → request.supports effective.config ≡ true
    rest : Dict Text EffectiveDatasetConfig
    others : choose_each hashes request group deployed ≡ ok rest
    taken :
        (if is_chosen hashes request group id effective then (id, effective) ∷ rest else rest)
        ≡ chosen

  choose_each-Step :
      (id : Text) (base : DatasetConfig) (deployed : Dict Text DatasetConfig)
      (chosen : Dict Text EffectiveDatasetConfig)
      → choose_each hashes request group ((id, base) ∷ deployed) ≡ ok chosen
      → Step id base deployed chosen
  unfolding choose_each
  choose_each-Step id base deployed chosen h =
      let (effective, resolved, h1) = >>=-eq-ok (effective_config hashes request id base) _ h in
      let (supported, h2) =
        guard-ok
          (is_chosen hashes request group id effective && not (request.supports effective.config))
          unsupported_combination _ h1 in
      let (rest, others, h3) = >>=-eq-ok (choose_each hashes request group deployed) _ h2 in
      record {
        effective = effective;
        resolved = resolved;
        supported = λ yes. ground arith;
        rest = rest;
        others = others;
        taken = ok-inj _ _ h3;
      }

  -- What the loop gives: each key once, and exactly the datasets that are chosen.
  pub record AreChosen (deployed : Dict Text DatasetConfig)
      (chosen : Dict Text EffectiveDatasetConfig) : Type 0 where
    pub unique : HasUniqueKeys chosen
    pub entries :
        (id : Text) (e : EffectiveDatasetConfig) → (get id chosen ≡ some e) ↔ IsChosen deployed id e
    pub supported :
        (id : Text) (e : EffectiveDatasetConfig)
        → get id chosen ≡ some e
        → request.supports e.config ≡ true

  absent_in :
      (deployed : Dict Text DatasetConfig) (rest : Dict Text EffectiveDatasetConfig) (id : Text)
      → AreChosen deployed rest
      → get id deployed ≡ none
      → get id rest ≡ none
  absent_in deployed rest id are fresh = elim (Option-cases (get id rest)) [
    | inl absent ↦ absent
    | inr (e, there) ↦ let (base, found, made, h) = (are.entries id e).0 there in cc
  ]

  take-AreChosen :
      (id : Text) (base : DatasetConfig) (deployed : Dict Text DatasetConfig)
      (effective : EffectiveDatasetConfig) (rest : Dict Text EffectiveDatasetConfig)
      → get id deployed ≡ none
      → effective_config hashes request id base ≡ ok effective
      → is_chosen hashes request group id effective ≡ true
      → request.supports effective.config ≡ true
      → AreChosen deployed rest
      → AreChosen ((id, base) ∷ deployed) ((id, effective) ∷ rest)
  unfolding get
  take-AreChosen id base deployed effective rest fresh resolved picked fits are = record {
    unique = (absent_in deployed rest id are fresh, are.unique);
    entries = λ j e. elim (Bool-cases (id == j)) [
      | inl same ↦
          let key = (==_iff id j).0 same in
          (
            λ there.
                let value : some effective ≡ some e = rw same at there in (base, rw same, cc, cc),
            λ (b, found, made, chosen).
                let here : some base ≡ some b = rw same at found in rw same (cc),
          )
      | inr other ↦ (
        λ there.
            let (b, found, made, h) = (are.entries j e).0 (rw other at there) in
            (b, rw other found, made, h),
        λ (b, found, made, h). rw other ((are.entries j e).1 (b, (rw other at found), made, h)),
      )
    ];
    supported = λ j e there. elim (Bool-cases (id == j)) [
      | inl same ↦ let value : some effective ≡ some e = rw same at there in cc
      | inr other ↦ are.supported j e (rw other at there)
    ];
  }

  pass-AreChosen :
      (id : Text) (base : DatasetConfig) (deployed : Dict Text DatasetConfig)
      (effective : EffectiveDatasetConfig) (rest : Dict Text EffectiveDatasetConfig)
      → get id deployed ≡ none
      → effective_config hashes request id base ≡ ok effective
      → is_chosen hashes request group id effective ≡ false
      → AreChosen deployed rest
      → AreChosen ((id, base) ∷ deployed) rest
  unfolding get
  pass-AreChosen id base deployed effective rest fresh resolved passed are = record {
    unique = are.unique;
    entries = λ j e. elim (Bool-cases (id == j)) [
      | inl same ↦
          let key = (==_iff id j).0 same in
          (
            λ there. let (b, found, made, h) = (are.entries j e).0 there in cc,
            λ (b, found, made, chosen). let here : some base ≡ some b = rw same at found in cc,
          )
      | inr other ↦ (
        λ there.
            let (b, found, made, h) = (are.entries j e).0 there in (b, rw other found, made, h),
        λ (b, found, made, h). (are.entries j e).1 (b, (rw other at found), made, h),
      )
    ];
    supported = are.supported;
  }

  pub choose_each-AreChosen :
      (deployed : Dict Text DatasetConfig) (chosen : Dict Text EffectiveDatasetConfig)
      → HasUniqueKeys deployed
      → choose_each hashes request group deployed ≡ ok chosen
      → AreChosen deployed chosen
  unfolding choose_each get
  choose_each-AreChosen [] chosen u h =
      let e : [] ≡ chosen = ok-inj _ _ h in
      rw (← e) (record {
        unique = tt;
        entries = λ id e. (λ there. cc, λ (b, found, made, r). cc);
        supported = λ id e there. cc;
      })
  choose_each-AreChosen ((id, base) ∷ deployed) chosen (fresh, u) h =
      let step = choose_each-Step id base deployed chosen h in
      let are = choose_each-AreChosen deployed step.rest u step.others in
      elim (Bool-cases (is_chosen hashes request group id step.effective)) [
        | inl picked ↦ subst (AreChosen ((id, base) ∷ deployed)) (rw picked at step.taken) (
            take-AreChosen id base deployed step.effective step.rest fresh step.resolved picked
              (step.supported picked) are)
        | inr passed ↦ subst (AreChosen ((id, base) ∷ deployed)) (rw passed at step.taken) (
            pass-AreChosen id base deployed step.effective step.rest fresh step.resolved passed are)
      ]
