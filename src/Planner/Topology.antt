-- ===== src/Planner/Topology.antt =====
-- `_validate_dependency_graph` of orchestration/planner.py finds an order in which each dataset comes
-- after the datasets that it depends on.
use fabric_data_framework.Prelude.{
  ℕ, zero, suc, ◌≡◌, refl, sym, ap, subst, ◌∙◌, ◌⊎◌, inl, inr, true, false, none, some, List, [],
  ◌∷◌, ==_refl, list_eq, nat_eq, Text, length, elem, All, All-map, All-elem, Bool-cases,
  Option-cases, Result, ok, >>=-eq-ok, arith,
}
use fabric_data_framework.Prelude.Dict.{Dict, get}
use fabric_data_framework.Prelude.Sort.{sort_by, by_text, elem-sort_with}
use fabric_data_framework.Planner.Config.{OrchestrationPolicy, PlannerError}
use fabric_data_framework.Planner.Graph.{
  Marks, visit_each, entered, left, visit, visit_all, check_deployed, no_marks, dataset_ids,
  any_undeployed, validate_dependency_graph,
}

module _ (selected : Dict Text OrchestrationPolicy) where
  -- A dependency is not selected, or it is among the datasets named.
  abbrev pub Settled : List Text → Text → Type 0
  Settled before dependency = (get dependency selected ≡ none) ⊎ (elem dependency before ≡ true)

  abbrev dependencies_of : Text → List Text
  dependencies_of id = elim (get id selected) [ none ↦ [] | some config ↦ config.dependencies ]

  -- The newest first: the dependencies of each are settled among those that came before it.
  abbrev pub IsOrdered : List Text → Type 0
  IsOrdered [] = Unit
  IsOrdered (id ∷ before) = All (Settled before) (dependencies_of id) × IsOrdered before

  -- What a visit achieves.
  record Visited (id : Text) (m m' : Marks) : Type 0 where
    ordered : IsOrdered m'.visited
    reached : elem id m'.visited ≡ true
    grown : (d : Text) → elem d m.visited ≡ true → elem d m'.visited ≡ true

  record VisitedEach (ids : List Text) (m m' : Marks) : Type 0 where
    ordered : IsOrdered m'.visited
    reached : All (Settled m'.visited) ids
    grown : (d : Text) → elem d m.visited ≡ true → elem d m'.visited ≡ true

  Settled-grown :
      (m m' : Marks)
      → ((d : Text) → elem d m.visited ≡ true → elem d m'.visited ≡ true)
      → (d : Text) → Settled m.visited d
      → Settled m'.visited d
  Settled-grown m m' grown d (inl absent) = inl absent
  Settled-grown m m' grown d (inr there) = inr (grown d there)

  visit_each-Visited :
      (step : Text → Marks → Result PlannerError Marks)
      → ((id : Text) (m m' : Marks) → step id m ≡ ok m' → IsOrdered m.visited → Visited id m m')
      → (ids : List Text) (m m' : Marks) → visit_each step selected ids m ≡ ok m'
      → IsOrdered m.visited
      → VisitedEach ids m m'
  unfolding visit_each
  visit_each-Visited step sound [] m m' h o =
      let e : m ≡ m' = cc in rw (← e) (record { ordered = o; reached = tt; grown = λ d k. k })
  visit_each-Visited step sound (id ∷ ids) m m' h o = elim (Option-cases (get id selected)) [
    | inl absent ↦
        let r = visit_each-Visited step sound ids m m' (rw (absent, visit_each) at h) o in
        record { ordered = r.ordered; reached = (inl absent, r.reached); grown = r.grown }
    | inr (config, present) ↦
        let (mid, first, rest) = >>=-eq-ok (step id m) _ (rw (present, visit_each) at h) in
        let a = sound id m mid first o in
        let r = visit_each-Visited step sound ids mid m' rest a.ordered in
        record {
          ordered = r.ordered;
          reached = (inr (r.grown id a.reached), r.reached);
          grown = λ d k. r.grown d (a.grown d k);
        }
  ]

  left-Visited :
      (id : Text) (config : OrchestrationPolicy) (m done : Marks)
      → get id selected ≡ some config
      → VisitedEach config.dependencies (entered id m) done
      → Visited id m (left id done)
  left-Visited id config m done present r =
      let deps : All (Settled done.visited) (dependencies_of id) =
        subst (All (Settled done.visited))
          (sym (ap (λ o. elim o [ none ↦ [] | some c ↦ c.dependencies ]) present)) r.reached in
      record {
        ordered = (deps, r.ordered);
        reached = rw (==_refl id) refl;
        grown = λ d k. ground (arith, r.grown d k);
      }

  visit-Visited :
      (n : ℕ) (id : Text) (m m' : Marks)
      → visit n selected id m ≡ ok m'
      → IsOrdered m.visited
      → Visited id m m'
  unfolding visit
  visit-Visited zero id m m' h o = cc
  visit-Visited (suc n) id m m' h o = elim (Bool-cases (elem id m.visited)) [
    | inl done ↦
        let e : m ≡ m' = ground arith in
        rw (← e) (record { ordered = o; reached = done; grown = λ d k. k })
    | inr new ↦ elim (Bool-cases (elem id m.visiting)) [
      | inl cycle ↦ ground arith
      | inr fresh ↦ elim (Option-cases (get id selected)) [
        | inl absent ↦ ground arith
        | inr (config, present) ↦
            let (done, inner, rest) =
              >>=-eq-ok (visit_each (visit n selected) selected config.dependencies (entered id m))
                _ (rw (new, fresh, present, visit) at h) in
            let r =
              visit_each-Visited (visit n selected) (visit-Visited n) config.dependencies
                (entered id m) done inner o in
            let e : left id done ≡ m' = cc in
            subst (Visited id m) e (left-Visited id config m done present r)
      ]
    ]
  ]

  visit_all-Visited :
      (n : ℕ) (ids : List Text) (m m' : Marks)
      → visit_all n selected ids m ≡ ok m'
      → IsOrdered m.visited
      → IsOrdered m'.visited
        × All (λ id. elem id m'.visited ≡ true) ids
        × ((d : Text) → elem d m.visited ≡ true → elem d m'.visited ≡ true)
  unfolding visit_all
  visit_all-Visited n [] m m' h o = let e : m ≡ m' = cc in rw (← e) (o, tt, λ d k. k)
  visit_all-Visited n (id ∷ ids) m m' h o =
      let (mid, first, rest) = >>=-eq-ok (visit n selected id m) _ h in
      let a = visit-Visited n id m mid first o in
      let (ordered, reached, grown) = visit_all-Visited n ids mid m' rest a.ordered in
      (ordered, (grown id a.reached, reached), λ d k. grown d (a.grown d k))

  pub any_undeployed-All :
      (deployed ids : List Text)
      → any_undeployed deployed ids ≡ false
      → All (λ d. elem d deployed ≡ true) ids
  any_undeployed-All deployed [] h = tt
  any_undeployed-All deployed (id ∷ ids) h = elim (Bool-cases (elem id deployed)) [
    | inl there ↦ (there, any_undeployed-All deployed ids (rw there at h))
    | inr absent ↦ ground arith
  ]

-- The order is one of the dict's entries, wherever these stand.
pub IsOrdered-same :
    (s t : Dict Text OrchestrationPolicy) (order : List Text)
    → ((d : Text) → get d s ≡ get d t)
    → IsOrdered s order
    → IsOrdered t order
IsOrdered-same s t [] same o = tt
IsOrdered-same s t (id ∷ before) same (here, rest) =
    let settled =
      All-map (Settled s before) (Settled t before) (dependencies_of s id)
        (λ d k. elim k [ inl absent ↦ inl (sym (same d) ∙ absent) | inr there ↦ inr there ]) here in
    (
      subst
          (λ found.
            All (Settled t before) (elim found [ none ↦ [] | some config ↦ config.dependencies ]))
          (same id) settled,
      IsOrdered-same s t before same rest,
    )

pub check_deployed-All :
    (deployed : List Text) (selected : Dict Text OrchestrationPolicy) (id : Text)
    (config : OrchestrationPolicy)
    → check_deployed deployed selected ≡ ok tt
    → get id selected ≡ some config
    → (any_undeployed deployed config.dependencies ≡ false)
      × (elem id (dataset_ids selected) ≡ true)
unfolding check_deployed get
check_deployed-All deployed [] id config h g = cc
check_deployed-All deployed ((i, c) ∷ selected) id config h g =
    let rest = check_deployed-All deployed selected id config in
    ground (arith, Bool-cases (any_undeployed deployed c.dependencies), rest)

-- A dependency graph that validation accepts is acyclic and closed: the visits are in an order, the
-- newest first, in which every dependency of a dataset that is itself selected comes before that
-- dataset; each selected dataset is in the order; and each of its dependencies is deployed.
pub validated_order :
    (selected : Dict Text OrchestrationPolicy) (deployed : List Text) (m : Marks)
    → validate_dependency_graph selected deployed ≡ ok m
    → IsOrdered selected m.visited
      × ((id : Text) (config : OrchestrationPolicy)
          → get id selected ≡ some config
          → (elem id m.visited ≡ true) × All (λ d. elem d deployed ≡ true) config.dependencies)
unfolding validate_dependency_graph
validated_order selected deployed m h =
    let (u, checked, visits) = >>=-eq-ok (check_deployed deployed selected) _ h in
    let ids = sort_by (λ id. id) (dataset_ids selected) in
    let (ordered, reached, grown) =
      visit_all-Visited selected (suc (length selected)) ids no_marks m visits tt in
    (
      ordered,
      λ id config present.
          let (deps, named) = check_deployed-All deployed selected id config checked present in
          let sorted : elem id ids ≡ true =
            elem-sort_with (by_text (λ i. i)) id (dataset_ids selected) ∙ named in
          (
            All-elem (λ i. elem i m.visited ≡ true) id ids reached sorted,
            any_undeployed-All selected deployed config.dependencies deps,
          ),
    )
