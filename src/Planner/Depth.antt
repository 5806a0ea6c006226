-- ===== src/Planner/Depth.antt =====
-- The recursion of `_validate_dependency_graph` in orchestration/planner.py ends: the fuel that the
-- model gives it is never used up.
use fabric_data_framework.Prelude.{
  ℕ, zero, suc, ◌<◌, ◌≤◌, ◌≡◌, ◌≢◌, refl, subst, sym, ◌∙◌, ap, inl, inr, false, some, List, [], ◌∷◌,
  if◌then◌else◌, ◌==◌, ==_iff, ==_refl, list_eq, nat_eq, Text, length, elem, Bool-cases,
  Option-cases, Result, ok, raise, ◌>>=◌, ◌>>◌, arith,
}
use fabric_data_framework.Prelude.Dict.{Dict, get}
use fabric_data_framework.Prelude.Sort.{sort_by}
use fabric_data_framework.Planner.Config.{OrchestrationPolicy, PlannerError, out_of_fuel}
use fabric_data_framework.Planner.Graph.{
  Marks, discard, visit_each, entered, left, visit, visit_all, check_deployed, no_marks,
  dataset_ids, any_undeployed, validate_dependency_graph,
}

-- The selected datasets that are not being visited.
abbrev pub free : List Text → Dict Text OrchestrationPolicy → ℕ
free visiting [] = 0
free visiting ((id, config) ∷ selected) =
    if elem id visiting then free visiting selected else suc (free visiting selected)

pub free-≤ :
    (visiting : List Text) (selected : Dict Text OrchestrationPolicy)
    → free visiting selected ≤ length selected
free-≤ visiting [] = omega arith
free-≤ visiting ((id, config) ∷ selected) = ground (arith, free-≤ visiting selected)

free-fewer :
    (id : Text) (visiting : List Text) (selected : Dict Text OrchestrationPolicy)
    → free (id ∷ visiting) selected ≤ free visiting selected
free-fewer id visiting [] = omega arith
free-fewer id visiting ((i, config) ∷ selected) = ground (arith, free-fewer id visiting selected)

pub free-entered :
    (id : Text) (config : OrchestrationPolicy) (visiting : List Text)
    (selected : Dict Text OrchestrationPolicy)
    → get id selected ≡ some config
    → elem id visiting ≡ false
    → free (id ∷ visiting) selected < free visiting selected
unfolding get
free-entered id config visiting [] g f = cc
free-entered id config visiting ((i, c) ∷ selected) g f = elim (Bool-cases (i == id)) [
  | inl same ↦
      let e : i ≡ id = (==_iff i id).0 same in
      rw (e, ==_refl id, f) (omega (arith, free-fewer id visiting selected))
  | inr other ↦
      ground (
        arith,
        ==_iff i id,
        ==_iff id i,
        free-entered id config visiting selected (rw other at g) f,
      )
]

discard_absent : (id : Text) (ids : List Text) → elem id ids ≡ false → discard id ids ≡ ids
unfolding discard
discard_absent id [] h = refl
discard_absent id (x ∷ ids) h = ground (arith, discard_absent id ids)

discard_entered : (id : Text) (ids : List Text) → elem id ids ≡ false → discard id (id ∷ ids) ≡ ids
unfolding discard
discard_entered id ids h = rw (==_refl id) (discard_absent id ids h)

module _ (selected : Dict Text OrchestrationPolicy) where
  -- A step does not run out of fuel, and it leaves `visiting` as it found it.
  record Deep (visiting : List Text) (r : Result PlannerError Marks) : Type 0 where
    enough : r ≢ raise out_of_fuel
    restored : (m' : Marks) → r ≡ ok m' → m'.visiting ≡ visiting

  bind-Deep :
      (outer inner : List Text) (r : Result PlannerError Marks)
      (next : Marks → Result PlannerError Marks)
      → Deep inner r
      → ((mid : Marks) → mid.visiting ≡ inner → Deep outer (next mid))
      → Deep outer (r >>= next)
  bind-Deep outer inner (ok mid) next d then_deep = then_deep mid (d.restored mid refl)
  bind-Deep outer inner (raise e) next d then_deep = record {
    enough = λ k. d.enough (ground arith);
    restored = λ m' k. cc;
  }

  visit_each-Deep :
      (step : Text → Marks → Result PlannerError Marks) (visiting : List Text)
      → ((id : Text) (m : Marks) → m.visiting ≡ visiting → Deep visiting (step id m))
      → (ids : List Text) (m : Marks) → m.visiting ≡ visiting
      → Deep visiting (visit_each step selected ids m)
  unfolding visit_each
  visit_each-Deep step visiting deep [] m v = record {
    enough = λ e. cc;
    restored = λ m' e. ground arith;
  }
  visit_each-Deep step visiting deep (id ∷ ids) m v = elim (Option-cases (get id selected)) [
    | inl absent ↦ rw (absent, visit_each) (visit_each-Deep step visiting deep ids m v)
    | inr (config, present) ↦
        rw (present, visit_each)
          (bind-Deep visiting visiting (step id m) _ (deep id m v)
            (λ mid w. visit_each-Deep step visiting deep ids mid w))
  ]

  left-Deep :
      (id : Text) (m done : Marks)
      → elem id m.visiting ≡ false
      → done.visiting ≡ id ∷ m.visiting
      → Deep m.visiting (ok (left id done))
  left-Deep id m done fresh v = record {
    enough = λ e. cc;
    restored = λ m' e.
        let same : discard id done.visiting ≡ m'.visiting = ground arith in
        sym same ∙ ap (discard id) v ∙ discard_entered id m.visiting fresh;
  }

  visit-Deep :
      (n : ℕ) (id : Text) (m : Marks)
      → free m.visiting selected < n
      → Deep m.visiting (visit n selected id m)
  unfolding visit
  visit-Deep zero id m f = record { enough = λ e. omega arith; restored = λ m' e. cc }
  visit-Deep (suc n) id m f = elim (Bool-cases (elem id m.visited)) [
    | inl done ↦ rw (done, visit) (record { enough = λ e. cc; restored = λ m' e. ground arith })
    | inr new ↦ elim (Bool-cases (elem id m.visiting)) [
      | inl cycle ↦ rw (new, cycle, visit) (record { enough = λ e. cc; restored = λ m' e. cc })
      | inr fresh ↦ elim (Option-cases (get id selected)) [
        | inl absent ↦
            rw (new, fresh, absent, visit) (record { enough = λ e. cc; restored = λ m' e. cc })
        | inr (config, present) ↦
            let fewer = free-entered id config m.visiting selected present fresh in
            rw (new, fresh, present, visit)
              (bind-Deep m.visiting (id ∷ m.visiting) _ _
                (visit_each-Deep (visit n selected) (id ∷ m.visiting)
                  (λ d mid v.
                    subst (λ x. Deep x (visit n selected d mid)) v
                      (visit-Deep n d mid (rw v (omega (arith, fewer, f)))))
                  config.dependencies (entered id m) refl)
                (λ done v. left-Deep id m done fresh v))
      ]
    ]
  ]

  visit_all-Deep :
      (ids : List Text) (m : Marks)
      → m.visiting ≡ []
      → Deep [] (visit_all (suc (length selected)) selected ids m)
  unfolding visit_all
  visit_all-Deep [] m v = record { enough = λ e. cc; restored = λ m' e. ground arith }
  visit_all-Deep (id ∷ ids) m v =
      bind-Deep [] [] (visit (suc (length selected)) selected id m) _
        (subst (λ x. Deep x (visit (suc (length selected)) selected id m)) v
          (visit-Deep (suc (length selected)) id m (omega (arith, free-≤ m.visiting selected))))
        (λ mid w. visit_all-Deep ids mid w)

  pub check_deployed-enough :
      (deployed : List Text) (items : Dict Text OrchestrationPolicy)
      → check_deployed deployed items ≢ raise out_of_fuel
  unfolding check_deployed
  check_deployed-enough deployed [] e = cc
  check_deployed-enough deployed ((id, config) ∷ items) e =
      elim (Bool-cases (any_undeployed deployed config.dependencies)) [
        | inl missing ↦ ground arith
        | inr fine ↦ check_deployed-enough deployed items (ground arith)
      ]

-- The search for cycles ends: whatever the dependencies are, cyclic ones included, the depth of its
-- recursion stays below the number of the selected datasets and one, so that the validation never
-- runs out of fuel.
pub validation_terminates :
    (selected : Dict Text OrchestrationPolicy) (deployed : List Text)
    → validate_dependency_graph selected deployed ≢ raise out_of_fuel
unfolding validate_dependency_graph
validation_terminates selected deployed h =
    after (check_deployed deployed selected) (check_deployed-enough selected deployed selected) h
  where
    after :
        (r : Result PlannerError Unit)
        → r ≢ raise out_of_fuel
        → (r
            >> visit_all
                (suc (length selected))
                selected
                (sort_by (λ id. id) (dataset_ids selected))
                no_marks)
          ≢ raise out_of_fuel
    after (ok u) n k =
        (visit_all-Deep selected (sort_by (λ id. id) (dataset_ids selected)) no_marks refl).enough k
    after (raise e) n k = n (ground arith)
