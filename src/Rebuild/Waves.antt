-- ===== src/Rebuild/Waves.antt =====
-- What the waves of _build_waves are, and that its loop ends.
use fabric_data_framework.Prelude.{
  ℕ, zero, suc, ◌≤◌, ◌<◌, ◌≡◌, ◌≢◌, refl, subst, ◌&&◌, ◌∙◌, ap, sym, Bool, true, not, ◌||◌, inl,
  inr, Bool-cases, some, Option-cases, List, [], ◌∷◌, ◌++◌, list_eq, nat_eq, ==_refl, Text, length,
  all, All, All-map, elem, elem-append, elem-keep, length-keep-fewer, Result, ok, raise, >>=-eq-ok,
  >>=-ne-raise, arith,
}
use fabric_data_framework.Prelude.Dict.{get}
use fabric_data_framework.Prelude.Sort.{sort_by, elem-sort_with, sort_with-All, by_text}
use fabric_data_framework.Planner.Config.{OrchestrationPolicy, out_of_fuel}
use fabric_data_framework.Rebuild.Graph.{Graph, RebuildImpactError, graph_error}
use fabric_data_framework.Rebuild.Impact.{is_ready, ready_among, without, wave, build_waves}
use fabric_data_framework.Rebuild.Build.{flatten}

wave-eq-ok :
    (ready : List Text) (rest : List Text → Result RebuildImpactError (List (List Text)))
    (waves : List (List Text))
    → wave ready rest ≡ ok waves
    → (x : Text) × (xs : List Text) × (tail : List (List Text)) × (ready ≡ x ∷ xs)
      × (rest (x ∷ xs) ≡ ok tail)
      × (waves ≡ (x ∷ xs) ∷ tail)
unfolding wave
wave-eq-ok [] rest waves h = cc
wave-eq-ok (x ∷ xs) rest waves h =
    let (tail, e, k) = >>=-eq-ok (rest (x ∷ xs)) _ h in (x, xs, tail, refl, e, ground (arith, k))

wave-enough :
    (ready : List Text) (rest : List Text → Result RebuildImpactError (List (List Text)))
    (e : RebuildImpactError)
    → e ≡ graph_error out_of_fuel
    → ((x : Text) (xs : List Text) → ready ≡ x ∷ xs → rest (x ∷ xs) ≢ raise e)
    → wave ready rest ≢ raise e
unfolding wave
wave-enough [] rest e f k h = cc
wave-enough (x ∷ xs) rest e f k h =
    >>=-ne-raise (rest (x ∷ xs)) _ e (k x xs refl) (λ ws _ bad. cc) h

length-without :
    (ids remaining : List Text) (x : Text)
    → elem x remaining ≡ true
    → elem x ids ≡ true
    → length (without ids remaining) < length remaining
unfolding without
length-without ids remaining x h k =
    length-keep-fewer (λ id. not (elem id ids)) x remaining h (ground arith)

-- The predicate of a test that all elements pass.
all-All : (p : Text → Bool) (xs : List Text) → all p xs ≡ true → All (λ x. p x ≡ true) xs
all-All p [] h = tt
all-All p (x ∷ xs) h =
    (ground (arith, Bool-cases (p x)), all-All p xs (ground (arith, Bool-cases (p x))))

absorbed : (a b : Bool) → (a ≡ true → b ≡ true) → (a || (b && not a)) ≡ b
absorbed a b h = ground arith

module _ (graph : Graph) (affected : List Text) where
  -- The affected dependencies of the dataset are all in `done`.
  pub record MayRebuild (done : List Text) (id : Text) : Type 0 where
    pub config : OrchestrationPolicy
    pub deployed : get id graph ≡ some config
    pub rebuilt : All (λ d. elem d affected ≡ true → elem d done ≡ true) config.dependencies

  -- Each wave needs only what the waves before it and `done` hold.
  abbrev pub IsScheduled : List Text → List (List Text) → Type 0
  IsScheduled done [] = Unit
  IsScheduled done (ids ∷ waves) = All (MayRebuild done) ids × IsScheduled (ids ++ done) waves

  is_ready-MayRebuild :
      (done : List Text) (id : Text)
      → is_ready graph affected done id ≡ ok true
      → MayRebuild done id
  unfolding is_ready
  is_ready-MayRebuild done id h = elim (Option-cases (get id graph)) [
    | inl absent ↦ ground arith
    | inr (c, here) ↦
        let test = λ (d : Text). not (elem d affected) || elem d done in
        let passes : all test c.dependencies ≡ true = ground arith in
        record {
          config = c;
          deployed = here;
          rebuilt =
              All-map _ _ c.dependencies (λ d t m. ground arith)
                (all-All test c.dependencies passes);
        }
  ]

  is_ready-enough :
      (done : List Text) (id : Text)
      → is_ready graph affected done id ≢ raise (graph_error out_of_fuel)
  unfolding is_ready
  is_ready-enough done id h = elim (Option-cases (get id graph)) [
    | inl absent ↦ ground arith
    | inr (c, here) ↦ ground arith
  ]

  ready_among-ok :
      (done ids ready : List Text)
      → ready_among graph affected done ids ≡ ok ready
      → All (MayRebuild done) ready × ((x : Text) → elem x ready ≡ true → elem x ids ≡ true)
  unfolding ready_among
  ready_among-ok done [] ready h = let e : [] ≡ ready = cc in rw (← e) (tt, λ x m. m)
  ready_among-ok done (id ∷ ids) ready h =
      let (r, first, k) = >>=-eq-ok (is_ready graph affected done id) _ h in
      let (others, second, k2) = >>=-eq-ok (ready_among graph affected done ids) _ k in
      let (may, known) = ready_among-ok done ids others second in
      elim (Bool-cases r) [
        | inl yes_ready ↦
            let same : id ∷ others ≡ ready = ground arith in
            let chosen : is_ready graph affected done id ≡ ok true = first ∙ ap ok yes_ready in
            rw (← same) ((is_ready-MayRebuild done id chosen, may), λ x m. ground (arith, known x))
        | inr not_ready ↦
            let same : others ≡ ready = ground arith in
            rw (← same) (may, λ x m. ground (arith, known x))
      ]

  ready_among-enough :
      (done ids : List Text) → ready_among graph affected done ids ≢ raise (graph_error out_of_fuel)
  unfolding ready_among
  ready_among-enough done [] h = cc
  ready_among-enough done (id ∷ ids) h =
      >>=-ne-raise (is_ready graph affected done id) _ _ (is_ready-enough done id)
        (λ r _.
          >>=-ne-raise (ready_among graph affected done ids) _ _ (ready_among-enough done ids)
            (λ rest _ k. cc))
        h

  turn-ok :
      (remaining done ready : List Text) (w : Text) (ws : List Text) (tail : List (List Text))
      → All (MayRebuild done) ready
      → ((x : Text) → elem x ready ≡ true → elem x remaining ≡ true)
      → sort_by (λ x. x) ready ≡ w ∷ ws
      → IsScheduled ((w ∷ ws) ++ done) tail
      → ((x : Text) → elem x (flatten tail) ≡ elem x (without (w ∷ ws) remaining))
      → IsScheduled done ((w ∷ ws) ∷ tail)
        × ((x : Text) → elem x (flatten ((w ∷ ws) ∷ tail)) ≡ elem x remaining)
  unfolding without
  turn-ok remaining done ready w ws tail may known sorted scheduled covers =
      let in_wave : (x : Text) → elem x (w ∷ ws) ≡ elem x ready =
        λ x. ap (λ xs. elem x xs) (sym sorted) ∙ elem-sort_with (by_text (λ i. i)) x ready in
      (
        (
          subst (λ xs. All (MayRebuild done) xs) sorted
              (sort_with-All (by_text (λ x. x)) (MayRebuild done) ready may),
          scheduled,
        ),
        λ x.
            elem-append x (w ∷ ws) (flatten tail)
            ∙ ap (λ b. elem x (w ∷ ws) || b) (covers x)
            ∙ ap (λ b. elem x (w ∷ ws) || b) (elem-keep (λ i. not (elem i (w ∷ ws))) x remaining)
            ∙ absorbed (elem x (w ∷ ws)) (elem x remaining) (λ m. known x (sym (in_wave x) ∙ m)),
      )

  pub build_waves-ok :
      (n : ℕ) (remaining done : List Text) (waves : List (List Text))
      → build_waves n graph affected remaining done ≡ ok waves
      → IsScheduled done waves × ((x : Text) → elem x (flatten waves) ≡ elem x remaining)
  unfolding build_waves
  build_waves-ok zero [] done waves h = let e : [] ≡ waves = cc in rw (← e) (tt, λ x. refl)
  build_waves-ok zero (id ∷ ids) done waves h = cc
  build_waves-ok (suc n) [] done waves h = let e : [] ≡ waves = cc in rw (← e) (tt, λ x. refl)
  build_waves-ok (suc n) (id ∷ ids) done waves h =
      let (ready, chosen, k) = >>=-eq-ok (ready_among graph affected done (id ∷ ids)) _ h in
      let (may, known) = ready_among-ok done (id ∷ ids) ready chosen in
      let (w, ws, tail, sorted, rest, all_waves) = wave-eq-ok (sort_by (λ x. x) ready) _ waves k in
      let (scheduled, covers) =
        build_waves-ok n (without (w ∷ ws) (id ∷ ids)) ((w ∷ ws) ++ done) tail rest in
      subst (λ v. IsScheduled done v × ((x : Text) → elem x (flatten v) ≡ elem x (id ∷ ids)))
        (sym all_waves) (turn-ok (id ∷ ids) done ready w ws tail may known sorted scheduled covers)

  -- The loop leaves fewer datasets at each turn.
  pub build_waves-enough :
      (n : ℕ) (remaining done : List Text)
      → length remaining ≤ n
      → build_waves n graph affected remaining done ≢ raise (graph_error out_of_fuel)
  unfolding build_waves
  build_waves-enough zero [] done l h = cc
  build_waves-enough zero (id ∷ ids) done l h = omega (arith, l)
  build_waves-enough (suc n) [] done l h = cc
  build_waves-enough (suc n) (id ∷ ids) done l h =
      >>=-ne-raise (ready_among graph affected done (id ∷ ids)) _ _
        (ready_among-enough done (id ∷ ids))
        (λ ready chosen. wave-enough (sort_by (λ x. x) ready) _ _ refl (λ w ws sorted.
          let (may, known) = ready_among-ok done (id ∷ ids) ready chosen in
          let picked : elem w ready ≡ true =
            sym (elem-sort_with (by_text (λ x. x)) w ready)
            ∙ ap (λ xs. elem w xs) sorted
            ∙ ground (arith, ==_refl w) in
          build_waves-enough n (without (w ∷ ws) (id ∷ ids)) ((w ∷ ws) ++ done) (
            let fewer =
              length-without (w ∷ ws) (id ∷ ids) w (known w picked) (ground (arith, ==_refl w)) in
            omega (arith, fewer))))
        h
