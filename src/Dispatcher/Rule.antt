-- ===== src/Dispatcher/Rule.antt =====
-- A rule for the loop of the dispatcher: what holds of every end and is kept by every call holds of
-- the whole loop, which never runs out of its fuel.
use fabric_data_framework.Prelude.{
  ℕ, zero, suc, ◌≤◌, ◌≡◌, ◌≢◌, ap, ◌∙◌, Bool, true, false, not, ◌||◌, any, inl, inr, Bool-cases,
  List-cases, List, [], ◌∷◌, map, list_eq, nat_eq, Text, length, length-keep, length-keep-fewer,
  All, elem, Result-cases, ok, raise, >>=-eq-ok, arith,
}
use fabric_data_framework.Prelude.Sort.{sort_by}
use fabric_data_framework.Planner.Config.{DispatchPlan}
use fabric_data_framework.Planner.Schedule.{
  Outcomes, effective_for, is_ready, ready_among, ready_dataset_ids,
}
use fabric_data_framework.Recovery.Contract.{PyException}
use fabric_data_framework.Dispatcher.Contract.{
  DispatchError, out_of_fuel, Environment, record_dataset_run, execute_wave, Run, before, stopped,
}
use fabric_data_framework.Dispatcher.Loop.{
  Progress, newly_blocked, invalid_wave, blocked_audit, blocked, block_each, advanced, take_wave,
  run_ready, select_ready, turn, dispatch_loop,
}

abbrev pub IsReadyAt : DispatchPlan → Progress → Text → Type 0
IsReadyAt plan p id = is_ready plan p.remaining p.outcomes id ≡ ok true

module _ (plan : DispatchPlan) (p : Progress) where
  ready_among-IsReadyAt :
      (ids ready : List Text)
      → ready_among plan p.remaining p.outcomes ids ≡ ok ready
      → All (IsReadyAt plan p) ready
  unfolding ready_among
  ready_among-IsReadyAt [] ready h = let e : [] ≡ ready = ground arith in rw (← e) tt
  ready_among-IsReadyAt (id ∷ ids) ready h =
      let (b, first, h1) = >>=-eq-ok (is_ready plan p.remaining p.outcomes id) _ h in
      let (rest, others, h2) = >>=-eq-ok (ready_among plan p.remaining p.outcomes ids) _ h1 in
      let known = ready_among-IsReadyAt ids rest others in
      elim (Bool-cases b) [
        | inl yes_ready ↦
            let e : id ∷ rest ≡ ready = ground arith in rw (← e) (first ∙ ap ok yes_ready, known)
        | inr not_ready ↦ let e : rest ≡ ready = ground arith in rw (← e) known
      ]

  IsReadyAt-remaining : (id : Text) → IsReadyAt plan p id → elem id p.remaining ≡ true
  unfolding is_ready
  IsReadyAt-remaining id h = ground (arith, Bool-cases (elem id p.remaining))

second_false : (a b : Bool) → (a || b) ≡ false → b ≡ false
second_false a b h = ground arith

-- A dataset of a wave whose reply is valid is in the reply.
replied :
    (ids : List Text) (wave : Outcomes) (id : Text)
    → any (λ x. not (elem x (map (λ entry. entry.0) wave))) (id ∷ ids) ≡ false
    → elem id (map (λ entry. entry.0) wave) ≡ true
replied ids wave id h = ground (arith, Bool-cases (elem id (map (λ entry. entry.0) wave)))

module _ (env : Environment) (plan : DispatchPlan) (finish : Progress → Run)
    (P : Progress → Run → Type 0)
    (at_stop : (p : Progress) (e : DispatchError) → e ≢ out_of_fuel → P p (stopped e))
    (at_finish : (p : Progress) → P p (finish p))
    (at_block : (p : Progress) (id : Text) (blockers : List Text) (r : Run)
      → P (blocked env plan id blockers p) r
      → P p (before (record_dataset_run (blocked_audit env plan id blockers)) r))
    (at_wave : (p : Progress) (ready : List Text) (wave : Outcomes) (r : Run)
      → All (IsReadyAt plan p) ready
      → P (advanced env plan wave p) r
      → P p (before (execute_wave ready (ok wave)) r))
    (at_failed : (p : Progress) (ready : List Text) (e : PyException) (r : Run)
      → All (IsReadyAt plan p) ready
      → P p r
      → P p (before (execute_wave ready (raise e)) r)) where
  block_each-rule :
      (items : List (Text × List Text)) (p : Progress) (next : Progress → Run)
      → ((q : Progress) → length q.remaining ≤ length p.remaining → P q (next q))
      → P p (block_each env plan items p next)
  unfolding block_each
  block_each-rule [] p next k = k p (omega arith)
  block_each-rule ((id, blockers) ∷ rest) p next k = elim (Result-cases (effective_for plan id)) [
    | inr (e, bad) ↦ rw (bad, block_each) (at_stop p _ (λ h. cc))
    | inl (config, found) ↦
        elim (Result-cases (env.persist_dataset (blocked_audit env plan id blockers))) [
          | inr (e, bad) ↦ rw (found, block_each, bad) (at_stop p _ (λ h. cc))
          | inl (u, stored) ↦
              rw (found, block_each, stored)
                (at_block p id blockers _ (
                  block_each-rule rest (blocked env plan id blockers p) next (λ q l. k q (
                    let fewer = length-keep (λ x. not (elem x (id ∷ []))) p.remaining in
                    omega (arith, l, fewer)))))
        ]
  ]

  module _ (n : ℕ) (again : Progress → Run)
      (ih : (q : Progress) → length q.remaining ≤ n → P q (again q)) where
    take_wave-rule :
        (id : Text) (ids : List Text) (p : Progress)
        → length p.remaining ≤ suc n
        → All (IsReadyAt plan p) (id ∷ ids)
        → P p (take_wave env plan (id ∷ ids) p again)
    unfolding take_wave
    take_wave-rule id ids p l ready = elim (Result-cases (env.execute_ready_wave (id ∷ ids))) [
      | inr (e, bad) ↦
          rw (bad, take_wave) (at_failed p (id ∷ ids) e _ ready (at_stop p _ (λ h. cc)))
      | inl (wave, reply) ↦ elim (Bool-cases (invalid_wave (id ∷ ids) wave)) [
        | inl invalid ↦
            rw (reply, take_wave, invalid)
              (at_wave p (id ∷ ids) wave _ ready (at_stop _ _ (λ h. cc)))
        | inr valid ↦
            rw (reply, take_wave, valid)
              (at_wave p (id ∷ ids) wave _ ready (
                ih _ (
                  let there = replied ids wave id (
                    second_false (any (λ entry. not (elem entry.0 (id ∷ ids))) wave)
                      (any (λ x. not (elem x (map (λ entry. entry.0) wave))) (id ∷ ids)) valid) in
                  let fewer =
                    length-keep-fewer (λ x. not (elem x (map (λ entry. entry.0) wave))) id
                      p.remaining (IsReadyAt-remaining plan p id ready.0) (ap not there) in
                  omega (arith, l, fewer))))
      ]
    ]

    run_ready-rule :
        (ready : List Text) (p : Progress)
        → length p.remaining ≤ suc n
        → All (IsReadyAt plan p) ready
        → P p (run_ready env plan ready p again finish)
    unfolding run_ready
    run_ready-rule [] p l h = elim (List-cases p.remaining) [
      | inl e ↦ simp (e, run_ready) (at_finish p)
      | inr (x, xs, e) ↦ simp (e, run_ready) (at_stop p _ (λ h. cc))
    ]
    run_ready-rule (id ∷ ids) p l h = take_wave-rule id ids p l h

    select_ready-rule :
        (p : Progress) → length p.remaining ≤ suc n → P p (select_ready env plan again finish p)
    unfolding select_ready ready_dataset_ids
    select_ready-rule p l = elim (Result-cases (ready_dataset_ids plan p.remaining p.outcomes)) [
      | inr (e, bad) ↦ rw (bad, select_ready) (at_stop p _ (λ h. cc))
      | inl (ready, chosen) ↦
          rw (chosen, select_ready)
            (run_ready-rule ready p l
              (ready_among-IsReadyAt plan p plan.selected_dataset_ids ready chosen))
    ]

    turn-rule : (p : Progress) → length p.remaining ≤ suc n → P p (turn env plan p again finish)
    unfolding turn
    turn-rule p l =
        elim (Result-cases (newly_blocked plan p.outcomes (sort_by (λ id. id) p.remaining))) [
          | inr (e, bad) ↦ rw (bad, turn) (at_stop p _ (λ h. cc))
          | inl (items, found) ↦
              rw (found, turn)
                (block_each-rule items p (select_ready env plan again finish)
                  (λ q m. select_ready-rule q (omega (arith, l, m))))
        ]

  pub dispatch_loop-rule :
      (n : ℕ) (p : Progress) → length p.remaining ≤ n → P p (dispatch_loop env plan n p finish)
  unfolding dispatch_loop
  dispatch_loop-rule zero p l = elim (List-cases p.remaining) [
    | inl e ↦ simp (e, dispatch_loop) (at_finish p)
    | inr (x, xs, e) ↦ absurd (omega (arith, l, ap length e))
  ]
  dispatch_loop-rule (suc n) p l = elim (List-cases p.remaining) [
    | inl e ↦ simp (e, dispatch_loop) (at_finish p)
    | inr (x, xs, e) ↦
        simp (e, dispatch_loop)
          (turn-rule n (λ q. dispatch_loop env plan n q finish) (dispatch_loop-rule n) p l)
  ]
