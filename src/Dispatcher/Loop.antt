-- ===== src/Dispatcher/Loop.antt =====
-- The loop of dispatch_datasets_with_backend in orchestration/dispatcher.py.
use fabric_data_framework.Prelude.{
  ℕ, zero, suc, Bool, not, ◌||◌, some, List, [], ◌∷◌, ◌++◌, map, if◌then◌else◌, list_eq, nat_eq,
  Text, text, any, elem, keep, false, Result, ok, raise, ◌>>=◌,
}
use fabric_data_framework.Prelude.Dict.{put}
use fabric_data_framework.Prelude.Sort.{sort_by}
use fabric_data_framework.Planner.Config.{
  DatasetStatus, PlannerError, DatasetDispatchOutcome, DispatchPlan,
}
use fabric_data_framework.Planner.Schedule.{
  Outcomes, effective_for, blocking_dependencies, ready_dataset_ids,
}
use fabric_data_framework.Recovery.Contract.{DatasetRunAudit}
use fabric_data_framework.Dispatcher.Contract.{
  planning, no_progress, invalid_ready_wave_result, out_of_fuel, backend_ready_wave_error,
  repository_error, Environment, record_dataset_run, execute_wave, Run, before, stopped, join,
}

-- `remaining` and `outcomes`
pub record Progress : Type 0 where
  pub remaining : List Text
  pub outcomes : Outcomes

-- `if blockers: newly_blocked.append((dataset_id, blockers))`
abbrev pub add_blocked : Text → List Text → List (Text × List Text) → List (Text × List Text)
add_blocked id [] rest = rest
add_blocked id (b ∷ bs) rest = (id, b ∷ bs) ∷ rest

unfoldable pub newly_blocked :
    DispatchPlan → Outcomes → List Text → Result PlannerError (List (Text × List Text))
newly_blocked plan outcomes [] = ok []
newly_blocked plan outcomes (id ∷ ids) = do
  blockers ← blocking_dependencies plan id outcomes
  rest ← newly_blocked plan outcomes ids
  ok (add_blocked id blockers rest)

-- `outcomes.update(wave_outcomes)`
unfoldable pub update : Outcomes → Outcomes → Outcomes
update outcomes [] = outcomes
update outcomes ((id, o) ∷ wave) = update (put id o outcomes) wave

-- `remaining.remove(dataset_id)`
abbrev pub drop : Text → List Text → List Text
drop id remaining = keep (λ x. not (elem x (id ∷ []))) remaining

-- `remaining.difference_update(wave_outcomes)`
abbrev pub drop_all : Outcomes → List Text → List Text
drop_all wave remaining = keep (λ x. not (elem x (map (λ entry. entry.0) wave))) remaining

-- `unexpected or missing`
abbrev pub invalid_wave : List Text → Outcomes → Bool
invalid_wave ready wave =
    any (λ entry. not (elem entry.0 ready)) wave
    || any (λ id. not (elem id (map (λ entry. entry.0) wave))) ready

abbrev pub outcome_of_block : DatasetRunAudit → DatasetDispatchOutcome
outcome_of_block a = record {
  dataset_run_id = a.dataset_run_id;
  status = DatasetStatus.blocked;
  retryable = some false;
  error_code = some (text "BLOCKED_DEPENDENCY");
  error_message = a.error_message;
}

module _ (env : Environment) (plan : DispatchPlan) where
  abbrev pub blocked_audit : Text → List Text → DatasetRunAudit
  blocked_audit id blockers = record {
    dataset_run_id = env.uuid4 id;
    pipeline_run_id = env.pipeline_run_id;
    dataset_id = id;
    attempt = 1;
    run_mode = env.run_mode;
    status = DatasetStatus.blocked;
    effective_config_hash = env.config_hash id;
    error_code = some (text "BLOCKED_DEPENDENCY");
    error_message =
        some
          (env.sanitize_audit_text (text "blocked by dependencies: " ++ join (text ",") blockers));
    retryable = some false;
  }

  abbrev pub blocked : Text → List Text → Progress → Progress
  blocked id blockers p = record {
    remaining = drop id p.remaining;
    outcomes = put id (outcome_of_block (blocked_audit id blockers)) p.outcomes;
  }

  -- The loop over `newly_blocked`, with `_record_blocked_dataset`.
  unfoldable pub block_each : List (Text × List Text) → Progress → (Progress → Run) → Run
  block_each [] p next = next p
  block_each ((id, blockers) ∷ rest) p next = elim (effective_for plan id) [
    | raise e ↦ stopped (planning e)
    | ok config ↦ elim (env.persist_dataset (blocked_audit id blockers)) [
      | raise e ↦ stopped (repository_error e)
      | ok _ ↦
          before (record_dataset_run (blocked_audit id blockers))
            (block_each rest (blocked id blockers p) next)
    ]
  ]

  abbrev pub advanced : Outcomes → Progress → Progress
  advanced wave p = record {
    remaining = drop_all wave p.remaining;
    outcomes = update p.outcomes wave;
  }

  -- The reply of the backend.
  unfoldable pub take_wave : List Text → Progress → (Progress → Run) → Run
  take_wave ready p again = elim (env.execute_ready_wave ready) [
    | raise e ↦ before (execute_wave ready (raise e)) (stopped (backend_ready_wave_error e))
    | ok wave ↦ before (execute_wave ready (ok wave)) (
        if invalid_wave ready wave
        then stopped invalid_ready_wave_result
        else again (advanced wave p))
  ]

  unfoldable pub run_ready : List Text → Progress → (Progress → Run) → (Progress → Run) → Run
  run_ready [] p again finish = elim p.remaining [ [] ↦ finish p | _ ∷ _ ↦ stopped no_progress ]
  run_ready (id ∷ ids) p again finish = take_wave (id ∷ ids) p again

  -- After the blocked datasets of a turn.
  unfoldable pub select_ready : (Progress → Run) → (Progress → Run) → Progress → Run
  select_ready again finish p = elim (ready_dataset_ids plan p.remaining p.outcomes) [
    | raise e ↦ stopped (planning e)
    | ok ready ↦ run_ready ready p again finish
  ]

  unfoldable pub turn : Progress → (Progress → Run) → (Progress → Run) → Run
  turn p again finish = elim (newly_blocked plan p.outcomes (sort_by (λ id. id) p.remaining)) [
    | raise e ↦ stopped (planning e)
    | ok items ↦ block_each items p (select_ready again finish)
  ]

  -- `while remaining`
  unfoldable pub dispatch_loop : ℕ → Progress → (Progress → Run) → Run
  dispatch_loop zero p finish = elim p.remaining [ [] ↦ finish p | _ ∷ _ ↦ stopped out_of_fuel ]
  dispatch_loop (suc n) p finish = elim p.remaining [
    | [] ↦ finish p
    | _ ∷ _ ↦ turn p (λ q. dispatch_loop n q finish) finish
  ]
