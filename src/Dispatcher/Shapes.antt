-- ===== src/Dispatcher/Shapes.antt =====
-- The shapes of a whole dispatch: it did not start, its loop returned, or its loop raised.
use fabric_data_framework.Prelude.{
  ◌≡◌, ◌≢◌, refl, ap, ◌∙◌, sym, ◌⊎◌, inl, inr, Option, subst, none, Bool, List, [], ◌∷◌, ◌++◌, map,
  Text, Result, Result-cases, ok, raise,
}
use fabric_data_framework.Prelude.Traces.{Last, Last-cons, Last-append, collect-append}
use fabric_data_framework.Planner.Config.{
  PipelineStatus, PipelineFailurePolicy, Criticality, DispatchPlan,
}
use fabric_data_framework.Planner.Schedule.{Outcomes}
use fabric_data_framework.Dispatcher.Contract.{
  PipelineRunAudit, PipelineDispatchResult, DispatchError, planning, no_progress,
  invalid_ready_wave_result, key_error, backend_ready_wave_error, out_of_fuel, finalization_error,
  repository_error, Environment, Effect, record_pipeline_run, record_dataset_run, execute_wave, Run,
  before, stopped, pipeline_audit, record_pipeline,
}
use fabric_data_framework.Dispatcher.Dispatch.{
  failed_audit, record_failure, finalize, dispatch_plan, dispatch_planned, terminal_error_code,
}
use fabric_data_framework.Dispatcher.Ends.{
  pipeline_in, pipeline_audits, IsGuarded, the_loop, loop_ends, loop_audited, loop-IsSafe,
}

-- Calls of a failed dispatch after its loop are audits of the pipeline.
IsGuarded-append :
    (plan : DispatchPlan) (es fs : List Effect) (outcomes : Outcomes)
    → IsGuarded plan outcomes es
    → ((o : Outcomes) → IsGuarded plan o fs)
    → IsGuarded plan outcomes (es ++ fs)
IsGuarded-append plan [] fs outcomes h k = k outcomes
IsGuarded-append plan (record_pipeline_run a ∷ es) fs outcomes h k =
    IsGuarded-append plan es fs _ h k
IsGuarded-append plan (record_dataset_run a ∷ es) fs outcomes h k =
    IsGuarded-append plan es fs _ h k
IsGuarded-append plan (execute_wave ids (ok wave) ∷ es) fs outcomes (g, h) k =
    (g, IsGuarded-append plan es fs _ h k)
IsGuarded-append plan (execute_wave ids (raise e) ∷ es) fs outcomes (g, h) k =
    (g, IsGuarded-append plan es fs _ h k)

-- What `except Exception` adds to a run.
pub data Failure (e : DispatchError) : Run → Type 0 where
  unrecorded : (f : DispatchError) → Failure e (stopped (finalization_error e f))
  recorded :
      (a : PipelineRunAudit)
      → a.status ≡ PipelineStatus.failed
      → Failure e (record { effects = record_pipeline_run a ∷ []; outcome = raise e })

module _ (env : Environment) where
  record_failure-Failure : (code : Text) (e : DispatchError) → Failure e (record_failure env code e)
  unfolding record_failure pipeline_audit
  record_failure-Failure code e =
      elim (Result-cases (env.persist_pipeline (failed_audit env code (env.describe e)))) [
        | inr (f, bad) ↦ rw (bad, record_failure) (unrecorded _)
        | inl (u, stored) ↦ rw (stored, record_failure) (recorded _ refl)
      ]

  finalize-cases :
      (r : Run)
      → (((result : PipelineDispatchResult) × (r.outcome ≡ ok result)) × (finalize env r ≡ r))
        ⊎ ((e : DispatchError) × (f : Run) × (r.outcome ≡ raise e)
            × Failure e f
            × (finalize env r ≡ record { effects = r.effects ++ f.effects; outcome = f.outcome }))
  unfolding finalize
  finalize-cases r = elim (Result-cases r.outcome) [
    | inl (result, e) ↦ inl ((result, e), simp (e, finalize))
    | inr (e, raised) ↦ inr (
      e,
      record_failure env (terminal_error_code e) e,
      raised,
      record_failure-Failure _ e,
      simp (raised, finalize),
    )
  ]

-- The last audit of the pipeline tells how the dispatch ended: with the status of its result, or with
-- FAILED; unless none was recorded, or the failure to record it was raised.
abbrev pub IsAudited : Result DispatchError PipelineDispatchResult → List PipelineRunAudit → Type 0
IsAudited (ok result) audits = Last (λ a. a.status ≡ result.status) audits
IsAudited (raise (finalization_error primary f)) audits = Unit
IsAudited (raise e) audits = (audits ≡ []) ⊎ Last (λ a. a.status ≡ PipelineStatus.failed) audits

-- A result has one outcome for each of the datasets, in their order.
abbrev pub ListsAll : List Text → Result DispatchError PipelineDispatchResult → Type 0
ListsAll ids (ok result) = map (λ entry. entry.0) result.outcomes ≡ ids
ListsAll ids (raise e) = Unit

-- No error of a whole dispatch but that of the finalization goes unrecorded.
pub recorded_end :
    (e : DispatchError) (audits : List PipelineRunAudit)
    → (audits ≡ []) ⊎ Last (λ a. a.status ≡ PipelineStatus.failed) audits
    → IsAudited (raise e) audits
recorded_end (planning e) audits h = h
recorded_end no_progress audits h = h
recorded_end invalid_ready_wave_result audits h = h
recorded_end key_error audits h = h
recorded_end out_of_fuel audits h = h
recorded_end (backend_ready_wave_error e) audits h = h
recorded_end (repository_error e) audits h = h
recorded_end (finalization_error e f) audits h = tt

module _ (env : Environment) (plan : DispatchPlan) (policy : Option PipelineFailurePolicy)
    (required : Criticality → Bool) where
  abbrev pub dispatched : Run
  dispatched = dispatch_planned env (ok plan) policy required

  abbrev pub looped : Run
  looped = the_loop env plan policy required

  dispatched-cases :
      ((e : DispatchError) × (e ≢ out_of_fuel) × (dispatched ≡ stopped e))
      ⊎ ((a : PipelineRunAudit) × (dispatched
            ≡ before (record_pipeline_run a) (finalize env looped)))
  unfolding dispatch_planned dispatch_plan record_pipeline
  dispatched-cases =
      let a = pipeline_audit env PipelineStatus.running none none none in
      elim (Result-cases (env.persist_pipeline a)) [
        | inr (e, bad) ↦ inl (repository_error e, (λ h. cc), rw (bad, record_pipeline) refl)
        | inl (u, stored) ↦ inr (a, rw (stored, record_pipeline) refl)
      ]

  pub data Shape : Run → Type 0 where
    unstarted : (e : DispatchError) → e ≢ out_of_fuel → Shape (stopped e)
    finished :
        (a : PipelineRunAudit) (result : PipelineDispatchResult)
        → looped.outcome ≡ ok result
        → Shape (before (record_pipeline_run a) looped)
    failed :
        (a : PipelineRunAudit) (e : DispatchError) (f : Run)
        → looped.outcome ≡ raise e
        → Failure e f
        → Shape (
            before
              (record_pipeline_run a)
              (record { effects = looped.effects ++ f.effects; outcome = f.outcome }))

  pub dispatched-Shape : Shape dispatched
  dispatched-Shape = elim dispatched-cases [
    | inl (e, n, same) ↦ subst Shape (sym same) (unstarted e n)
    | inr (a, same) ↦ elim (finalize-cases env looped) [
      | inl ((result, good), kept) ↦
          subst Shape (sym (same ∙ ap (before (record_pipeline_run a)) kept))
            (finished a result good)
      | inr (e, f, raised, failure, added) ↦
          subst Shape (sym (same ∙ ap (before (record_pipeline_run a)) added))
            (failed a e f raised failure)
    ]
  ]

  pub Shape-ends : (r : Run) → Shape r → r.outcome ≢ raise out_of_fuel
  Shape-ends _ (unstarted e n) h = n cc
  Shape-ends _ (finished a result good) h = loop_ends env plan policy required h
  Shape-ends _ (failed a e _ raised (unrecorded f)) h = cc
  Shape-ends _ (failed a e _ raised (recorded b s)) h =
      loop_ends env plan policy required (raised ∙ h)

  pub Shape-IsAudited : (r : Run) → Shape r → IsAudited r.outcome (pipeline_audits r.effects)
  Shape-IsAudited _ (unstarted e n) = recorded_end e [] (inl refl)
  Shape-IsAudited _ (finished a result good) = rw good (
      Last-cons (λ b. b.status ≡ result.status) a (pipeline_audits looped.effects)
        (loop_audited env plan policy required result good))
  Shape-IsAudited _ (failed a e _ raised (unrecorded f)) = tt
  Shape-IsAudited _ (failed a e _ raised (recorded b s)) = recorded_end e _ (
      inr (
        Last-cons (λ x. x.status ≡ PipelineStatus.failed) a
          (pipeline_audits (looped.effects ++ record_pipeline_run b ∷ []))
          (subst (Last (λ x. x.status ≡ PipelineStatus.failed))
            (sym (collect-append pipeline_in looped.effects (record_pipeline_run b ∷ [])))
            (Last-append (λ x. x.status ≡ PipelineStatus.failed) (pipeline_audits looped.effects) b
              s))))

  pub Shape-IsGuarded : (r : Run) → Shape r → IsGuarded plan [] r.effects
  Shape-IsGuarded _ (unstarted e n) = tt
  Shape-IsGuarded _ (finished a result good) = (loop-IsSafe env plan policy required).0
  Shape-IsGuarded _ (failed a e _ raised (unrecorded f)) =
      IsGuarded-append plan looped.effects [] [] (loop-IsSafe env plan policy required).0 (λ o. tt)
  Shape-IsGuarded _ (failed a e _ raised (recorded b s)) =
      IsGuarded-append plan looped.effects (record_pipeline_run b ∷ []) []
        (loop-IsSafe env plan policy required).0 (λ o. tt)

  pub Shape-ListsAll : (r : Run) → Shape r → ListsAll plan.selected_dataset_ids r.outcome
  Shape-ListsAll _ (unstarted e n) = tt
  Shape-ListsAll _ (finished a result good) =
      rw good ((loop-IsSafe env plan policy required).1 result good)
  Shape-ListsAll _ (failed a e _ raised (unrecorded f)) = tt
  Shape-ListsAll _ (failed a e _ raised (recorded b s)) = tt
