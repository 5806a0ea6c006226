-- ===== src/Cutover/Execute.antt =====
-- `execute_target_cutover` of recovery/target_cutover.py, over any adapter.
use fabric_data_framework.Prelude.{
  Bool, true, false, ◌&&◌, ◌||◌, not, some, if◌then◌else◌, ◌==◌, nat_eq, list_eq, option_eq, Result,
  ok, raise,
}
use fabric_data_framework.Cutover.Contract.{
  TargetVersionSpec, TargetCutoverGate, TargetCutoverRequest, TargetActiveVersionSnapshot,
  TargetCutoverResult, TargetCutoverAdapter, CutoverError, gate_error, conflict, can_promote,
  request_key,
}

unfoldable pub validate_candidate :
    TargetCutoverRequest
    → TargetVersionSpec
    → TargetActiveVersionSnapshot
    → Result CutoverError (Unit {0})
validate_candidate q candidate before =
    if not (candidate.dataset_id == q.dataset_id)
    then raise conflict
    else if not (candidate.logical_object == q.logical_object)
    then raise conflict
    else if not (candidate.version == q.to_version)
    then raise conflict
    else if not (before.version == q.from_version)
    then raise conflict
    else if candidate.physical_object == before.physical_object
    then raise conflict
    else ok tt

-- The check of what the adapter returned.
abbrev pub promoted_as_requested :
    TargetCutoverRequest → TargetVersionSpec → TargetActiveVersionSnapshot → Bool
promoted_as_requested q candidate after =
    after.version == candidate.version
    && after.physical_object == candidate.physical_object
    && after.last_cutover_request_id == some q.cutover_request_id

module _ {S : Type 0} (adapter : TargetCutoverAdapter S) (between : S → S) where
  -- From the gates on. `between` is what others do between the read and the promotion.
  unfoldable pub promote_validated :
      TargetCutoverRequest
      → TargetVersionSpec
      → TargetCutoverGate
      → TargetActiveVersionSnapshot
      → S
      → Result CutoverError TargetCutoverResult × S
  unfolding can_promote
  promote_validated q candidate gate before s =
      if not (gate.approval_reference == q.approval_reference)
      then (raise gate_error, s)
      else if not (can_promote gate)
      then (raise gate_error, s)
      else let (promoted, s') = adapter.promote before.generation q candidate (between s) in
        elim promoted [
          | raise e ↦ (raise e, s')
          | ok after ↦
              if promoted_as_requested q candidate after
              then (
                ok (record {
                  request_id = q.cutover_request_id;
                  before = before;
                  after = after;
                  candidate = candidate;
                  already_promoted = false;
                }),
                s',
              )
              else (raise conflict, s')
        ]

  unfoldable pub cutover_from :
      TargetCutoverRequest
      → TargetVersionSpec
      → TargetCutoverGate
      → TargetActiveVersionSnapshot
      → S
      → Result CutoverError TargetCutoverResult × S
  unfolding promote_validated validate_candidate
  cutover_from q candidate gate before s =
      if before.last_cutover_request_id == some q.cutover_request_id
      then (
        if not (before.version == q.to_version)
              || not (before.physical_object == candidate.physical_object)
            then raise conflict
            else ok (record {
              request_id = q.cutover_request_id;
              before = before;
              after = before;
              candidate = candidate;
              already_promoted = true;
            }),
        s,
      )
      else elim (validate_candidate q candidate before) [
        | raise e ↦ (raise e, s)
        | ok _ ↦ promote_validated q candidate gate before s
      ]

  unfoldable pub execute_target_cutover :
      TargetCutoverRequest
      → TargetVersionSpec
      → TargetCutoverGate
      → S
      → Result CutoverError TargetCutoverResult × S
  unfolding cutover_from
  execute_target_cutover q candidate gate s = elim (adapter.read_active (request_key q) s) [
    | raise e ↦ (raise e, s)
    | ok before ↦ cutover_from q candidate gate before s
  ]
