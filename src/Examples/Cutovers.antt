-- ===== src/Examples/Cutovers.antt =====
-- target_cutover.py on a concrete environment.
use fabric_data_framework.Prelude.{
  ◌≡◌, ◌≢◌, refl, true, false, none, some, [], ◌∷◌, text, nat_eq, list_eq, option_eq, ok, raise,
  arith,
}
use fabric_data_framework.Prelude.Dict.{get, put}
use fabric_data_framework.Time.{aware}
use fabric_data_framework.Cutover.Contract.{
  TargetVersionSpec, TargetCutoverGate, TargetCutoverRequest, TargetActiveVersionSnapshot,
  TargetCutoverResult, conflict, can_promote, Key, key_of, request_key,
}
use fabric_data_framework.Cutover.Execute.{
  validate_candidate, promote_validated, cutover_from, execute_target_cutover,
}
use fabric_data_framework.Cutover.Memory.{States, read_active, next_state, promote, in_memory}
use fabric_data_framework.Cutover.Promotion.{
  cutover_promotes, cutover_again, cutover_race, repeated,
}

abbrev request : TargetCutoverRequest
request = record {
  cutover_request_id = 5;
  dataset_id = text "orders";
  environment = text "prod";
  logical_object = text "v";
  from_version = text "1";
  to_version = text "2";
  requested_by = text "ops";
  reason = text "rebuild";
  approval_reference = text "ok";
  created_at = aware 1;
}

abbrev second : TargetVersionSpec
second = record {
  dataset_id = text "orders";
  layer = text "gold";
  logical_object = text "v";
  physical_object = text "t2";
  version = text "2";
}

abbrev gate : TargetCutoverGate
gate = record {
  candidate_built = true;
  reconciliation_passed = true;
  consumer_validation_passed = true;
  validation_reference = text "run";
  approval_reference = text "ok";
}

abbrev first : TargetActiveVersionSnapshot
first = record {
  dataset_id = text "orders";
  environment = text "prod";
  logical_object = text "v";
  version = text "1";
  physical_object = text "t1";
  generation = 1;
  last_cutover_request_id = none;
}

abbrev place : Key
place = text "orders" ∷ text "prod" ∷ text "v" ∷ []

abbrev states : States
states = (place, first) ∷ []

abbrev moved : TargetActiveVersionSnapshot
moved = record first { generation = 2; physical_object = text "t9" }

abbrev after : TargetActiveVersionSnapshot
after = next_state first request second

abbrev promoted : TargetCutoverResult
promoted = record {
  request_id = 5;
  before = first;
  after = after;
  candidate = second;
  already_promoted = false;
}

abbrev run : States
run = (execute_target_cutover in_memory (λ s. s) request second gate states).1

cutover_promotes_example :
    (text "ok" ≡ text "ok")
    × (can_promote gate ≡ true)
    × (get (request_key request) run ≡ some after)
    × (text "2" ≡ text "2")
    × (text "t2" ≡ text "t2")
    × (text "t2" ≢ text "t1")
    × (after.last_cutover_request_id ≡ some 5)
    × ((other : Key) → other ≢ request_key request → get other run ≡ get other states)
unfolding execute_target_cutover cutover_from promote_validated validate_candidate can_promote
    promote read_active request_key key_of get put
cutover_promotes_example = cutover_promotes (λ s. s) request second gate states promoted refl refl

cutover_again_example :
    execute_target_cutover in_memory (λ s. s) request second gate run
    ≡ (ok (repeated request second after), run)
unfolding execute_target_cutover cutover_from promote_validated validate_candidate can_promote
    promote read_active request_key key_of get put
cutover_again_example =
    cutover_again request second gate (λ s. s) (λ s. s) states promoted refl refl

cutover_race_example :
    execute_target_cutover in_memory (λ s. (place, moved) ∷ []) request second gate states
    ≡ (raise conflict, (place, moved) ∷ [])
unfolding validate_candidate can_promote request_key key_of get
cutover_race_example =
    cutover_race request second gate (λ s. (place, moved) ∷ []) states first moved refl
      (λ e. ground arith) refl (λ e. ground arith) (omega arith) refl refl refl
