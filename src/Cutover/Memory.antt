-- ===== src/Cutover/Memory.antt =====
-- `InMemoryTargetCutoverAdapter` of recovery/target_cutover.py.
use fabric_data_framework.Prelude.{
  ℕ, ◌+◌, not, none, some, if◌then◌else◌, ◌==◌, nat_eq, list_eq, option_eq, Text, Result, ok, raise,
}
use fabric_data_framework.Prelude.Dict.{Dict, get, put}
use fabric_data_framework.Cutover.Contract.{
  TargetVersionSpec, TargetCutoverRequest, TargetActiveVersionSnapshot, TargetCutoverAdapter,
  CutoverError, conflict, Key, key_of, request_key,
}

-- `InMemoryTargetCutoverAdapter`
abbrev pub States : Type 0
States = Dict Key TargetActiveVersionSnapshot

unfoldable pub seed_active :
    Text → Text → Text → Text → Text → States → TargetActiveVersionSnapshot × States
seed_active dataset_id environment logical_object version physical_object states =
    let key = key_of dataset_id environment logical_object in
    let state : TargetActiveVersionSnapshot = record {
      dataset_id = dataset_id;
      environment = environment;
      logical_object = logical_object;
      version = version;
      physical_object = physical_object;
      generation = elim (get key states) [ none ↦ 1 | some current ↦ current.generation + 1 ];
      last_cutover_request_id = none;
    } in
    (state, put key state states)

unfoldable pub read_active : Key → States → Result CutoverError TargetActiveVersionSnapshot
read_active key states = elim (get key states) [ none ↦ raise conflict | some state ↦ ok state ]

abbrev pub next_state :
    TargetActiveVersionSnapshot
    → TargetCutoverRequest
    → TargetVersionSpec
    → TargetActiveVersionSnapshot
next_state current q candidate = record {
  dataset_id = current.dataset_id;
  environment = current.environment;
  logical_object = current.logical_object;
  version = candidate.version;
  physical_object = candidate.physical_object;
  generation = current.generation + 1;
  last_cutover_request_id = some q.cutover_request_id;
}

unfoldable pub promote :
    ℕ
    → TargetCutoverRequest
    → TargetVersionSpec
    → States
    → Result CutoverError TargetActiveVersionSnapshot × States
unfolding read_active
promote expected_generation q candidate states = elim (read_active (request_key q) states) [
  | raise e ↦ (raise e, states)
  | ok current ↦
      if current.last_cutover_request_id == some q.cutover_request_id
      then (ok current, states)
      else if not (current.generation == expected_generation)
      then (raise conflict, states)
      else if not (current.version == q.from_version)
      then (raise conflict, states)
      else let next = next_state current q candidate in (ok next, put (request_key q) next states)
]

abbrev pub in_memory : TargetCutoverAdapter States
in_memory = record { read_active = read_active; promote = promote }
