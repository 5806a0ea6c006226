-- ===== src/Cutover/Promotion.antt =====
-- What `execute_target_cutover` of recovery/target_cutover.py promotes, and when.
use fabric_data_framework.Prelude.{
  ℕ, ◌≡◌, ◌≢◌, ◌⊎◌, inl, inr, true, false, some, ==_iff, ==_refl, nat_eq, list_eq, option_eq,
  Option-cases, ok, raise, arith,
}
use fabric_data_framework.Prelude.Dict.{get, put, get-put}
use fabric_data_framework.Cutover.Contract.{
  TargetVersionSpec, TargetCutoverGate, TargetCutoverRequest, TargetActiveVersionSnapshot,
  TargetCutoverResult, TargetCutoverAdapter, conflict, can_promote, Key, request_key,
}
use fabric_data_framework.Cutover.Execute.{
  validate_candidate, promoted_as_requested, promote_validated, cutover_from,
  execute_target_cutover,
}
use fabric_data_framework.Cutover.Memory.{States, read_active, next_state, promote, in_memory}

-- Without approval evidence that matches the request, or without a built, reconciled and validated
-- candidate, the cutover leaves the environment as it was, over any adapter.
pub ungated_changes_nothing :
    {S : Type 0} (adapter : TargetCutoverAdapter S) (between : S → S) (q : TargetCutoverRequest)
    (candidate : TargetVersionSpec) (gate : TargetCutoverGate) (s : S)
    → (gate.approval_reference ≢ q.approval_reference) ⊎ (can_promote gate ≡ false)
    → (execute_target_cutover adapter between q candidate gate s).1 ≡ s
unfolding execute_target_cutover cutover_from promote_validated validate_candidate
ungated_changes_nothing adapter between q candidate gate s h =
    ground (arith, ==_iff gate.approval_reference q.approval_reference)

-- What a promotion that succeeds found and left.
promote_cases :
    (expected : ℕ) (q : TargetCutoverRequest) (candidate : TargetVersionSpec) (s : States)
    (after : TargetActiveVersionSnapshot)
    → (promote expected q candidate s).0 ≡ ok after
    → (current : TargetActiveVersionSnapshot) × (get (request_key q) s ≡ some current)
      × (((after ≡ current)
            × (current.last_cutover_request_id ≡ some q.cutover_request_id)
            × ((promote expected q candidate s).1 ≡ s))
          ⊎ ((current.generation ≡ expected)
              × (current.version ≡ q.from_version)
              × (after ≡ next_state current q candidate)
              × ((promote expected q candidate s).1 ≡ put (request_key q) after s)))
unfolding promote
promote_cases expected q candidate s after h = elim (Option-cases (get (request_key q) s)) [
  | inl absent ↦ absurd (ground arith)
  | inr (current, present) ↦ (
    current,
    present,
    ground (
      arith,
      ==_iff current.last_cutover_request_id (some q.cutover_request_id),
      ==_iff current.version q.from_version,
    ),
  )
]

-- What a cutover that promotes anew passed through.
execute_cases :
    {S : Type 0} (adapter : TargetCutoverAdapter S) (between : S → S) (q : TargetCutoverRequest)
    (candidate : TargetVersionSpec) (gate : TargetCutoverGate) (s : S)
    (result : TargetCutoverResult)
    → (execute_target_cutover adapter between q candidate gate s).0 ≡ ok result
    → result.already_promoted ≡ false
    → (adapter.read_active (request_key q) s ≡ ok result.before)
      × (gate.approval_reference ≡ q.approval_reference)
      × (can_promote gate ≡ true)
      × (candidate.version ≡ q.to_version)
      × (result.before.version ≡ q.from_version)
      × (candidate.physical_object ≢ result.before.physical_object)
      × ((adapter.promote result.before.generation q candidate (between s)).0 ≡ ok result.after)
      × ((execute_target_cutover adapter between q candidate gate s).1
          ≡ (adapter.promote result.before.generation q candidate (between s)).1)
      × (promoted_as_requested q candidate result.after ≡ true)
unfolding execute_target_cutover cutover_from promote_validated validate_candidate
execute_cases adapter between q candidate gate s result h new = (
  ground arith,
  ground (arith, ==_iff gate.approval_reference q.approval_reference),
  ground arith,
  ground (arith, ==_iff candidate.version q.to_version),
  ground (arith, ==_iff result.before.version q.from_version),
  λ e. ground (arith, ==_iff candidate.physical_object result.before.physical_object),
  ground arith,
  ground arith,
  ground arith,
)

-- A cutover of the in-memory adapter that promotes anew had matching approval and complete gate
-- evidence; it makes the candidate's version and physical object, which differs from the one that
-- was active when it was read, the active ones under the request's identity, and changes no other
-- binding.
pub cutover_promotes :
    (between : States → States) (q : TargetCutoverRequest) (candidate : TargetVersionSpec)
    (gate : TargetCutoverGate) (s : States) (result : TargetCutoverResult)
    → (execute_target_cutover in_memory between q candidate gate s).0 ≡ ok result
    → result.already_promoted ≡ false
    → let s' = (execute_target_cutover in_memory between q candidate gate s).1 in
      (gate.approval_reference ≡ q.approval_reference)
      × (can_promote gate ≡ true)
      × (get (request_key q) s' ≡ some result.after)
      × (result.after.version ≡ q.to_version)
      × (result.after.physical_object ≡ candidate.physical_object)
      × (candidate.physical_object ≢ result.before.physical_object)
      × (result.after.last_cutover_request_id ≡ some q.cutover_request_id)
      × ((other : Key) → other ≢ request_key q → get other s' ≡ get other (between s))
unfolding read_active
cutover_promotes between q candidate gate s result h new =
    let (read, approved, complete, version, from, differs, promoted, left, as_requested) =
      execute_cases in_memory between q candidate gate s result h new in
    let (current, present, how) =
      promote_cases result.before.generation q candidate (between s) result.after promoted in
    (
      approved,
      complete,
      rw left (elim how [
        | inl (same, id, kept) ↦ rw (kept, same) present
        | inr (gen, v, made, stored) ↦ rw (stored, get-put, ==_refl)
      ]),
      ground (arith, ==_iff result.after.version candidate.version),
      ground (arith, ==_iff result.after.physical_object candidate.physical_object),
      differs,
      ground (arith, ==_iff result.after.last_cutover_request_id (some q.cutover_request_id)),
      λ other ne. rw left (elim how [
        | inl (same, id, kept) ↦ rw kept
        | inr (gen, v, made, stored) ↦
            rw (stored, get-put) (ground (arith, ==_iff (request_key q) other))
      ]),
    )

abbrev pub repeated :
    TargetCutoverRequest → TargetVersionSpec → TargetActiveVersionSnapshot → TargetCutoverResult
repeated q candidate active = record {
  request_id = q.cutover_request_id;
  before = active;
  after = active;
  candidate = candidate;
  already_promoted = true;
}

already_active :
    (between : States → States) (q : TargetCutoverRequest) (candidate : TargetVersionSpec)
    (gate : TargetCutoverGate) (s : States) (active : TargetActiveVersionSnapshot)
    → get (request_key q) s ≡ some active
    → active.version ≡ q.to_version
    → active.physical_object ≡ candidate.physical_object
    → active.last_cutover_request_id ≡ some q.cutover_request_id
    → execute_target_cutover in_memory between q candidate gate s
      ≡ (ok (repeated q candidate active), s)
unfolding execute_target_cutover cutover_from read_active
already_active between q candidate gate s active present version physical id = ground (
  arith,
  present,
  ==_iff active.version q.to_version,
  ==_iff active.physical_object candidate.physical_object,
  ==_iff active.last_cutover_request_id (some q.cutover_request_id),
)

-- Executing a cutover again after it promoted anew reports it as already promoted, with the same
-- active binding, and changes nothing.
pub cutover_again :
    (q : TargetCutoverRequest) (candidate : TargetVersionSpec) (gate : TargetCutoverGate)
    (between between' : States → States) (s : States) (result : TargetCutoverResult)
    → (execute_target_cutover in_memory between q candidate gate s).0 ≡ ok result
    → result.already_promoted ≡ false
    → let s' = (execute_target_cutover in_memory between q candidate gate s).1 in
      execute_target_cutover in_memory between' q candidate gate s'
      ≡ (ok (repeated q candidate result.after), s')
cutover_again q candidate gate between between' s result h new =
    let (approved, complete, active, version, physical, differs, id, rest) =
      cutover_promotes between q candidate gate s result h new in
    already_active between' q candidate gate _ result.after active version physical id

-- A cutover with a valid candidate and complete, approved evidence, whose binding another writer
-- has moved to another generation between its read and its promotion, does not promote: it ends in
-- a conflict and leaves that writer's binding. Neither binding carries the request's own identity.
pub cutover_race :
    (q : TargetCutoverRequest) (candidate : TargetVersionSpec) (gate : TargetCutoverGate)
    (between : States → States) (s : States) (before winner : TargetActiveVersionSnapshot)
    → get (request_key q) s ≡ some before
    → before.last_cutover_request_id ≢ some q.cutover_request_id
    → get (request_key q) (between s) ≡ some winner
    → winner.last_cutover_request_id ≢ some q.cutover_request_id
    → winner.generation ≢ before.generation
    → validate_candidate q candidate before ≡ ok tt
    → gate.approval_reference ≡ q.approval_reference
    → can_promote gate ≡ true
    → execute_target_cutover in_memory between q candidate gate s ≡ (raise conflict, between s)
unfolding execute_target_cutover cutover_from promote_validated read_active promote
cutover_race q candidate gate between s before winner read fresh moved other newer valid approved
      complete =
    ground (
      arith,
      ==_iff before.last_cutover_request_id (some q.cutover_request_id),
      ==_iff winner.last_cutover_request_id (some q.cutover_request_id),
      ==_iff gate.approval_reference q.approval_reference,
    )
