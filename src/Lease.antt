-- ===== src/Lease.antt =====
-- control_plane/dataset_lease.py and control_plane/dataset_lease_recovery.py: durable claims on a
-- dataset. The tables are a dict of leases by dataset and the list of recovery events. A table
-- write is given what other writers do between the caller's SELECT and its write. The models that the
-- calls return strip their texts (FrozenModel), the statements bind the caller's own: `strip` is a
-- parameter.
pub mod Exclusion
use fabric_data_framework.Prelude.{
  ℕ, Bool, true, false, ◌&&◌, ◌||◌, not, Option, none, some, List, [], ◌∷◌, ◌++◌, if◌then◌else◌,
  ltb, leb, ◌==◌, nat_eq, list_eq, Text, Result, ok, raise,
}
use fabric_data_framework.Prelude.Dict.{Dict, get, put, remove}
use fabric_data_framework.Time.{DateTime, is_aware, instant, aware_time}

pub record DatasetLeaseState : Type 0 where
  pub dataset_id : Text
  pub lease_owner : Text
  pub dataset_run_id : ℕ
  pub lease_version : ℕ
  pub acquired_at : DateTime
  pub expires_at : DateTime

pub data LeaseError : Type 0 where
  value_error integrity_error lease_conflict release_conflict recovery_conflict : LeaseError

pub record DatasetLeaseRecoveryEvent : Type 0 where
  pub dataset_id : Text
  pub lease_owner : Text
  pub dataset_run_id : ℕ
  pub lease_version : ℕ
  pub recovered_by : Text
  pub reason : Text
  pub proof_reference : Text
  pub review_deadline : DateTime
  pub recovered_at : DateTime

pub record Leases : Type 0 where
  pub leases : Dict Text DatasetLeaseState
  pub recoveries : List DatasetLeaseRecoveryEvent

-- The field constraints and `validate_times`.
abbrev pub lease_valid : DatasetLeaseState → Bool
lease_valid s =
    not (s.dataset_id == [])
    && not (s.lease_owner == [])
    && leb 1 s.lease_version
    && is_aware s.acquired_at
    && is_aware s.expires_at
    && ltb (instant s.acquired_at) (instant s.expires_at)

-- `_from_row`
unfoldable pub lease_from_row :
    (strip : Text → Text) → DatasetLeaseState → Result LeaseError DatasetLeaseState
lease_from_row strip row =
    let s : DatasetLeaseState = record row {
      dataset_id = strip row.dataset_id;
      lease_owner = strip row.lease_owner;
      acquired_at = aware_time row.acquired_at;
      expires_at = aware_time row.expires_at;
    } in
    if lease_valid s then ok s else raise value_error

unfoldable pub read_dataset_lease :
    (strip : Text → Text) → Text → Leases → Result LeaseError (Option DatasetLeaseState)
unfolding lease_from_row
read_dataset_lease strip dataset_id db = elim (get dataset_id db.leases) [
  | none ↦ ok none
  | some row ↦ elim (lease_from_row strip row) [ ok s ↦ ok (some s) | raise e ↦ raise e ]
]

abbrev pub Outcome : Type 0 → Type 0
Outcome A = Result LeaseError A × Leases

-- The error of a failed INSERT: the claim that is read back decides it.
abbrev insert_error :
    Result LeaseError (Option DatasetLeaseState) → Result LeaseError DatasetLeaseState
insert_error (raise e) = raise e
insert_error (ok none) = raise integrity_error
insert_error (ok (some existing)) = raise lease_conflict

abbrev pub new_lease : Text → Text → ℕ → DateTime → DateTime → DatasetLeaseState
new_lease dataset_id lease_owner dataset_run_id now review_deadline = record {
  dataset_id = dataset_id;
  lease_owner = lease_owner;
  dataset_run_id = dataset_run_id;
  lease_version = 1;
  acquired_at = now;
  expires_at = review_deadline;
}

-- The lease that is returned has its texts stripped, the row that is inserted has them as given.
-- `before_read` is what other writers do between a failed INSERT and the read that follows.
unfoldable pub acquire_dataset_lease :
    (strip : Text → Text) (before_read : Leases → Leases) (now : DateTime)
    → Text
    → Text
    → ℕ
    → DateTime
    → Leases
    → Outcome DatasetLeaseState
unfolding read_dataset_lease
acquire_dataset_lease strip before_read now dataset_id lease_owner dataset_run_id review_deadline
      db =
    let state =
      new_lease (strip dataset_id) (strip lease_owner) dataset_run_id now review_deadline in
    let row = new_lease dataset_id lease_owner dataset_run_id now review_deadline in
    if dataset_id == [] || lease_owner == []
    then (raise value_error, db)
    else if not (is_aware review_deadline)
    then (raise value_error, db)
    else if leb (instant review_deadline) (instant now)
    then (raise value_error, db)
    else if not (lease_valid state)
    then (raise value_error, db)
    else elim (get dataset_id db.leases) [
      | some taken ↦
          let db' = before_read db in (insert_error (read_dataset_lease strip dataset_id db'), db')
      | none ↦ (ok state, record db { leases = put dataset_id row db.leases })
    ]

-- The WHERE clause of the exact deletes.
abbrev pub exact : Text → ℕ → ℕ → DatasetLeaseState → Bool
exact owner run version row =
    row.lease_owner == owner && row.dataset_run_id == run && row.lease_version == version

unfoldable pub release_dataset_lease : DatasetLeaseState → Leases → Outcome (Unit {0})
release_dataset_lease lease db = elim (get lease.dataset_id db.leases) [
  | none ↦ (raise release_conflict, db)
  | some row ↦
      if exact lease.lease_owner lease.dataset_run_id lease.lease_version row
      then (ok tt, record db { leases = remove lease.dataset_id db.leases })
      else (raise release_conflict, db)
]

-- The arguments of `recover_abandoned_dataset_lease`.
pub record Recovery : Type 0 where
  pub dataset_id : Text
  pub expected_lease_owner : Text
  pub expected_dataset_run_id : ℕ
  pub expected_lease_version : ℕ
  pub recovered_by : Text
  pub reason : Text
  pub proof_reference : Text

abbrev pub recovery_event :
    (strip : Text → Text) → Recovery → DateTime → DateTime → DatasetLeaseRecoveryEvent
recovery_event strip q deadline now = record {
  dataset_id = strip q.dataset_id;
  lease_owner = strip q.expected_lease_owner;
  dataset_run_id = q.expected_dataset_run_id;
  lease_version = q.expected_lease_version;
  recovered_by = strip q.recovered_by;
  reason = strip q.reason;
  proof_reference = strip q.proof_reference;
  review_deadline = deadline;
  recovered_at = now;
}

-- The field constraints of the event; its times carry a zone.
abbrev pub event_valid : DatasetLeaseRecoveryEvent → Bool
event_valid e =
    not (e.dataset_id == [])
    && not (e.lease_owner == [])
    && leb 1 e.lease_version
    && not (e.recovered_by == [])
    && not (e.reason == [])
    && not (e.proof_reference == [])

abbrev pub expected_exact : Recovery → DatasetLeaseState → Bool
expected_exact q = exact q.expected_lease_owner q.expected_dataset_run_id q.expected_lease_version

-- The event and the exact delete, in one transaction with the SELECT.
unfoldable pub delete_recovered :
    (before_write : Leases → Leases)
    → Recovery
    → DatasetLeaseRecoveryEvent
    → Leases
    → Outcome DatasetLeaseRecoveryEvent
delete_recovered before_write q event db =
    let db' = before_write db in
    elim (get q.dataset_id db'.leases) [
      | none ↦ (raise recovery_conflict, db')
      | some row ↦
          if expected_exact q row
          then (
            ok event,
            record db' {
              leases = remove q.dataset_id db'.leases;
              recoveries = db'.recoveries ++ event ∷ [];
            },
          )
          else (raise recovery_conflict, db')
    ]

unfoldable pub recover_abandoned_dataset_lease :
    (strip : Text → Text) (before_write : Leases → Leases) (now : DateTime)
    → Recovery
    → Leases
    → Outcome DatasetLeaseRecoveryEvent
unfolding delete_recovered
recover_abandoned_dataset_lease strip before_write now q db =
    if ltb q.expected_lease_version 1
    then (raise value_error, db)
    else if q.dataset_id == []
        || q.expected_lease_owner == []
        || q.recovered_by == []
        || q.reason == []
        || q.proof_reference == []
    then (raise value_error, db)
    else if not (is_aware now)
    then (raise value_error, db)
    else elim (get q.dataset_id db.leases) [
      | none ↦ (raise recovery_conflict, db)
      | some row ↦
          let deadline = aware_time row.expires_at in
          if not (expected_exact q row)
          then (raise recovery_conflict, db)
          else if ltb (instant now) (instant deadline)
          then (raise recovery_conflict, db)
          else if not (event_valid (recovery_event strip q deadline now))
          then (raise value_error, db)
          else delete_recovered before_write q (recovery_event strip q deadline now) db
    ]
