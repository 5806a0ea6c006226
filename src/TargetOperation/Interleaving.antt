-- ===== src/TargetOperation/Interleaving.antt =====
-- Every call of target_operation_journal.py, whatever well-behaved writers do between its reads
-- and writes, amounts to a sequence of atomic writes.
use fabric_data_framework.Prelude.{
  ℕ, ◌+◌, ◌≡◌, refl, sym, ◌∙◌, subst, Bool, true, some, list_eq, nat_eq, Bool-cases, Option-cases,
  inl, inr, Text, ok, raise, arith,
}
use fabric_data_framework.Prelude.Dict.{get, put}
use fabric_data_framework.TargetOperation.Contract.{
  TargetOperationStatus, in_progress, succeeded, unknown, not_committed, allowed,
  TargetOperationIntent, TargetOperationRecord, Canonical, record_valid,
}
use fabric_data_framework.Time.{DateTime}
use fabric_data_framework.TargetOperation.Store.{
  Journal, Others, Outcome, Change, record_from_row, compare_and_set, write_and_read, change_event,
  changed, insert_event,
}
use fabric_data_framework.TargetOperation.Journal.{
  claim_unseen, claim_known, as_execute, fresh_record, retry_change, not_committed_only,
}
use fabric_data_framework.TargetOperation.Steps.{
  Write, first, next, Reach, here, more, Reach-trans, Reach-Later,
}

-- The other writers change the tables by atomic writes only.
pub record Cooperates (others : Others) : Type 0 where
  pub before_write : (db : Journal) → Reach db (others.before_write db)
  pub before_read : (db : Journal) → Reach db (others.before_read db)

module _ (key : Text) (expected : ℕ) (guard : TargetOperationStatus → Bool)
    (from : TargetOperationStatus) (now : DateTime) (c : Change) where
  abbrev pub write : TargetOperationRecord → Journal → Journal
  write row db =
      insert_event (change_event key (some from) (expected + 1) now c)
        (record db { operations = put key (changed (expected + 1) now c row) db.operations })

  pub compare_and_set_cases :
      (db written : Journal)
      → compare_and_set key expected guard from now c db ≡ some written
      → (row : TargetOperationRecord) × (get key db.operations ≡ some row)
        × (row.version ≡ expected)
        × (guard row.status ≡ true)
        × (write row db ≡ written)
  unfolding compare_and_set
  compare_and_set_cases db written h = elim (Option-cases (get key db.operations)) [
    | inl absent ↦ absurd (ground arith)
    | inr (row, present) ↦ (row, present, ground arith, ground arith, ground arith)
  ]

  compare_and_set-Write :
      (db written : Journal)
      → ((row : TargetOperationRecord)
          → get key db.operations ≡ some row
          → row.version ≡ expected
          → row.status ≡ from)
      → allowed from c.status ≡ true
      → compare_and_set key expected guard from now c db ≡ some written
      → Write db written
  unfolding compare_and_set
  compare_and_set-Write db written same may h =
      let (row, present, version, passed, e) = compare_and_set_cases db written h in
      subst (Write db) (cc (e, version, same row present version))
        (next key row now c present (rw (same row present version) may))

-- What the reading of a row keeps.
pub record_from_row_fields :
    (digest : Canonical → Text) (row r : TargetOperationRecord)
    → record_from_row digest row ≡ ok r
    → (r.version ≡ row.version) × (r.status ≡ row.status)
unfolding record_from_row
record_from_row_fields digest row r h = ground arith

-- A row of the version that was read has the status that was read.
same_status :
    (db db' : Journal) (key : Text) (row row' : TargetOperationRecord)
    → Reach db db'
    → get key db.operations ≡ some row
    → get key db'.operations ≡ some row'
    → row'.version ≡ row.version
    → row'.status ≡ row.status
same_status db db' key row row' reach h h' version =
    let later = Reach-Later key row reach h in
    let e : later.now_row ≡ row' = cc (later.found, h') in ground (arith, later.moved, e)

module _ (digest : Canonical → Text) (others : Others) (fine : Cooperates others)
    (now : DateTime) where
  pub write_and_read-Reach :
      (db : Journal) (key : Text) (row : TargetOperationRecord) (expected : ℕ)
      (guard : TargetOperationStatus → Bool) (from : TargetOperationStatus) (c : Change)
      → get key db.operations ≡ some row
      → row.version ≡ expected
      → row.status ≡ from
      → allowed from c.status ≡ true
      → Reach db (write_and_read digest others key expected guard from now c db).1
  unfolding write_and_read
  write_and_read-Reach db key row expected guard from c h version status may =
      let db' = others.before_write db in
      let reach = fine.before_write db in
      elim (Option-cases (compare_and_set key expected guard from now c db')) [
        | inl failed ↦ rw (failed, write_and_read) reach
        | inr (written, set) ↦
            rw (set, write_and_read)
              (Reach-trans
                (more reach (
                  compare_and_set-Write key expected guard from now c db' written
                    (λ row' h' v.
                      same_status db db' key row row' reach h h' (v ∙ sym version) ∙ status)
                    may set))
                (fine.before_read written))
      ]

  as_execute_journal : (o : Outcome TargetOperationRecord) → (as_execute o).1 ≡ o.1
  as_execute_journal (ok r, db) = refl
  as_execute_journal (raise e, db) = refl

  pub claim_unseen-Reach :
      (intent : TargetOperationIntent) (dataset_run_id attempt : ℕ) (key : Text) (db : Journal)
      → Reach db (claim_unseen digest others now intent dataset_run_id attempt key db).1
  unfolding claim_unseen
  claim_unseen-Reach intent dataset_run_id attempt key db =
      let db' = others.before_write db in
      let reach = fine.before_write db in
      let r = fresh_record key intent dataset_run_id attempt now in
      elim (Option-cases (get key db'.operations)) [
        | inr (row, taken) ↦ rw (taken, claim_unseen) reach
        | inl free ↦ elim (Bool-cases (record_valid digest r)) [
          | inr invalid ↦ rw (free, invalid, claim_unseen) reach
          | inl valid ↦
              rw (free, valid, claim_unseen)
                (more reach (first key intent dataset_run_id attempt now free))
        ]
      ]

  pub claim_known-Reach :
      (dataset_run_id attempt : ℕ) (key : Text) (row current : TargetOperationRecord) (db : Journal)
      → get key db.operations ≡ some row
      → row.version ≡ current.version
      → row.status ≡ current.status
      → Reach db (claim_known digest others now dataset_run_id attempt key current db).1
  unfolding claim_known
  claim_known-Reach dataset_run_id attempt key row current db h version status =
      by_status current.status refl
    where
      by_status :
          (s : TargetOperationStatus)
          → current.status ≡ s
          → Reach db (claim_known digest others now dataset_run_id attempt key current db).1
      by_status succeeded e = rw e here
      by_status in_progress e = rw e here
      by_status unknown e = rw e here
      by_status not_committed e =
          rw (e, as_execute_journal)
            (write_and_read-Reach db key row current.version not_committed_only not_committed
              (retry_change dataset_run_id attempt) h version (status ∙ e) refl)
