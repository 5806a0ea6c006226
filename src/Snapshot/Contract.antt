-- ===== src/Snapshot/Contract.antt =====
-- FullSnapshotEvidence and capture_full_snapshot of capture/full.py, and the data of
-- apply/snapshot_diff.py. The errors of a plan are told apart by what was wrong; in the source they
-- are one exception class with different messages. The float of max_delete_fraction is a parameter
-- type, and row counts are natural numbers, as their fields demand.
use fabric_data_framework.Prelude.{
  ℕ, Bool, true, false, not, Option, none, List, ◌==◌, nat_eq, Text, length, Result, ok, ◌>>◌,
  raise_if,
}
use fabric_data_framework.Values.{Row}
use fabric_data_framework.CdcApply.Write.{MutationCounts}

pub data SnapshotDiffError : Type 0 where
  no_merge_key incomplete_snapshot missing_column null_key duplicate_key quarantined_rows :
      SnapshotDiffError
  deletes_all_rows deletes_too_many : SnapshotDiffError

pub record FullSnapshotEvidence : Type 0 where
  pub snapshot_id : Text
  pub complete : Bool
  pub source_row_count : ℕ
  pub boundary_ref : Option Text

pub data FullSnapshotEvidenceError : Type 0 where
  row_count_mismatch : FullSnapshotEvidenceError

pub record FullCaptureBatch (V : Type 0) : Type 0 where
  pub rows : List (Row V)
  pub evidence : FullSnapshotEvidence

unfoldable pub capture_full_snapshot :
    {V : Type 0}
    → List (Row V)
    → FullSnapshotEvidence
    → Result FullSnapshotEvidenceError (FullCaptureBatch V)
capture_full_snapshot rows evidence = do
  raise_if (not (evidence.source_row_count == length rows)) row_count_mismatch
  ok (record { rows = rows; evidence = evidence })

pub record SnapshotDiffPolicy (F : Type 0) : Type 0 where
  pub require_complete_snapshot : Bool
  pub propagate_deletes : Bool
  pub allow_delete_all : Bool
  pub allow_delete_with_quarantine : Bool
  pub max_delete_fraction : Option F

abbrev pub default_policy : {F : Type 0} → SnapshotDiffPolicy F
default_policy = record {
  require_complete_snapshot = true;
  propagate_deletes = false;
  allow_delete_all = false;
  allow_delete_with_quarantine = false;
  max_delete_fraction = none;
}

pub record SnapshotDiffPlan (V : Type 0) : Type 0 where
  pub rows : List (Row V)
  pub inserted_keys : List (List V)
  pub updated_keys : List (List V)
  pub deleted_keys : List (List V)
  pub unchanged_keys : List (List V)
  pub mutations : MutationCounts
