-- ===== src/TargetOperation/Trace.antt =====
-- What the events of target_operation_journal.py tell of its rows.
use mathlib.Core.List.{foldl, foldl-append}
use mathlib.Core.Option
use fabric_data_framework.Prelude.{
  ℕ, ◌+◌, ◌≡◌, refl, Bool, ◌&&◌, Option, none, some, List, [], ◌∷◌, ◌++◌, if◌then◌else◌, ◌==◌,
  ==_iff, list_eq, nat_eq, option_eq, Bool-cases, inl, inr, Text, arith,
}
use fabric_data_framework.Prelude.Dict.{get, get-put}
use fabric_data_framework.TargetOperation.Contract.{
  TargetOperationStatus, status_eq, TargetOperationRecord, TargetOperationEvent,
}
use fabric_data_framework.TargetOperation.Store.{Journal, insert_event, empty}
use fabric_data_framework.TargetOperation.Steps.{Write, first, next, Reach, here, more}

-- The state of an operation as far as its events repeat it.
pub record Summary : Type 0 where
  pub status : TargetOperationStatus
  pub version : ℕ
  pub owner_dataset_run_id : ℕ
  pub attempt : ℕ

abbrev pub summary : TargetOperationRecord → Summary
summary r = record {
  status = r.status;
  version = r.version;
  owner_dataset_run_id = r.owner_dataset_run_id;
  attempt = r.attempt;
}

-- The event names the status before it and carries the next version.
abbrev follows : Option Summary → TargetOperationEvent → Bool
follows none e = e.from_status == none && e.version == 1
follows (some s) e = e.from_status == some s.status && e.version == s.version + 1

-- An event that does not follow loses the history.
abbrev advance : Text → Option Summary → TargetOperationEvent → Option Summary
advance key o e =
    if e.operation_key == key
    then (if follows o e
        then some (record {
          status = e.to_status;
          version = e.version;
          owner_dataset_run_id = e.owner_dataset_run_id;
          attempt = e.attempt;
        })
        else none)
    else o

pub replay : Text → List TargetOperationEvent → Option Summary
replay key = foldl (advance key) none

abbrev pub IsTraced : Journal → Type 0
IsTraced db = (key : Text) → replay key db.events ≡ Option.map summary (get key db.operations)

replay-append :
    (key : Text) (es : List TargetOperationEvent) (e : TargetOperationEvent)
    → replay key (es ++ e ∷ []) ≡ advance key (replay key es) e
unfolding replay
replay-append key es e = rw foldl-append

Write-IsTraced : {db db' : Journal} → Write db db' → IsTraced db → IsTraced db'
unfolding insert_event
Write-IsTraced {db} (first k intent run attempt now absent) traced key =
    rw (replay-append, get-put)
      (elim (Bool-cases (k == key)) [
        | inr other ↦ rw other (traced key)
        | inl same ↦ ground (arith, traced key, ==_iff k key)
      ])
Write-IsTraced {db} (next k row now c present may) traced key =
    rw (replay-append, get-put)
      (elim (Bool-cases (k == key)) [
        | inr other ↦ rw other (traced key)
        | inl same ↦ ground (arith, traced key, ==_iff k key)
      ])

pub Reach-IsTraced : {db : Journal} → Reach empty db → IsTraced db
unfolding replay get
Reach-IsTraced here = λ key. refl
Reach-IsTraced (more r w) = Write-IsTraced w (Reach-IsTraced r)
