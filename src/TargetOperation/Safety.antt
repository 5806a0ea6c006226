-- ===== src/TargetOperation/Safety.antt =====
-- What holds of the tables of target_operation_journal.py after any calls by any processes.
use mathlib.Core.Option
use fabric_data_framework.Prelude.{
  ℕ, ◌+◌, ◌≤◌, ◌≡◌, refl, ap, ◌∙◌, true, ◌&&◌, Option, none, some, List, [], ◌∷◌, ◌++◌,
  if◌then◌else◌, ◌==◌, ==_iff, list_eq, nat_eq, Bool-cases, inl, inr, Text, arith,
}
use fabric_data_framework.Prelude.Dict.{get, get-put}
use fabric_data_framework.TargetOperation.Contract.{
  TargetOperationStatus, in_progress, succeeded, not_committed, allowed, status_eq, Canonical,
  TargetOperationRecord, TargetOperationEvent, intent_of,
}
use fabric_data_framework.TargetOperation.Store.{Journal, insert_event, empty}
use fabric_data_framework.TargetOperation.Steps.{Write, first, next, Reach, here, more, Reach-Later}
use fabric_data_framework.TargetOperation.Calls.{Calls, Calls-Reach}
use fabric_data_framework.TargetOperation.Trace.{summary, replay, Reach-IsTraced}

-- Once a target operation has SUCCEEDED, no sequence of claims, transitions and reconciliations by
-- any processes, however their reads and atomic writes interleave, changes its row. Nothing else
-- may write the tables.
pub succeeded_is_final :
    (digest : Canonical → Text) (db db' : Journal) (key : Text) (row : TargetOperationRecord)
    → Calls digest db db'
    → get key db.operations ≡ some row
    → row.status ≡ succeeded
    → get key db'.operations ≡ some row
succeeded_is_final digest db db' key row calls h s =
    let later = Reach-Later key row (Calls-Reach calls) h in
    later.found ∙ ap (λ (r : TargetOperationRecord). some r) (later.final s)

-- A row is never removed, its version never falls, and its semantic intent never changes, under any
-- sequence of calls by any processes, where nothing else writes the tables.
pub version_monotone :
    (digest : Canonical → Text) (db db' : Journal) (key : Text) (row : TargetOperationRecord)
    → Calls digest db db'
    → get key db.operations ≡ some row
    → (row' : TargetOperationRecord) × (get key db'.operations ≡ some row')
      × (row.version ≤ row'.version)
      × (intent_of row' ≡ intent_of row)
version_monotone digest db db' key row calls h =
    let later = Reach-Later key row (Calls-Reach calls) h in
    (later.now_row, later.found, ground (arith, later.moved), later.same_intent)

-- After any calls on empty tables that nothing else writes, the events of each key, replayed with
-- the check that every event names the status before it and carries the next version, give exactly
-- the status, version, owner and attempt of the key's row, and nothing where there is no row.
pub replay-eq-row :
    (digest : Canonical → Text) (db : Journal) (key : Text)
    → Calls digest empty db
    → replay key db.events ≡ Option.map summary (get key db.operations)
replay-eq-row digest db key calls = Reach-IsTraced (Calls-Reach calls) key

-- How many events of a key lead to a status.
pub events_to : Text → TargetOperationStatus → List TargetOperationEvent → ℕ
events_to key s [] = 0
events_to key s (e ∷ es) =
    (if e.operation_key == key && e.to_status == s then 1 else 0) + events_to key s es

events_to-append :
    (key : Text) (s : TargetOperationStatus) (es : List TargetOperationEvent)
    (e : TargetOperationEvent)
    → events_to key s (es ++ e ∷ [])
      ≡ events_to key s es + (if e.operation_key == key && e.to_status == s then 1 else 0)
unfolding events_to
events_to-append key s [] e = omega arith
events_to-append key s (x ∷ es) e = omega (arith, events_to-append key s es e)

-- One execution is open unless the row is absent or NOT_COMMITTED.
abbrev open_executions : Option TargetOperationRecord → ℕ
open_executions none = 0
open_executions (some r) = if r.status == not_committed then 0 else 1

abbrev IsBalanced : Journal → Type 0
IsBalanced db =
    (key : Text)
    → events_to key in_progress db.events
      ≡ events_to key not_committed db.events + open_executions (get key db.operations)

change_balances :
    (a b : TargetOperationStatus) (begun undone : ℕ)
    → allowed a b ≡ true
    → begun ≡ undone + (if a == not_committed then 0 else 1)
    → begun + (if b == in_progress then 1 else 0)
      ≡ (undone + (if b == not_committed then 1 else 0)) + (if b == not_committed then 0 else 1)
change_balances a b begun undone may h = ground arith

Write-IsBalanced : {db db' : Journal} → Write db db' → IsBalanced db → IsBalanced db'
unfolding insert_event
Write-IsBalanced {db} (first k intent run attempt now absent) balanced key =
    rw (events_to-append, events_to-append, get-put)
      (elim (Bool-cases (k == key)) [
        | inr other ↦ rw other (omega (arith, balanced key))
        | inl same ↦
            let p : get key db.operations ≡ none = cc (absent, (==_iff k key).0 same) in
            rw same (omega (arith, rw p at (balanced key)))
      ])
Write-IsBalanced {db} (next k row now c present may) balanced key =
    rw (events_to-append, events_to-append, get-put)
      (elim (Bool-cases (k == key)) [
        | inr other ↦ rw other (omega (arith, balanced key))
        | inl same ↦
            let p : get key db.operations ≡ some row = cc (present, (==_iff k key).0 same) in
            rw same (change_balances row.status c.status _ _ may (rw p at (balanced key)))
      ])

Reach-IsBalanced : {db : Journal} → Reach empty db → IsBalanced db
unfolding events_to get
Reach-IsBalanced here = λ key. refl
Reach-IsBalanced (more r w) = Write-IsBalanced w (Reach-IsBalanced r)

-- After any calls on empty tables that nothing else writes, the executions granted for a key (its
-- events to IN_PROGRESS) are at most one more than the proofs that an execution was not committed
-- (its events to NOT_COMMITTED).
pub executions-le :
    (digest : Canonical → Text) (db : Journal) (key : Text)
    → Calls digest empty db
    → events_to key in_progress db.events ≤ events_to key not_committed db.events + 1
executions-le digest db key calls = ground (arith, Reach-IsBalanced (Calls-Reach calls) key)
