-- ===== src/TargetOperation/Steps.antt =====
-- The tables of target_operation_journal.py under any number of writers: one atomic write of the
-- tables is a step, and the reachable tables are those that a sequence of steps leads to.
use fabric_data_framework.Prelude.{
  ℕ, ◌+◌, ◌<◌, ◌≡◌, refl, ap, ◌∙◌, subst, ◌⊎◌, inl, inr, true, Option, none, some, ◌==◌, ==_iff,
  list_eq, nat_eq, Bool-cases, Text, arith,
}
use fabric_data_framework.Prelude.Dict.{get, put, get-put}
use fabric_data_framework.TargetOperation.Contract.{
  TargetOperationStatus, succeeded, allowed, TargetOperationIntent, TargetOperationRecord,
  intent_of,
}
use fabric_data_framework.Time.{DateTime}
use fabric_data_framework.TargetOperation.Store.{
  Journal, Change, changed, change_event, insert_event,
}
use fabric_data_framework.TargetOperation.Journal.{fresh_record, retry_change}

abbrev pub first_write : Text → TargetOperationIntent → ℕ → ℕ → DateTime → Journal → Journal
first_write key intent dataset_run_id attempt now db =
    insert_event (change_event key none 1 now (retry_change dataset_run_id attempt)) (record db {
      operations = put key (fresh_record key intent dataset_run_id attempt now) db.operations;
    })

abbrev pub next_write : Text → TargetOperationRecord → DateTime → Change → Journal → Journal
next_write key row now c db =
    insert_event (change_event key (some row.status) (row.version + 1) now c)
      (record db { operations = put key (changed (row.version + 1) now c row) db.operations })

pub data Write (db : Journal) : Journal → Type 0 where
  first :
      (key : Text) (intent : TargetOperationIntent) (dataset_run_id attempt : ℕ) (now : DateTime)
      → get key db.operations ≡ none
      → Write db (first_write key intent dataset_run_id attempt now db)
  next :
      (key : Text) (row : TargetOperationRecord) (now : DateTime) (c : Change)
      → get key db.operations ≡ some row
      → allowed row.status c.status ≡ true
      → Write db (next_write key row now c db)

pub data Reach (db : Journal) : Journal → Type 0 where
  here : Reach db db
  more : {mid final : Journal} → Reach db mid → Write mid final → Reach db final

pub Reach-trans : {a b c : Journal} → Reach a b → Reach b c → Reach a c
Reach-trans r here = r
Reach-trans r (more s w) = more (Reach-trans r s) w

-- What became of a row: it is there, unchanged or of a later version, and a row that has
-- succeeded is unchanged.
pub record Later (row : TargetOperationRecord) (o : Option TargetOperationRecord) : Type 0 where
  pub now_row : TargetOperationRecord
  pub found : o ≡ some now_row
  pub moved : (now_row ≡ row) ⊎ (row.version < now_row.version)
  pub final : row.status ≡ succeeded → now_row ≡ row
  pub same_intent : intent_of now_row ≡ intent_of row

Later-same :
    (row : TargetOperationRecord) (o : Option TargetOperationRecord) → o ≡ some row → Later row o
Later-same row o h = record {
  now_row = row;
  found = h;
  moved = inl refl;
  final = λ _. refl;
  same_intent = refl;
}

allowed-ne-succeeded :
    (a b : TargetOperationStatus) → allowed a b ≡ true → a ≡ succeeded → {T : Type 0} → T
allowed-ne-succeeded a b ok final = absurd (ground arith)

changed-Later :
    (row : TargetOperationRecord) (now : DateTime) (c : Change)
    → allowed row.status c.status ≡ true
    → Later row (some (changed (row.version + 1) now c row))
unfolding intent_of
changed-Later row now c ok = record {
  now_row = changed (row.version + 1) now c row;
  found = refl;
  moved = inr (omega arith);
  final = λ s. allowed-ne-succeeded row.status c.status ok s;
  same_intent = refl;
}

pub Write-Later :
    {db db' : Journal} (key : Text) (row : TargetOperationRecord)
    → Write db db'
    → get key db.operations ≡ some row
    → Later row (get key db'.operations)
unfolding insert_event
Write-Later key row (first k intent run attempt now absent) h =
    Later-same row _ (rw get-put (ground (arith, ==_iff k key)))
Write-Later {db} key row (next k row' now c present ok) h = elim (Bool-cases (k == key)) [
  | inr other ↦ Later-same row _ (rw (get-put, other) h)
  | inl same ↦
      let e : row' ≡ row = cc (present, h, (==_iff k key).0 same) in
      rw (get-put, same)
        (subst (λ r. Later r (some (changed (row'.version + 1) now c row'))) e
          (changed-Later row' now c ok))
]

Later-trans :
    {row : TargetOperationRecord} {o : Option TargetOperationRecord} (a : Later row o)
    (p : Option TargetOperationRecord)
    → Later a.now_row p
    → Later row p
Later-trans a p b = record {
  now_row = b.now_row;
  found = b.found;
  moved = ground (arith, a.moved, b.moved);
  final = λ s. b.final (ap (λ (r : TargetOperationRecord). r.status) (a.final s) ∙ s) ∙ a.final s;
  same_intent = b.same_intent ∙ a.same_intent;
}

pub Reach-Later :
    {db db' : Journal} (key : Text) (row : TargetOperationRecord)
    → Reach db db'
    → get key db.operations ≡ some row
    → Later row (get key db'.operations)
Reach-Later key row here h = Later-same row _ h
Reach-Later key row (more r w) h =
    let a = Reach-Later key row r h in Later-trans a _ (Write-Later key a.now_row w a.found)
