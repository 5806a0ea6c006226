-- ===== src/Examples/Leases.antt =====
-- dataset_lease.py and dataset_lease_recovery.py on concrete tables.
use fabric_data_framework.Prelude.{
  ◌≤◌, ◌≡◌, ◌≢◌, refl, true, some, List, [], ◌∷◌, ◌++◌, Text, text, nat_eq, list_eq, ok,
}
use fabric_data_framework.Prelude.Dict.{get, put, remove}
use fabric_data_framework.Time.{aware, aware_time}
use fabric_data_framework.Examples.Texts.{strip_spaces}
use fabric_data_framework.Lease.{
  DatasetLeaseState, new_lease, Leases, Recovery, recovery_event, expected_exact,
  acquire_dataset_lease, release_dataset_lease, recover_abandoned_dataset_lease, delete_recovered,
}
use fabric_data_framework.Lease.Exclusion.{
  LeaseCall, acquire, release, recover, calls, Held, mutual_exclusion, release-acquire,
  recovery_exact,
}

abbrev orders : Text
orders = text "orders"

abbrev held : DatasetLeaseState
held = new_lease orders (text "a") 7 (aware 10) (aware 50)

abbrev other : DatasetLeaseState
other = new_lease orders (text "b") 8 (aware 10) (aware 50)

abbrev table : Leases
table = record { leases = (orders, held) ∷ []; recoveries = [] }

abbrev no_leases : Leases
no_leases = record { leases = []; recoveries = [] }

abbrev expected : Recovery
expected = record {
  dataset_id = orders;
  expected_lease_owner = text "a";
  expected_dataset_run_id = 7;
  expected_lease_version = 1;
  recovered_by = text "operator";
  reason = text "crash";
  proof_reference = text "ticket";
}

-- Another process releases a lease of its own, tries to acquire the dataset, and recovers too early.
abbrev attempts : List LeaseCall
attempts =
    release other
    ∷ acquire (λ db. db) (aware 30) orders (text "b") 8 (aware 60)
    ∷ recover (λ db. db) (aware 40) expected
    ∷ []

mutual_exclusion_example :
    Held held (calls strip_spaces attempts table)
    × ((acquire_dataset_lease strip_spaces
          (λ db. db)
          (aware 41)
          orders
          (text "b")
          8
          (aware 60)
          (calls strip_spaces attempts table)).0
        ≢ ok other)
unfolding get
mutual_exclusion_example =
    mutual_exclusion strip_spaces held attempts table (λ db. db) (aware 41) (text "b") 8 (aware 60)
      other (refl, (λ db h. h, ((λ db h. h, refl), tt))) refl

release-acquire_example :
    ((release_dataset_lease held table).0 ≡ ok tt)
    × ((other_id : Text)
        → get other_id (release_dataset_lease held table).1.leases ≡ get other_id no_leases.leases)
unfolding acquire_dataset_lease get put
release-acquire_example =
    release-acquire strip_spaces (λ db. db) (aware 10) orders (text "a") 7 (aware 50) no_leases
      table held refl refl refl

recovery_exact_example :
    (row read : DatasetLeaseState) × (get orders table.leases ≡ some read)
    × (50 ≤ 60)
    × (aware 50 ≡ aware_time read.expires_at)
    × (get orders table.leases ≡ some row)
    × (expected_exact expected row ≡ true)
    × ((recover_abandoned_dataset_lease strip_spaces (λ db. db) (aware 60) expected table).1
        ≡ record table {
          leases = remove orders table.leases;
          recoveries = [] ++ recovery_event strip_spaces expected (aware 50) (aware 60) ∷ [];
        })
unfolding recover_abandoned_dataset_lease delete_recovered get
recovery_exact_example =
    recovery_exact strip_spaces (λ db. db) (aware 60) expected table
      (recovery_event strip_spaces expected (aware 50) (aware 60)) refl
