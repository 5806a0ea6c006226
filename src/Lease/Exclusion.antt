-- ===== src/Lease/Exclusion.antt =====
-- Mutual exclusion by the leases of dataset_lease.py and dataset_lease_recovery.py.
use fabric_data_framework.Prelude.{
  ℕ, ◌≤◌, ◌≡◌, ◌≢◌, refl, true, false, ◌&&◌, none, some, List, [], ◌∷◌, ◌++◌, leb, ◌==◌, ==_iff,
  ==_refl, nat_eq, list_eq, Text, ok, raise, All, arith, Bool-cases, Option-cases, inl, inr,
}
use fabric_data_framework.Prelude.Dict.{get, put, remove, get-put, get-remove}
use fabric_data_framework.Time.{DateTime, instant, aware_time}
use fabric_data_framework.Lease.{
  DatasetLeaseState, release_conflict, new_lease, Leases, DatasetLeaseRecoveryEvent, Recovery,
  acquire_dataset_lease, release_dataset_lease, recover_abandoned_dataset_lease, exact,
  expected_exact,
}

abbrev pub Held : DatasetLeaseState → Leases → Type 0
Held lease db = get lease.dataset_id db.leases ≡ some lease

-- One call by some process, with what others do meanwhile.
pub data LeaseCall : Type 0 where
  acquire : (Leases → Leases) → DateTime → Text → Text → ℕ → DateTime → LeaseCall
  release : DatasetLeaseState → LeaseCall
  recover : (Leases → Leases) → DateTime → Recovery → LeaseCall

pub call : (strip : Text → Text) → LeaseCall → Leases → Leases
call strip (acquire before_read now ds owner run deadline) db =
    (acquire_dataset_lease strip before_read now ds owner run deadline db).1
call strip (release lease) db = (release_dataset_lease lease db).1
call strip (recover before_write now q) db =
    (recover_abandoned_dataset_lease strip before_write now q db).1

pub calls : (strip : Text → Text) → List LeaseCall → Leases → Leases
calls strip [] db = db
calls strip (c ∷ cs) db = calls strip cs (call strip c db)

abbrev Keeps : DatasetLeaseState → (Leases → Leases) → Type 0
Keeps lease f = (db : Leases) → Held lease db → Held lease (f db)

-- The call neither releases exactly this lease nor recovers it after its deadline, and what others
-- do meanwhile keeps the lease.
abbrev pub Harmless : DatasetLeaseState → LeaseCall → Type 0
Harmless lease (acquire before_read now ds owner run deadline) = Keeps lease before_read
Harmless lease (release other) =
    (other.dataset_id == lease.dataset_id
      && exact other.lease_owner other.dataset_run_id other.lease_version lease)
    ≡ false
Harmless lease (recover before_write now q) =
    Keeps lease before_write
    × ((q.dataset_id == lease.dataset_id
          && expected_exact q lease
          && leb (instant (aware_time lease.expires_at)) (instant now))
        ≡ false)

module _ (strip : Text → Text) (lease : DatasetLeaseState) where
  acquire-Held :
      (before_read : Leases → Leases) (now : DateTime) (ds owner : Text) (run : ℕ)
      (deadline : DateTime)
      → Keeps lease before_read
      → Keeps lease (call strip (acquire before_read now ds owner run deadline))
  unfolding call acquire_dataset_lease
  acquire-Held before_read now ds owner run deadline kept db h = ground (
    arith,
    kept db h,
    ==_iff ds lease.dataset_id,
    get-put ds lease.dataset_id (new_lease ds owner run now deadline) db.leases,
  )

  release-Held :
      (other : DatasetLeaseState)
      → Harmless lease (release other)
      → Keeps lease (call strip (release other))
  unfolding call release_dataset_lease
  release-Held other harmless db h = ground (
    arith,
    ==_iff other.dataset_id lease.dataset_id,
    get-remove other.dataset_id lease.dataset_id db.leases,
  )

  recover-Held :
      (before_write : Leases → Leases) (now : DateTime) (q : Recovery)
      → Harmless lease (recover before_write now q)
      → Keeps lease (call strip (recover before_write now q))
  unfolding call recover_abandoned_dataset_lease
  recover-Held before_write now q (kept, harmless) db h = ground (
    arith,
    kept db h,
    ==_iff q.dataset_id lease.dataset_id,
    get-remove q.dataset_id lease.dataset_id (before_write db).leases,
  )

  call-Held : (c : LeaseCall) → Harmless lease c → Keeps lease (call strip c)
  call-Held (acquire before_read now ds owner run deadline) kept =
      acquire-Held before_read now ds owner run deadline kept
  call-Held (release other) harmless = release-Held other harmless
  call-Held (recover before_write now q) harmless = recover-Held before_write now q harmless

  calls-Held : (cs : List LeaseCall) → All (Harmless lease) cs → Keeps lease (calls strip cs)
  unfolding calls
  calls-Held [] harmless db h = h
  calls-Held (c ∷ cs) harmless db h =
      calls-Held cs harmless.1 (call strip c db) (call-Held c harmless.0 db h)

-- While a lease is held, no sequence of calls by any processes removes or replaces it, unless one
-- releases exactly this lease, or recovers exactly this lease at or after its review deadline; and
-- after any such harmless calls no process acquires the dataset. What others do within a call must
-- keep the lease as well.
pub mutual_exclusion :
    (strip : Text → Text) (lease : DatasetLeaseState) (cs : List LeaseCall) (db : Leases)
    (before_read : Leases → Leases) (now : DateTime) (owner : Text) (run : ℕ) (deadline : DateTime)
    (taken : DatasetLeaseState)
    → All (Harmless lease) cs
    → Held lease db
    → Held lease (calls strip cs db)
      × ((acquire_dataset_lease strip before_read now lease.dataset_id owner run deadline
            (calls strip cs db)).0
          ≢ ok taken)
unfolding acquire_dataset_lease
mutual_exclusion strip lease cs db before_read now owner run deadline taken harmless h =
    let held = calls-Held strip lease cs harmless db h in (held, λ e. ground arith)

acquire_cases :
    (strip : Text → Text) (before_read : Leases → Leases) (now : DateTime) (ds owner : Text)
    (run : ℕ) (deadline : DateTime) (db db' : Leases) (lease : DatasetLeaseState)
    → acquire_dataset_lease strip before_read now ds owner run deadline db ≡ (ok lease, db')
    → (get ds db.leases ≡ none)
      × (lease ≡ new_lease (strip ds) (strip owner) run now deadline)
      × (db'.leases ≡ put ds (new_lease ds owner run now deadline) db.leases)
unfolding acquire_dataset_lease
acquire_cases strip before_read now ds owner run deadline db db' lease h =
    (ground arith, ground arith, ground arith)

exact_self : (l : DatasetLeaseState) → exact l.lease_owner l.dataset_run_id l.lease_version l ≡ true
exact_self l =
    ground (arith, ==_refl l.lease_owner, ==_refl l.dataset_run_id, ==_refl l.lease_version)

release_exact :
    (lease : DatasetLeaseState) (db : Leases)
    → Held lease db
    → release_dataset_lease lease db
      ≡ (ok tt, record db { leases = remove lease.dataset_id db.leases })
unfolding release_dataset_lease
release_exact lease db h = ground (arith, h, exact_self lease)

-- Where the dataset's name and the owner have no space around them, so that stripping leaves them:
-- releasing the lease that an acquisition returned succeeds, and gives every dataset back the lease
-- that it had before the acquisition, or none.
pub release-acquire :
    (strip : Text → Text) (before_read : Leases → Leases) (now : DateTime) (ds owner : Text)
    (run : ℕ) (deadline : DateTime) (db db' : Leases) (lease : DatasetLeaseState)
    → strip ds ≡ ds
    → strip owner ≡ owner
    → acquire_dataset_lease strip before_read now ds owner run deadline db ≡ (ok lease, db')
    → ((release_dataset_lease lease db').0 ≡ ok tt)
      × ((other : Text)
          → get other (release_dataset_lease lease db').1.leases ≡ get other db.leases)
release-acquire strip before_read now ds owner run deadline db db' lease same_ds same_owner h =
    let (free, returned, stored) =
      acquire_cases strip before_read now ds owner run deadline db db' lease h in
    let fresh = new_lease ds owner run now deadline in
    let made : lease ≡ fresh = rw (same_ds, same_owner) at returned in
    let there : get ds db'.leases ≡ some fresh = rw (stored, get-put, ==_refl) in
    let held : Held lease db' = rw made there in
    rw (release_exact lease db' held) (
      refl,
      λ other.
          rw (made, get-remove, stored, get-put)
            (elim (Bool-cases (ds == other)) [
              | inl same ↦ rw same (cc (free, (==_iff ds other).0 same))
              | inr differs ↦ rw differs refl
            ]),
    )

-- An owner with space around its name cannot release the lease that its acquisition returned.
padded_release :
    (strip : Text → Text) (before_read : Leases → Leases) (now : DateTime) (ds owner : Text)
    (run : ℕ) (deadline : DateTime) (db db' : Leases) (lease : DatasetLeaseState)
    → strip ds ≡ ds
    → (owner == strip owner) ≡ false
    → acquire_dataset_lease strip before_read now ds owner run deadline db ≡ (ok lease, db')
    → release_dataset_lease lease db' ≡ (raise release_conflict, db')
unfolding release_dataset_lease
padded_release strip before_read now ds owner run deadline db db' lease same_ds padded h =
    let (free, returned, stored) =
      acquire_cases strip before_read now ds owner run deadline db db' lease h in
    let fresh = new_lease ds owner run now deadline in
    let there : get ds db'.leases ≡ some fresh = rw (stored, get-put, ==_refl) in
    let made : lease ≡ new_lease ds (strip owner) run now deadline = rw same_ds at returned in
    rw made (rw (release_dataset_lease, there, padded) refl)

-- A governed recovery that succeeds found, when it deleted, a lease of exactly the expected owner,
-- run and version, at or after the review deadline that it read; it removes that lease, leaves
-- those of other datasets, and appends its event.
pub recovery_exact :
    (strip : Text → Text) (before_write : Leases → Leases) (now : DateTime) (q : Recovery)
    (db : Leases) (event : DatasetLeaseRecoveryEvent)
    → (recover_abandoned_dataset_lease strip before_write now q db).0 ≡ ok event
    → (row read : DatasetLeaseState) × (get q.dataset_id db.leases ≡ some read)
      × (instant event.review_deadline ≤ instant now)
      × (event.review_deadline ≡ aware_time read.expires_at)
      × (get q.dataset_id (before_write db).leases ≡ some row)
      × (expected_exact q row ≡ true)
      × ((recover_abandoned_dataset_lease strip before_write now q db).1
          ≡ record (before_write db) {
            leases = remove q.dataset_id (before_write db).leases;
            recoveries = (before_write db).recoveries ++ event ∷ [];
          })
unfolding recover_abandoned_dataset_lease
recovery_exact strip before_write now q db event h =
    elim (Option-cases (get q.dataset_id db.leases)) [
      | inl absent ↦ absurd (ground arith)
      | inr (read, seen) ↦ elim (Option-cases (get q.dataset_id (before_write db).leases)) [
        | inl gone ↦ absurd (ground arith)
        | inr (row, there) ↦
            (row, read, seen, ground arith, ground arith, there, ground arith, ground arith)
      ]
    ]
