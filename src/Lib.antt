-- ===== src/Lib.antt =====
-- The core of the Fabric data framework: the durable journals, leases and checkpoints that decide
-- whether a dataset run may change its target, and the pure rules of what it writes there.
--
-- Parts and files (paths from the repository's root, under src/fabric_data_framework/):
--
--   TargetOperation: control_plane/target_operation_journal.py and contracts/target_operation.py.
--   Contract holds the records and validators, Store the two tables and the guarded write,
--   Journal claim_target_operation, Transitions the calls transition_target_operation,
--   mark_target_operation_* and reconcile_target_operation, under the source's names. Steps gives the atomic writes of the
--   tables as a step relation, Calls any sequence of calls of any processes; Safety, Claims,
--   Progress and Races hold the results.
--   Lease: control_plane/dataset_lease.py and control_plane/dataset_lease_recovery.py; the results
--   are in Lease/Exclusion.
--   Cutover: contracts/target_version.py and recovery/target_cutover.py. Contract has the records and
--   the adapter's protocol, Memory InMemoryTargetCutoverAdapter, Execute execute_target_cutover over
--   any adapter; Promotion has the results.
--   Temporal: quality/temporal.py, and CurrentState: apply/current_state.py, which uses it. Apply is
--   the code, Spec the description of one key's fate, Refinement and Rerun the results. Wrappers has
--   apply_scd1 and apply_upsert, which pass their arguments on to it.
--   Cdc: capture/cdc.py, with StateCommitGate of contracts/runtime.py. Contract has the records,
--   Normalize the loop of normalize_cdc_batch, Checkpoint the transition of a checkpoint; Loop and
--   Window hold what a batch is, Rerun what a second reading gives.
--   CdcApply: apply_cdc_current_state of apply/cdc.py. Rows has keys, orders and candidate rows, Write
--   what an event does to a row, Apply the loop, Tally what one event counts, Counts the result.
--   Planner: orchestration/planner.py with the types that it reads. Config has the types, Grouping the
--   dicts of lists, Overrides the runtime overrides of metadata/config.py, Policy
--   contracts/group_policy.py, Build build_dispatch_plan, Graph _validate_dependency_graph, Schedule
--   blocking_dependencies, ready_dataset_ids and aggregate_pipeline_status. Winners and Governing are
--   about the overrides, Choosing, Limits and Selection about the plan, Total about its fuel;
--   Topology, Depth and Waves hold the results on the graph and the waves.
--   Recovery: recovery/runtime.py, contracts/recovery.py and the scopes of contracts/rebuild.py. Contract
--   has the records and their validation, Runtime the classification of failures, the backoff and the
--   calls that a run makes, Attempt one attempt of execute_with_retry, Retry the loop; Story says what
--   is asked of the calls, Settle goes through one attempt, Attempts through the loop, Results has the
--   results.
--   Rebuild: recovery/rebuild_impact.py and contracts/rebuild_impact.py. Graph has _validate_graph,
--   Impact _downstream_descendants and _build_waves, Build build_rebuild_impact_plan. Edges and Reach
--   are about the search, Waves about the waves, Planning about the stages of a plan, Termination,
--   Validation and Progress about fuel; Results and Progress hold the results.
--   Dispatcher: orchestration/dispatcher.py. Contract has the records and texts, Loop the loop over the
--   waves, Dispatch dispatch_datasets_with_backend; Rule is a rule for the loop, Ends and Shapes use
--   it, Results has the results.
--   Snapshot: apply/snapshot_diff.py and capture_full_snapshot of capture/full.py. Contract has the
--   records, Plan plan_snapshot_diff; Index is about the dicts of rows, Keys about the sets of keys,
--   Made about the stages of a plan, and Results has the results.
--   Append: apply/append.py and contracts/append.py. Contract has identities, fingerprints and
--   decorated rows, Apply the three loops of apply_append; Counts is about its counters, Order about
--   what it collects, Decorated and Handled about what a run leaves, and Rerun has the result.
--   Watermark: the watermark positions of contracts/runtime.py and capture/watermark.py. Position has
--   the scalars, their comparison and the transition, Capture plan_watermark_batch; Comparing and Order
--   are about the order of positions, Sorting, Batch, Selection, Following, Planned and Checked about
--   the stages of a plan, and Results has the results.
--   Prelude has texts as lists of code points, Python's dict, sorted and the order of tuples; Time is
--   contracts/temporal.py; Values says what is asked of the values in a row; Examples applies the
--   results to concrete inputs.
--
-- How the parts meet in the program: the planner chooses the datasets that may start and the dispatcher
-- hands them to a backend in waves; a run is attempted under the retry runtime, takes the dataset's
-- lease, normalizes its window, applies the rows, and claims the target operation before it
-- writes; only after the target is committed and reconciled does the checkpoint move; a cutover
-- switches a rebuilt target, and a rebuild plan says which targets have to be rebuilt, in which order.
--
-- State and concurrency: the tables are records of lists, and each call is a function from the tables
-- to a result and the tables after it. A transaction that fails leaves the tables as the other writers
-- left them. What other writers do between a call's read and its write is a function that the call is
-- given (Others, before_read, before_write, between): a result is stated for every such function, or for
-- those that keep to atomic writes of the same code where it says so.
--
-- Calls: where a function calls its collaborators in turn (a repository, an attempt, a resolver, a
-- backend), its model is the list of those calls and the way it ends (Recovery/Runtime.Run and
-- Dispatcher/Contract.Run), and what the collaborators reply is an argument. A call of the retry
-- runtime's repository is taken to return; the dispatcher's may raise.
--
-- Parameters: SHA-256 over canonical JSON (digest, content_hash, key_hash, hash_dict,
-- hash_tuple), the values of rows (PyValue: null, ==, <, repr and the stripping of texts, which
-- pydantic does to the texts of the models; the leases take it as strip), how partitions, integers
-- and positions stand among them (CdcValues), str, texts as values and the test for collections
-- (AppendValues), the clock, the cutover adapter, floating-point numbers (times, power, less, over),
-- sanitize_audit_text, and the hashes of configurations and group policies. The capabilities of the
-- engines, an argument of build_dispatch_plan, are a test on configurations (PlanRequest.supports).
-- Identifiers of runs and requests are numbers, those of overrides their texts. Error messages are
-- not modelled, the classes of errors are.
--
-- Fuel: the depth-first searches of Planner/Graph and Rebuild/Graph use fuel, one more than the number
-- of datasets: a path of a search never enters a dataset twice. The search and the waves of
-- Rebuild/Impact and the loop of Dispatcher/Loop use as much as there are datasets, since each turn
-- takes one from the queue that was not there before, or leaves fewer. The loop of execute_with_retry
-- is structural recursion on the attempts that are left, as all other loops are on their lists.
--
-- Not modelled: SQLAlchemy and the database itself beyond the rows, the adapters to Fabric and to CDC
-- providers, the command line, certification, evidence and deployment; and, of the parts above,
-- the in-process backend, build_cdc_checkpoint, the limits of RetryPolicy's
-- fields, the reading of journal events, and the in-memory targets of the apply modules, which copy the rows
-- they hold.
pub mod Prelude
pub mod Time
pub mod TargetOperation
pub mod Lease
pub mod Cutover
pub mod Values
pub mod Temporal
pub mod CurrentState
pub mod Cdc
pub mod CdcApply
pub mod Planner
pub mod Recovery
pub mod Rebuild
pub mod Dispatcher
pub mod Snapshot
pub mod Append
pub mod Watermark
pub mod Examples
