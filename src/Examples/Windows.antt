-- ===== src/Examples/Windows.antt =====
-- cdc.py on concrete windows of rows whose values are numbers.
use fabric_data_framework.Prelude.{
  ℕ, ◌≡◌, ◌⊎◌, refl, true, false, Option, none, some, List, [], ◌∷◌, All, nat_eq, list_eq, Text,
  text, ok,
}
use fabric_data_framework.Prelude.Dict.{get, put}
use fabric_data_framework.Prelude.Sort.{insert_with, sort_with}
use fabric_data_framework.Prelude.Order.{lex_lt}
use fabric_data_framework.Values.{Row}
use fabric_data_framework.Cdc.Contract.{
  update, CdcCheckpoint, CdcEvent, CdcNormalizedBatch, StateCommitGate, can_advance_state,
  validate_positions, find_position, position_for, same_checkpoint,
}
use fabric_data_framework.Cdc.Normalize.{
  validate_partition, validate_partitions, validate_window, event_below, is_committed, check_upper,
  claim_position, accept_event, place_event, fresh_event, read_event, read_events,
  normalize_cdc_batch,
}
use fabric_data_framework.Cdc.Checkpoint.{
  CdcCheckpointTransition, AtLeast, not_regressed, none_regressed, check_advance,
  validate_transition, transition_keeps_positions, transition_is_gated,
}
use fabric_data_framework.Cdc.Loop.{InWindow}
use fabric_data_framework.Cdc.Window.{events-InWindow}
use fabric_data_framework.Cdc.Rerun.{reread_is_empty}

abbrev part : Text
part = text "p"

abbrev checkpoint : ℕ → CdcCheckpoint
checkpoint n = record { positions = (record { partition = part; values = n ∷ [] }) ∷ [] }

abbrev event : Text → ℕ → CdcEvent ℕ
event name n = record {
  event_id = name;
  operation = update;
  key = (text "id", 1) ∷ [];
  position = record { partition = part; values = n ∷ [] };
  before = none;
  after = some ((text "id", 1) ∷ []);
  event_time = none;
  transaction_id = none;
  metadata = [];
}

-- Stand-ins for the hashes.
abbrev content_hash : CdcEvent ℕ → Text
content_hash e = e.position.values

abbrev key_hash : Row ℕ → Text
key_hash [] = []
key_hash ((name, v) ∷ row) = v ∷ key_hash row

abbrev events : List (CdcEvent ℕ)
events = event (text "c") 7 ∷ event (text "a") 3 ∷ event (text "c") 7 ∷ event (text "b") 5 ∷ []

abbrev batch : CdcNormalizedBatch ℕ
batch = record {
  events = event (text "b") 5 ∷ event (text "c") 7 ∷ [];
  lower_checkpoint = some (checkpoint 3);
  upper_checkpoint = checkpoint 9;
  duplicate_events_ignored = 1;
  already_committed_events_ignored = 1;
}

normalized :
    normalize_cdc_batch content_hash key_hash events (checkpoint 9) (some (checkpoint 3)) true
    ≡ ok batch
unfolding normalize_cdc_batch validate_window validate_partitions validate_partition position_for
    find_position lex_lt read_events read_event fresh_event claim_position check_upper place_event
    is_committed accept_event get put sort_with insert_with event_below
normalized = refl

events-InWindow_example :
    All (InWindow (checkpoint 9) (some (checkpoint 3))) batch.events
    × ((partition_of : Text → Option Text) × All
          (λ e. partition_of (key_hash e.key) ≡ some e.position.partition)
          batch.events)
events-InWindow_example =
    events-InWindow content_hash key_hash events (checkpoint 9) (some (checkpoint 3)) true batch
      normalized

reread_is_empty_example :
    normalize_cdc_batch content_hash key_hash events (checkpoint 9) (some (checkpoint 9)) true
    ≡ ok (record {
      events = [];
      lower_checkpoint = some (checkpoint 9);
      upper_checkpoint = checkpoint 9;
      duplicate_events_ignored = 1;
      already_committed_events_ignored = 3;
    })
unfolding validate_positions sort_with insert_with
reread_is_empty_example =
    reread_is_empty content_hash key_hash (checkpoint 9) (some (checkpoint 3)) events true batch
      refl normalized

abbrev open_gate : StateCommitGate
open_gate = record {
  target_committed = true;
  reconciliation_required = true;
  reconciliation_passed = true;
  batch_quarantined = false;
}

abbrev advance : CdcCheckpointTransition
advance = record { before = some (checkpoint 3); after = checkpoint 9; gate = open_gate }

transition_keeps_positions_example : AtLeast (checkpoint 9) part (3 ∷ [])
unfolding validate_transition check_advance none_regressed not_regressed position_for find_position
    lex_lt same_checkpoint can_advance_state
transition_keeps_positions_example =
    transition_keeps_positions advance advance (checkpoint 3) part (3 ∷ []) refl refl refl

transition_is_gated_example :
    (advance.before ≡ some advance.after)
    ⊎ ((open_gate.target_committed ≡ true)
        × (open_gate.batch_quarantined ≡ false)
        × ((open_gate.reconciliation_required ≡ false) ⊎ (open_gate.reconciliation_passed ≡ true)))
unfolding validate_transition check_advance none_regressed not_regressed position_for find_position
    lex_lt same_checkpoint can_advance_state
transition_is_gated_example = transition_is_gated advance advance refl
