-- ===== src/CurrentState/Wrappers.antt =====
-- apply_scd1 of apply/scd1.py and apply_upsert of apply/upsert.py: the ordered current-state apply
-- under two names, with the policy that both take where none is given.
use fabric_data_framework.Prelude.{Option, none, some, List, Text, Result}
use fabric_data_framework.Values.{PyValue, Row}
use fabric_data_framework.CurrentState.Apply.{
  ApplyError, CurrentStateApplyPolicy, CurrentStateApplyResult, default_policy,
  apply_ordered_current_state,
}

abbrev policy_or_default : Option CurrentStateApplyPolicy → CurrentStateApplyPolicy
policy_or_default none = default_policy
policy_or_default (some policy) = policy

module _ {V : Type 0} (py : PyValue V) where
  abbrev Apply : Type 0
  Apply =
      List (Row V)
      → List (Row V)
      → List Text
      → List Text
      → Option CurrentStateApplyPolicy
      → Result ApplyError (CurrentStateApplyResult V)

  unfoldable pub apply_scd1 : Apply
  unfolding apply_ordered_current_state
  apply_scd1 existing_rows incoming_rows merge_key ordering_columns policy =
      apply_ordered_current_state py existing_rows incoming_rows merge_key ordering_columns
        (policy_or_default policy)

  unfoldable pub apply_upsert : Apply
  unfolding apply_ordered_current_state
  apply_upsert existing_rows incoming_rows merge_key ordering_columns policy =
      apply_ordered_current_state py existing_rows incoming_rows merge_key ordering_columns
        (policy_or_default policy)
