-- ===== src/Cdc/Checkpoint.antt =====
-- CDCCheckpointTransition of capture/cdc.py.
use fabric_data_framework.Prelude.{
  ◌≡◌, sym, ap, ◌∙◌, true, false, not, Option, none, some, List, [], ◌∷◌, ◌&&◌, ◌⊎◌, inl, inr,
  list_eq, nat_eq, ◌==◌, ==_iff, Text, ℕ, Result, ok, raise, ◌>>◌, raise_if, Option-cases,
  Bool-cases, >>=-eq-ok, arith,
}
use fabric_data_framework.Prelude.Order.{lex_lt}
use fabric_data_framework.Cdc.Contract.{
  CdcError, contract_error, CdcSourcePosition, CdcCheckpoint, StateCommitGate, can_advance_state,
  position_for, find_position, same_checkpoint, same_checkpoint-eq,
}

pub record CdcCheckpointTransition : Type 0 where
  pub before : Option CdcCheckpoint
  pub after : CdcCheckpoint
  pub gate : StateCommitGate

unfoldable pub not_regressed : CdcCheckpoint → CdcSourcePosition → Result CdcError Unit
not_regressed after previous = elim (position_for previous.partition after) [
  | none ↦ raise contract_error
  | some next_position ↦ raise_if (lex_lt next_position previous.values) contract_error
]

unfoldable pub none_regressed : CdcCheckpoint → List CdcSourcePosition → Result CdcError Unit
none_regressed after [] = ok tt
none_regressed after (previous ∷ rest) = not_regressed after previous >> none_regressed after rest

unfoldable pub check_advance :
    Option CdcCheckpoint → CdcCheckpoint → StateCommitGate → Result CdcError Unit
check_advance none after gate = raise_if (not (can_advance_state gate)) contract_error
check_advance (some before) after gate =
    none_regressed after before.positions
    >> raise_if (not (same_checkpoint after before) && not (can_advance_state gate)) contract_error

-- `CDCCheckpointTransition.validate_transition`
unfoldable pub validate_transition :
    CdcCheckpointTransition → Result CdcError CdcCheckpointTransition
validate_transition t = check_advance t.before t.after t.gate >> ok t

-- The position that the earlier checkpoint gives to a partition is not above the later one's.
pub record AtLeast (after : CdcCheckpoint) (partition : Text) (previous : List ℕ) : Type 0 where
  pub next_position : List ℕ
  pub found : position_for partition after ≡ some next_position
  pub kept : lex_lt next_position previous ≡ false

none_regressed-AtLeast :
    (after : CdcCheckpoint) (items : List CdcSourcePosition) (partition : Text) (previous : List ℕ)
    → none_regressed after items ≡ ok tt
    → find_position partition items ≡ some previous
    → AtLeast after partition previous
unfolding none_regressed not_regressed find_position
none_regressed-AtLeast after [] partition previous h f = cc
none_regressed-AtLeast after (item ∷ items) partition previous h f =
    let (u, first, rest) = >>=-eq-ok (not_regressed after item) _ h in
    elim (Bool-cases (item.partition == partition)) [
      | inr other ↦ none_regressed-AtLeast after items partition previous rest (rw other at f)
      | inl same ↦ elim (Option-cases (position_for item.partition after)) [
        | inl absent ↦ ground arith
        | inr (next, present) ↦
            let here : partition ≡ item.partition =
              ground (arith, ==_iff item.partition partition) in
            let value : item.values ≡ previous = ground arith in
            record {
              next_position = next;
              found = cc;
              kept = rw (← value) (ground (arith, Bool-cases (lex_lt next item.values)));
            }
      ]
    ]

-- A checkpoint transition that is valid drops no partition and moves none backwards: each position of
-- the checkpoint before has a position of its partition in the checkpoint after which is not below it.
pub transition_keeps_positions :
    (t r : CdcCheckpointTransition) (before : CdcCheckpoint) (partition : Text) (previous : List ℕ)
    → validate_transition t ≡ ok r
    → t.before ≡ some before
    → position_for partition before ≡ some previous
    → AtLeast r.after partition previous
unfolding validate_transition check_advance position_for
transition_keeps_positions t r before partition previous h b p =
    let (u, checked, same) = >>=-eq-ok (check_advance t.before t.after t.gate) _ h in
    let (v, none_back, rest) =
      >>=-eq-ok (none_regressed t.after before.positions) _ (rw b at checked) in
    let e : t ≡ r = cc in
    rw (← e) (none_regressed-AtLeast t.after before.positions partition previous none_back p)

-- A checkpoint transition that is valid leaves the checkpoint as it was, unless the target is
-- committed, the batch is not quarantined, and reconciliation has passed where it is required.
pub transition_is_gated :
    (t r : CdcCheckpointTransition)
    → validate_transition t ≡ ok r
    → (t.before ≡ some r.after)
      ⊎ ((r.gate.target_committed ≡ true)
          × (r.gate.batch_quarantined ≡ false)
          × ((r.gate.reconciliation_required ≡ false) ⊎ (r.gate.reconciliation_passed ≡ true)))
unfolding validate_transition check_advance can_advance_state
transition_is_gated t r h =
    let (u, checked, same) = >>=-eq-ok (check_advance t.before t.after t.gate) _ h in
    let e : t ≡ r = cc in
    rw (← e) (elim (Option-cases t.before) [
      | inl first ↦ inr (ground arith)
      | inr (before, b) ↦
          let (v, none_back, rest) =
            >>=-eq-ok (none_regressed t.after before.positions) _ (rw b at checked) in
          elim (Bool-cases (same_checkpoint t.after before)) [
            | inl equal ↦ inl (b ∙ ap some (sym (same_checkpoint-eq t.after before equal)))
            | inr changed ↦ inr (ground arith)
          ]
    ])
