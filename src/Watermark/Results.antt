-- ===== src/Watermark/Results.antt =====
-- What plan_watermark_batch of capture/watermark.py promises, alone and with WatermarkTransition of
-- contracts/runtime.py.
use fabric_data_framework.Prelude.{
  In, All-of-map, ◌≡◌, subst, ◌⊎◌, inl, inr, false, Option, none, some, List, [], ◌∷◌, nat_eq, All,
  All-map, All-zip, ok,
}
use fabric_data_framework.Values.{Row}
use fabric_data_framework.Watermark.Position.{Numbers, Scalar, WatermarkPosition}
use fabric_data_framework.Watermark.Capture.{
  WatermarkConfig, WatermarkBatch, Item, position_for_row, positioned, sort_items, is_after,
  selected_after, selected, check_before, batch_of, plan_watermark_batch,
}
use fabric_data_framework.Watermark.Comparing.{IsWeakOrder}
use fabric_data_framework.Watermark.Sorting.{Le, sort_items-All}
use fabric_data_framework.Watermark.Batch.{IsPositioned, positioned-IsPositioned, select_none}
use fabric_data_framework.Watermark.Selection.{Under, IsCommitted}
use fabric_data_framework.Watermark.Planned.{Follows, plan-IsPlanned, Covered, plan_covers}
use fabric_data_framework.Watermark.Checked.{after_checked}

module _ {V N : Type 0} (py : Numbers N) (read : V → Scalar N) where
  is_after_under :
      (a : WatermarkPosition N) (item : Item py read)
      → Le py item.1 a
      → is_after py read a item ≡ ok false
  is_after_under a item (inl h) = rw h
  is_after_under a item (inr h) = rw h

  -- Planning again over sorted items that all stand at or below the position.
  replan :
      (weak : IsWeakOrder py.less) (rows : List (Row V)) (config : WatermarkConfig)
      (items sorted : List (Item py read)) (after : Option (WatermarkPosition N))
      → config.overlap_window_seconds ≡ 0
      → check_before py read config after ≡ ok tt
      → positioned py read config rows ≡ ok items
      → sort_items py read items ≡ ok sorted
      → All (λ i. Under py i.1 after) sorted
      → plan_watermark_batch py read rows config after
        ≡ ok (record { rows = []; before = after; after = after })
  unfolding plan_watermark_batch selected selected_after batch_of
  replan weak rows config items [] none exact checked placed in_order all = rw (placed, in_order)
  replan weak rows config items (item ∷ sorted) none exact checked placed in_order (no_item, all) =
      absurd no_item
  replan weak rows config items sorted (some a) exact checked placed in_order all =
      let none_after =
        select_none py read weak (is_after py read a) sorted
          (All-map _ _ sorted (λ i under. is_after_under a i under) all) in
      simp (checked, placed, in_order, exact, none_after)

  -- A row with a position, in the batch or not above the old position, and not above the next one.
  abbrev pub IsCaptured :
      WatermarkConfig → Option (WatermarkPosition N) → WatermarkBatch V N → Row V → Type 0
  IsCaptured config before batch row =
      (p : WatermarkPosition N) × (position_for_row py read config row ≡ ok p)
      × (In row batch.rows ⊎ Under py p before)
      × Under py p batch.after

  -- Where the order of finite numbers is a strict weak order and the committed position compares with
  -- itself, a planned batch misses no row: each source row has a position, is in the batch or stands
  -- at or below the committed position, and stands at or below the next position; and the next
  -- position is the committed one or above it, or absent where there is none and no row.
  pub rows-IsCaptured :
      (weak : IsWeakOrder py.less) (rows : List (Row V)) (config : WatermarkConfig)
      (before : Option (WatermarkPosition N)) (batch : WatermarkBatch V N)
      → IsCommitted py before
      → plan_watermark_batch py read rows config before ≡ ok batch
      → All (IsCaptured config before batch) rows × Follows py read weak before batch.after
  rows-IsCaptured weak rows config before batch c h =
      let m = plan-IsPlanned py read weak rows config before batch h in
      let (covered, bounded) = plan_covers py read weak rows config before batch c m in
      let (valid, named) = positioned-IsPositioned py read weak config rows m.items m.placed in
      let (into, from) =
        sort_items-All py read weak (λ i. Covered py read weak before batch i.1 i.0) m.items
          m.sorted m.in_order in
      (
        subst (All (IsCaptured config before batch)) named (
            All-of-map (IsCaptured config before batch) (λ i. i.0) m.items
              (All-zip (IsPositioned py read weak config) _ _ m.items
                (λ i p c. (i.1, p.0, c.0, c.1)) valid (from covered))),
        bounded.4,
      )

  -- Where there is no overlap, planning the same rows from the next position selects nothing and
  -- keeps that position, under the same conditions.
  pub replan_is_empty :
      (weak : IsWeakOrder py.less) (rows : List (Row V)) (config : WatermarkConfig)
      (before : Option (WatermarkPosition N)) (batch : WatermarkBatch V N)
      → IsCommitted py before
      → config.overlap_window_seconds ≡ 0
      → plan_watermark_batch py read rows config before ≡ ok batch
      → plan_watermark_batch py read rows config batch.after
        ≡ ok (record { rows = []; before = batch.after; after = batch.after })
  replan_is_empty weak rows config before batch c exact h =
      let m = plan-IsPlanned py read weak rows config before batch h in
      let (covered, bounded) = plan_covers py read weak rows config before batch c m in
      replan weak rows config m.items m.sorted batch.after exact
        (after_checked py read weak rows config before batch m) m.placed m.in_order
        (All-map (λ i. Covered py read weak before batch i.1 i.0) _ m.sorted (λ i p. p.1) covered)
