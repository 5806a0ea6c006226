-- ===== src/Watermark/Planned.antt =====
-- The stages of a plan of plan_watermark_batch in capture/watermark.py.
use fabric_data_framework.Prelude.{
  In, In-map, All_at, ◌≡◌, refl, subst, ◌⊎◌, inl, inr, Option, none, some, List, [], ◌∷◌, map,
  nat_eq, length, All, All-map, ok, >>=-eq-ok, arith,
}
use fabric_data_framework.Values.{Row}
use fabric_data_framework.Watermark.Position.{Numbers, Scalar, WatermarkPosition}
use fabric_data_framework.Watermark.Capture.{
  WatermarkConfig, WatermarkBatch, Item, positioned, sort_items, validate_before, selected,
  check_before, last_position, after_of, batch_of, plan_watermark_batch,
}
use fabric_data_framework.Watermark.Comparing.{IsWeakOrder}
use fabric_data_framework.Watermark.Sorting.{
  Le, Le_trans, sort_items-All, sort_items-IsSorted, last_position-Le, IsSorted,
}
use fabric_data_framework.Watermark.Batch.{IsPositioned, positioned-IsPositioned}
use fabric_data_framework.Watermark.Selection.{Under, IsCommitted, Advances}
use fabric_data_framework.Watermark.Following.{selected-IsSelection, after_of-Le}

module _ {V N : Type 0} (py : Numbers N) (read : V → Scalar N) where
  pub validate_before_arity :
      (b : WatermarkPosition N) (config : WatermarkConfig)
      → validate_before py read b config ≡ ok tt
      → length b.tie_breaker ≡ length config.tie_breaker
  unfolding validate_before
  validate_before_arity b config h = ground arith

  pub validate_before_of :
      (b : WatermarkPosition N) (config : WatermarkConfig)
      → length b.tie_breaker ≡ length config.tie_breaker
      → validate_before py read b config ≡ ok tt
  unfolding validate_before
  validate_before_of b config h = ground arith

module _ {V N : Type 0} (py : Numbers N) (read : V → Scalar N) (weak : IsWeakOrder py.less) where
  -- How the next position stands to the old one.
  abbrev pub Follows : Option (WatermarkPosition N) → Option (WatermarkPosition N) → Type 0
  Follows before none = before ≡ none
  Follows before (some a) = Advances py before a

  last_position_self :
      (item : Item py read) (items : List (Item py read))
      → All (λ i. Le py i.1 i.1) (item ∷ items)
      → let last = last_position py read item.1 items in Le py last last
  last_position_self item [] (r, rs) = r
  last_position_self item (next ∷ items) (r, rs) = last_position_self next items rs

  -- What a plan was made of: the positioned rows, sorted, and those that were chosen.
  pub record IsPlanned (rows : List (Row V)) (config : WatermarkConfig)
      (before : Option (WatermarkPosition N)) (batch : WatermarkBatch V N) : Type 0 where
    pub items : List (Item py read)
    pub sorted : List (Item py read)
    pub chosen : List (Item py read)
    pub checked : check_before py read config before ≡ ok tt
    pub placed : positioned py read config rows ≡ ok items
    pub in_order : sort_items py read items ≡ ok sorted
    pub picked : selected py read config before sorted ≡ ok chosen
    pub made : batch_of py read before chosen ≡ ok batch

  pub plan-IsPlanned :
      (rows : List (Row V)) (config : WatermarkConfig) (before : Option (WatermarkPosition N))
      (batch : WatermarkBatch V N)
      → plan_watermark_batch py read rows config before ≡ ok batch
      → IsPlanned rows config before batch
  unfolding plan_watermark_batch
  plan-IsPlanned rows config before batch h =
      let (u, checked, h1) = >>=-eq-ok (check_before py read config before) _ h in
      let (items, placed, h2) = >>=-eq-ok (positioned py read config rows) _ h1 in
      let (sorted, in_order, h3) = >>=-eq-ok (sort_items py read items) _ h2 in
      let (chosen, picked, made) = >>=-eq-ok (selected py read config before sorted) _ h3 in
      record {
        items = items;
        sorted = sorted;
        chosen = chosen;
        checked = checked;
        placed = placed;
        in_order = in_order;
        picked = picked;
        made = made;
      }

  -- A batch of chosen items: its rows, and how its last position stands to them and to the old one.
  abbrev pub IsBounded :
      Option (WatermarkPosition N) → List (Item py read) → WatermarkBatch V N → Type 0
  IsBounded before chosen batch =
      (batch.before ≡ before)
      × (batch.rows ≡ map (λ i. i.0) chosen)
      × All (λ i. Under py i.1 batch.after) chosen
      × ((p : WatermarkPosition N) → Under py p before → Under py p batch.after)
      × Follows before batch.after

  batch-IsBounded :
      (before : Option (WatermarkPosition N)) (chosen : List (Item py read))
      (batch : WatermarkBatch V N)
      → IsCommitted py before
      → IsSorted py read weak chosen
      → All (λ i. Le py i.1 i.1) chosen
      → batch_of py read before chosen ≡ ok batch
      → IsBounded before chosen batch
  unfolding batch_of
  batch-IsBounded none [] batch c s r h =
      let e : record { rows = []; before = none; after = none } ≡ batch = cc in
      subst (IsBounded none []) e (refl, refl, tt, λ p u. u, refl)
  batch-IsBounded (some b) [] batch c s r h =
      let e : record { rows = []; before = some b; after = some b } ≡ batch = cc in
      subst (IsBounded (some b) []) e (refl, refl, tt, λ p u. u, inl refl)
  batch-IsBounded before (item ∷ items) batch c s r h =
      let last = last_position py read item.1 items in
      let (a, at_a, h1) = >>=-eq-ok (after_of py read before last) _ h in
      let (le, ahead, higher) =
        after_of-Le py read weak before last a c at_a (last_position_self item items r) in
      let e : record { rows = map (λ i. i.0) (item ∷ items); before = before; after = some a }
          ≡ batch =
        cc in
      subst (IsBounded before (item ∷ items)) e (
        refl,
        refl,
        All-map _ _ (item ∷ items) (λ i below. Le_trans py weak i.1 last a below le)
            (last_position-Le py read weak item items s r),
        λ p u. higher p u,
        ahead,
      )

  abbrev pub Covered :
      Option (WatermarkPosition N) → WatermarkBatch V N → WatermarkPosition N → Row V → Type 0
  Covered before batch p row = (In row batch.rows ⊎ Under py p before) × Under py p batch.after

  -- All positioned rows are covered, and how the next position follows.
  pub plan_covers :
      (rows : List (Row V)) (config : WatermarkConfig) (before : Option (WatermarkPosition N))
      (batch : WatermarkBatch V N)
      → IsCommitted py before
      → (m : IsPlanned rows config before batch)
      → All (λ i. Covered before batch i.1 i.0) m.sorted × IsBounded before m.chosen batch
  plan_covers rows config before batch c m =
      let (valid, named) = positioned-IsPositioned py read weak config rows m.items m.placed in
      let (into, from) =
        sort_items-All py read weak (IsPositioned py read weak config) m.items m.sorted
          m.in_order in
      let (all, s, r) =
        selected-IsSelection py read weak config before m.sorted m.chosen c (into valid)
          (sort_items-IsSorted py read weak m.items m.sorted m.in_order) m.picked in
      let bounded = batch-IsBounded before m.chosen batch c s r m.made in
      let (same_before, names, under, higher, follows) = bounded in
      (
        All-map (λ i. In i m.chosen ⊎ Under py i.1 before) _ m.sorted
            (λ i place. elim place [
              | inl found ↦ (
                inl (rw names (In-map (λ i. i.0) i m.chosen found)),
                All_at (λ i. Under py i.1 batch.after) i m.chosen under found,
              )
              | inr under_old ↦ (inr under_old, higher i.1 under_old)
            ])
            all,
        bounded,
      )
