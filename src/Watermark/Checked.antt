-- ===== src/Watermark/Checked.antt =====
-- The next position of a plan of capture/watermark.py as the committed position of the next plan.
use fabric_data_framework.Prelude.{
  ◌≡◌, refl, subst, Bool, true, false, Option, none, some, List, [], ◌∷◌, if◌then◌else◌, nat_eq,
  length, All, All-map, Result, ok, >>=-eq-ok,
}
use fabric_data_framework.Values.{Row}
use fabric_data_framework.Watermark.Position.{
  WatermarkError, Numbers, Scalar, WatermarkPosition, is_above, compare_watermark_positions,
}
use fabric_data_framework.Watermark.Capture.{
  WatermarkConfig, WatermarkBatch, Item, check_before, last_position, after_of, batch_of,
}
use fabric_data_framework.Watermark.Comparing.{IsWeakOrder}
use fabric_data_framework.Watermark.Sorting.{sort_items-All}
use fabric_data_framework.Watermark.Batch.{IsPositioned, positioned-IsPositioned}
use fabric_data_framework.Watermark.Following.{selected-All}
use fabric_data_framework.Watermark.Planned.{validate_before_arity, validate_before_of, IsPlanned}

module _ {V N : Type 0} (py : Numbers N) (read : V → Scalar N) (weak : IsWeakOrder py.less) where
  abbrev Every : (WatermarkPosition N → Type 0) → Option (WatermarkPosition N) → Type 0
  Every P none = Unit
  Every P (some b) = P b

  after_of-Every :
      (P : WatermarkPosition N → Type 0) (before : Option (WatermarkPosition N))
      (candidate a : WatermarkPosition N)
      → Every P before
      → P candidate
      → after_of py read before candidate ≡ ok a
      → P a
  unfolding after_of
  after_of-Every P none candidate a b p h = let e : candidate ≡ a = cc in subst P e p
  after_of-Every P (some before) candidate a b p h =
      let (order, compared, h1) = >>=-eq-ok (compare_watermark_positions py candidate before) _ h in
      either (is_above py order) h1
    where
      either :
          (higher : Bool)
          → (let r : Result WatermarkError (WatermarkPosition N) =
                ok (if higher then candidate else before) in
              r)
            ≡ ok a
          → P a
      either true h = let e : candidate ≡ a = cc in subst P e p
      either false h = let e : before ≡ a = cc in subst P e b

  batch-Every :
      (P : WatermarkPosition N → Type 0) (before : Option (WatermarkPosition N))
      (chosen : List (Item py read)) (batch : WatermarkBatch V N)
      → Every P before
      → All (λ i. P i.1) chosen
      → batch_of py read before chosen ≡ ok batch
      → Every P batch.after
  unfolding batch_of
  batch-Every P before [] batch b ps h = let e : before ≡ batch.after = cc in subst (Every P) e b
  batch-Every P before (item ∷ items) batch b (p, ps) h =
      let last = last_position py read item.1 items in
      let (a, at_a, h1) = >>=-eq-ok (after_of py read before last) _ h in
      let e : some a ≡ batch.after = cc in
      subst (Every P) e (after_of-Every P before last a b (last_of item items p ps) at_a)
    where
      last_of :
          (item : Item py read) (items : List (Item py read))
          → P item.1
          → All (λ i. P i.1) items
          → P (last_position py read item.1 items)
      last_of item [] p ps = p
      last_of item (next ∷ items) p (q, qs) = last_of next items q qs

  -- The next position of a plan passes the check of the next plan.
  pub after_checked :
      (rows : List (Row V)) (config : WatermarkConfig) (before : Option (WatermarkPosition N))
      (batch : WatermarkBatch V N)
      → IsPlanned py read weak rows config before batch
      → check_before py read config batch.after ≡ ok tt
  after_checked rows config before batch m =
      let (valid, named) = positioned-IsPositioned py read weak config rows m.items m.placed in
      let (into, from) =
        sort_items-All py read weak (IsPositioned py read weak config) m.items m.sorted
          m.in_order in
      let chosen =
        selected-All py read weak (IsPositioned py read weak config) config before m.sorted m.chosen
          m.picked (into valid) in
      checked_of batch.after (
        batch-Every HasArity before m.chosen batch (arity_of before m.checked)
          (All-map (IsPositioned py read weak config) _ m.chosen (λ i p. p.2) chosen) m.made)
    where
      HasArity : WatermarkPosition N → Type 0
      HasArity p = length p.tie_breaker ≡ length config.tie_breaker

      arity_of :
          (b : Option (WatermarkPosition N))
          → check_before py read config b ≡ ok tt
          → Every HasArity b
      arity_of none h = tt
      arity_of (some b) h = validate_before_arity py read b config h

      checked_of :
          (b : Option (WatermarkPosition N))
          → Every HasArity b
          → check_before py read config b ≡ ok tt
      checked_of none h = refl
      checked_of (some b) h = validate_before_of py read b config h
