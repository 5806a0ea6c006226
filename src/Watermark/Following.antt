-- ===== src/Watermark/Following.antt =====
-- What capture/watermark.py selects, and the position after it.
use fabric_data_framework.Prelude.{
  In, All-In, ◌≡◌, refl, subst, ◌⊎◌, inl, inr, Option, none, some, List, if◌then◌else◌, nat_eq, All,
  All-map, Result, ok, >>=-eq-ok,
}
use fabric_data_framework.Watermark.Position.{
  WatermarkError, Numbers, Scalar, WatermarkPosition, Comparison, below, same, above, is_above,
  compare_watermark_positions,
}
use fabric_data_framework.Watermark.Capture.{WatermarkConfig, Item, selected, after_of}
use fabric_data_framework.Watermark.Comparing.{IsWeakOrder}
use fabric_data_framework.Watermark.Order.{compare_watermark_positions-flip}
use fabric_data_framework.Watermark.Sorting.{Le, Le_trans, IsSorted}
use fabric_data_framework.Watermark.Batch.{IsPositioned}
use fabric_data_framework.Watermark.Selection.{
  Under, IsCommitted, Advances, left_out, selected_kept,
}

module _ {V N : Type 0} (py : Numbers N) (read : V → Scalar N) (weak : IsWeakOrder py.less) where
  -- What is selected, of the sorted items.
  abbrev pub IsSelection :
      Option (WatermarkPosition N) → List (Item py read) → List (Item py read) → Type 0
  IsSelection before items chosen =
      All (λ i. In i chosen ⊎ Under py i.1 before) items
      × IsSorted py read weak chosen
      × All (λ i. Le py i.1 i.1) chosen

  pub selected-All :
      (P : Item py read → Type 0) (config : WatermarkConfig) (before : Option (WatermarkPosition N))
      (items chosen : List (Item py read))
      → selected py read config before items ≡ ok chosen
      → All P items
      → All P chosen
  unfolding selected
  selected-All P config none items chosen h ps = let e : items ≡ chosen = cc in subst (All P) e ps
  selected-All P config (some before) items chosen h ps =
      let (kept, sorted) = selected_kept py read weak P config before items chosen h in kept ps

  pub selected-IsSelection :
      (config : WatermarkConfig) (before : Option (WatermarkPosition N))
      (items chosen : List (Item py read))
      → IsCommitted py before
      → All (IsPositioned py read weak config) items
      → IsSorted py read weak items
      → selected py read config before items ≡ ok chosen
      → IsSelection before items chosen
  unfolding selected
  selected-IsSelection config none items chosen c ps s h =
      let e : items ≡ chosen = cc in
      subst (IsSelection none items) e (
        All-map _ _ items (λ i found. inl found) (All-In items),
        s,
        All-map (IsPositioned py read weak config) _ items (λ i p. p.1) ps,
      )
  selected-IsSelection config (some before) items chosen c ps s h =
      let (kept, sorted) =
        selected_kept py read weak (λ i. Le py i.1 i.1) config before items chosen h in
      (
        left_out py read weak config before items chosen (inr c) ps h,
        sorted s,
        kept (All-map (IsPositioned py read weak config) _ items (λ i p. p.1) ps),
      )

  pub after_of-Le :
      (before : Option (WatermarkPosition N)) (candidate a : WatermarkPosition N)
      → IsCommitted py before
      → after_of py read before candidate ≡ ok a
      → Le py candidate candidate
      → Le py candidate a
        × Advances py before a
        × ((p : WatermarkPosition N) → Under py p before → Le py p a)
  unfolding after_of
  after_of-Le none candidate a c h r =
      let e : candidate ≡ a = cc in
      subst (λ a. Le py candidate a × Unit × ((p : WatermarkPosition N) → ⊥ → Le py p a)) e
        (r, tt, λ p u. absurd u)
  after_of-Le (some b) candidate a c h r =
      let (order, compared, h1) = >>=-eq-ok (compare_watermark_positions py candidate b) _ h in
      by_order order compared h1
    where
      Wanted : WatermarkPosition N → Type 0
      Wanted a =
          Le py candidate a
          × Advances py (some b) a
          × ((p : WatermarkPosition N) → Le py p b → Le py p a)

      by_order :
          (order : Comparison)
          → compare_watermark_positions py candidate b ≡ ok order
          → (let r : Result WatermarkError (WatermarkPosition N) =
                ok (if is_above py order then candidate else b) in
              r)
            ≡ ok a
          → Wanted a
      by_order below compared h =
          let e : b ≡ a = cc in subst Wanted e (inl compared, inl refl, λ p u. u)
      by_order same compared h =
          let e : b ≡ a = cc in subst Wanted e (inr compared, inl refl, λ p u. u)
      by_order above compared h =
          let e : candidate ≡ a = cc in
          subst Wanted e (
            r,
            inr compared,
            λ p u.
                Le_trans py weak p b candidate u
                  (inl (compare_watermark_positions-flip py weak candidate b above compared)),
          )
