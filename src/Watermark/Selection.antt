-- ===== src/Watermark/Selection.antt =====
-- What capture/watermark.py leaves out of a batch.
use fabric_data_framework.Prelude.{
  In, ℕ, ◌*◌, ◌≡◌, ◌⊎◌, inl, inr, Bool, true, false, Option, none, some, List, ltb, nat_eq, All,
  All-zip, Bool-cases, Result, ok, >>=-eq-ok, arith,
}
use fabric_data_framework.Time.{instant}
use fabric_data_framework.Watermark.Position.{
  WatermarkError, Numbers, Scalar, moment, WatermarkPosition, Comparison, below, same, above,
  is_above, compare_scalar, compare_watermark_positions,
}
use fabric_data_framework.Watermark.Capture.{
  WatermarkConfig, Item, bound_of, overlap_lower_bound, in_overlap, is_after, selected_after,
}
use fabric_data_framework.Watermark.Comparing.{IsWeakOrder}
use fabric_data_framework.Watermark.Order.{compare_scalar_parts, compare_scalar_of, moments_below}
use fabric_data_framework.Watermark.Sorting.{Le, IsSorted}
use fabric_data_framework.Watermark.Batch.{
  IsPositioned, select-IsChosen, select-All, select-IsSorted,
}

module _ {N : Type 0} (py : Numbers N) where
  -- At or below a position that is there.
  abbrev pub Under : WatermarkPosition N → Option (WatermarkPosition N) → Type 0
  Under p none = ⊥
  Under p (some q) = Le py p q

  -- A committed position compares with itself, as all do but those of a null value.
  abbrev pub IsCommitted : Option (WatermarkPosition N) → Type 0
  IsCommitted none = Unit
  IsCommitted (some b) = compare_watermark_positions py b b ≡ ok same

  -- The next position is the old one, or one above it.
  abbrev pub Advances : Option (WatermarkPosition N) → WatermarkPosition N → Type 0
  Advances none a = Unit
  Advances (some b) a = (b ≡ a) ⊎ (compare_watermark_positions py a b ≡ ok above)

module _ {V N : Type 0} (py : Numbers N) (read : V → Scalar N) (weak : IsWeakOrder py.less) where
  value_below-Le :
      (p q : WatermarkPosition N) → compare_scalar py p.value q.value ≡ ok below → Le py p q
  unfolding compare_watermark_positions
  value_below-Le p q h = inl (simp h)

  self_valid :
      (p : WatermarkPosition N)
      → Le py p p
      → (r : Comparison) × (compare_scalar py p.value p.value ≡ ok r)
  unfolding compare_watermark_positions
  self_valid p (inl h) =
      let (r, e, rest) = >>=-eq-ok (compare_scalar py p.value p.value) _ h in (r, e)
  self_valid p (inr h) =
      let (r, e, rest) = >>=-eq-ok (compare_scalar py p.value p.value) _ h in (r, e)

  not_after-Le :
      (before : WatermarkPosition N) (item : Item py read)
      → is_after py read before item ≡ ok false
      → Le py item.1 before
  not_after-Le before item h =
      let (order, compared, h1) = >>=-eq-ok (compare_watermark_positions py item.1 before) _ h in
      by_order order compared h1
    where
      by_order :
          (order : Comparison)
          → compare_watermark_positions py item.1 before ≡ ok order
          → (let r : Result WatermarkError Bool = ok (is_above py order) in r) ≡ ok false
          → Le py item.1 before
      by_order below compared h = inl compared
      by_order same compared h = inr compared
      by_order above compared h = cc

  -- A moment before the overlap's lower bound is before the moment that the bound was taken from.
  moment_below :
      (u v : Scalar N) (window lower_bound : ℕ) (r s : Comparison)
      → bound_of py read v window ≡ ok lower_bound
      → in_overlap py read lower_bound u ≡ ok false
      → compare_scalar py u u ≡ ok r
      → compare_scalar py v v ≡ ok s
      → compare_scalar py u v ≡ ok below
  moment_below (moment t) (moment t') window lower_bound r s h k e f =
      let (valid, valid', p) = compare_scalar_parts py weak (moment t) (moment t) r e in
      let (valid2, valid2', q) = compare_scalar_parts py weak (moment t') (moment t') s f in
      let earlier : ltb (instant t) (instant t') ≡ true = ground arith in
      compare_scalar_of py weak (moment t) (moment t') (ok below) valid valid2
        (moments_below py t t' earlier)
  moment_below u v window lower_bound r s h k e f = cc

  not_in_overlap-Le :
      (before : WatermarkPosition N) (config : WatermarkConfig) (lower_bound : ℕ)
      (item : Item py read)
      → Le py before before
      → Le py item.1 item.1
      → overlap_lower_bound py read before config ≡ ok lower_bound
      → in_overlap py read lower_bound item.1.value ≡ ok false
      → Le py item.1 before
  unfolding overlap_lower_bound
  not_in_overlap-Le before config lower_bound item b i h k =
      let (r, valid) = self_valid item.1 i in
      let (s, valid') = self_valid before b in
      value_below-Le item.1 before (
        moment_below item.1.value before.value (config.overlap_window_seconds * 1000000) lower_bound
          r s h k valid valid')

  -- What is not selected stands at or below the committed position.
  pub left_out :
      (config : WatermarkConfig) (before : WatermarkPosition N) (items out : List (Item py read))
      → Le py before before
      → All (IsPositioned py read weak config) items
      → selected_after py read config before items ≡ ok out
      → All (λ i. In i out ⊎ Le py i.1 before) items
  unfolding selected_after
  left_out config before items out b ps h =
      elim (Bool-cases (ltb 0 config.overlap_window_seconds)) [
        | inl overlap ↦
            let (lower_bound, bounded, h1) =
              >>=-eq-ok (overlap_lower_bound py read before config) _
                (rw (selected_after, overlap) at h) in
            All-zip (IsPositioned py read weak config) _ _ items
              (λ i p c. elim c [
                | inl (t, found) ↦ inl found
                | inr f ↦ inr (not_in_overlap-Le before config lower_bound i b p.1 bounded f)
              ])
              ps
              (select-IsChosen py read weak (λ i. in_overlap py read lower_bound i.1.value) items
                out h1)
        | inr exact ↦
            All-zip (IsPositioned py read weak config) _ _ items
              (λ i p c. elim c [
                | inl (t, found) ↦ inl found
                | inr f ↦ inr (not_after-Le before i f)
              ])
              ps
              (select-IsChosen py read weak (is_after py read before) items out
                (rw (selected_after, exact) at h))
      ]

  pub selected_kept :
      (P : Item py read → Type 0) (config : WatermarkConfig) (before : WatermarkPosition N)
      (items out : List (Item py read))
      → selected_after py read config before items ≡ ok out
      → (All P items → All P out) × (IsSorted py read weak items → IsSorted py read weak out)
  unfolding selected_after
  selected_kept P config before items out h =
      elim (Bool-cases (ltb 0 config.overlap_window_seconds)) [
        | inl overlap ↦
            let (lower_bound, bounded, h1) =
              >>=-eq-ok (overlap_lower_bound py read before config) _
                (rw (selected_after, overlap) at h) in
            (select-All py read weak P _ items out h1, select-IsSorted py read weak _ items out h1)
        | inr exact ↦
            let h1 = rw (selected_after, exact) at h in
            (select-All py read weak P _ items out h1, select-IsSorted py read weak _ items out h1)
      ]
