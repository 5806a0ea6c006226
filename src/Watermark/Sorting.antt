-- ===== src/Watermark/Sorting.antt =====
-- The sorted positions of capture/watermark.py: what sorting keeps, and what stands last.
use fabric_data_framework.Prelude.{
  ◌≡◌, refl, ◌⊎◌, inl, inr, List, [], ◌∷◌, All, All-map, ok, ◌>>=◌, >>=-eq-ok,
}
use fabric_data_framework.Watermark.Position.{
  Numbers, Scalar, WatermarkPosition, Comparison, below, same, above, compare_watermark_positions,
}
use fabric_data_framework.Watermark.Capture.{Item, insert_item, sort_items, last_position}
use fabric_data_framework.Watermark.Comparing.{IsWeakOrder}
use fabric_data_framework.Watermark.Order.{
  compare_watermark_positions-combine, compare_watermark_positions-flip,
}

module _ {N : Type 0} (py : Numbers N) where
  -- The two positions compare, and the first is not above the second.
  abbrev pub Le : WatermarkPosition N → WatermarkPosition N → Type 0
  Le p q =
      (compare_watermark_positions py p q ≡ ok below)
      ⊎ (compare_watermark_positions py p q ≡ ok same)

  pub Le_trans :
      (weak : IsWeakOrder py.less) (p q r : WatermarkPosition N) → Le p q → Le q r → Le p r
  Le_trans weak p q r (inl h) (inl k) =
      inl (compare_watermark_positions-combine py weak p q r below below below h k refl)
  Le_trans weak p q r (inl h) (inr k) =
      inl (compare_watermark_positions-combine py weak p q r below same below h k refl)
  Le_trans weak p q r (inr h) (inl k) =
      inl (compare_watermark_positions-combine py weak p q r same below below h k refl)
  Le_trans weak p q r (inr h) (inr k) =
      inr (compare_watermark_positions-combine py weak p q r same same same h k refl)

module _ {V N : Type 0} (py : Numbers N) (read : V → Scalar N) (weak : IsWeakOrder py.less) where
  abbrev Items : Type 0
  Items = List (Item py read)

  abbrev AllAbove : WatermarkPosition N → Items → Type 0
  AllAbove p items = All (λ i. Le py p i.1) items

  abbrev pub IsSorted : Items → Type 0
  IsSorted [] = Unit
  IsSorted (item ∷ items) = AllAbove item.1 items × IsSorted items

  -- An insertion puts the item before or behind the first one.
  insert_cases :
      (item first : Item py read) (items out : Items)
      → insert_item py read item (first ∷ items) ≡ ok out
      → (Le py item.1 first.1 × (item ∷ first ∷ items ≡ out))
        ⊎ ((rest : Items) × Le py first.1 item.1
            × (insert_item py read item items ≡ ok rest)
            × (first ∷ rest ≡ out))
  unfolding insert_item
  insert_cases item first items out h =
      let (order, compared, h1) = >>=-eq-ok (compare_watermark_positions py item.1 first.1) _ h in
      by_order order compared h1
    where
      by_order :
          (order : Comparison)
          → compare_watermark_positions py item.1 first.1 ≡ ok order
          → (elim order [
            | above ↦ insert_item py read item items >>= λ rest. ok (first ∷ rest)
            | below ↦ ok (item ∷ first ∷ items)
            | same ↦ ok (item ∷ first ∷ items)
          ])
            ≡ ok out
          → (Le py item.1 first.1 × (item ∷ first ∷ items ≡ out))
            ⊎ ((rest : Items) × Le py first.1 item.1
                × (insert_item py read item items ≡ ok rest)
                × (first ∷ rest ≡ out))
      by_order below compared h = inl (inl compared, cc)
      by_order same compared h = inl (inr compared, cc)
      by_order above compared h =
          let (rest, inserted, done) = >>=-eq-ok (insert_item py read item items) _ h in
          inr (
            rest,
            inl (compare_watermark_positions-flip py weak item.1 first.1 above compared),
            inserted,
            cc,
          )

  insert_item-All :
      (P : Item py read → Type 0) (item : Item py read) (items out : Items)
      → insert_item py read item items ≡ ok out
      → (P item → All P items → All P out) × (All P out → P item × All P items)
  unfolding insert_item
  insert_item-All P item [] out h =
      let e : item ∷ [] ≡ out = cc in rw (← e) (λ p ps. (p, tt), λ (p, ps). (p, tt))
  insert_item-All P item (first ∷ items) out h = elim (insert_cases item first items out h) [
    | inl (le, e) ↦ rw (← e) (λ p ps. (p, ps), λ (p, ps). (p, ps))
    | inr (rest, le, inserted, e) ↦
        let (into, from) = insert_item-All P item items rest inserted in
        rw (← e) (λ p (q, ps). (q, into p ps), λ (q, ps). let (p, qs) = from ps in (p, (q, qs)))
  ]

  insert_item-IsSorted :
      (item : Item py read) (items out : Items)
      → insert_item py read item items ≡ ok out
      → IsSorted items
      → IsSorted out
  unfolding insert_item
  insert_item-IsSorted item [] out h s = let e : item ∷ [] ≡ out = cc in rw (← e) (tt, tt)
  insert_item-IsSorted item (first ∷ items) out h (lower, s) =
      elim (insert_cases item first items out h) [
        | inl (le, e) ↦
            let lower' =
              All-map (λ i. Le py first.1 i.1) (λ i. Le py item.1 i.1) items
                (λ i below. Le_trans py weak item.1 first.1 i.1 le below) lower in
            rw (← e) ((le, lower'), (lower, s))
        | inr (rest, le, inserted, e) ↦
            let (into, from) = insert_item-All (λ i. Le py first.1 i.1) item items rest inserted in
            rw (← e) (into le lower, insert_item-IsSorted item items rest inserted s)
      ]

  pub sort_items-All :
      (P : Item py read → Type 0) (items out : Items)
      → sort_items py read items ≡ ok out
      → (All P items → All P out) × (All P out → All P items)
  unfolding sort_items
  sort_items-All P [] out h = let e : [] ≡ out = cc in rw (← e) (λ p. tt, λ p. tt)
  sort_items-All P (item ∷ items) out h =
      let (sorted, first, last) = >>=-eq-ok (sort_items py read items) _ h in
      let (into, from) = sort_items-All P items sorted first in
      let (into', from') = insert_item-All P item sorted out last in
      (λ (p, ps). into' p (into ps), λ ps. let (p, qs) = from' ps in (p, from qs))

  pub sort_items-IsSorted : (items out : Items) → sort_items py read items ≡ ok out → IsSorted out
  unfolding sort_items
  sort_items-IsSorted [] out h = let e : [] ≡ out = cc in rw (← e) tt
  sort_items-IsSorted (item ∷ items) out h =
      let (sorted, first, last) = >>=-eq-ok (sort_items py read items) _ h in
      insert_item-IsSorted item sorted out last (sort_items-IsSorted items sorted first)

  -- All sorted items stand at or below the last one.
  pub last_position-Le :
      (item : Item py read) (items : Items)
      → IsSorted (item ∷ items)
      → All (λ i. Le py i.1 i.1) (item ∷ items)
      → All (λ i. Le py i.1 (last_position py read item.1 items)) (item ∷ items)
  last_position-Le item [] s (r, rs) = (r, tt)
  last_position-Le item (next ∷ items) ((le, lower), s) (r, rs) =
      let (q, qs) = last_position-Le next items s rs in
      (Le_trans py weak item.1 next.1 (last_position py read next.1 items) le q, (q, qs))
