-- ===== src/Rebuild/Reach.antt =====
-- The search of _downstream_descendants finds exactly the datasets that depend on a root.
use fabric_data_framework.Prelude.{
  ℕ, zero, suc, ◌≡◌, refl, ◌∙◌, ap, sym, true, false, not, ◌&&◌, ◌||◌, ◌↔◌, inl, inr, Bool-cases,
  List-cases, List, [], ◌∷◌, ◌++◌, if◌then◌else◌, list_eq, nat_eq, ◌==◌, ==_iff, ==_refl, Text,
  length, elem, elem-append, ok, arith,
}
use fabric_data_framework.Prelude.Dict.{HasUniqueKeys}
use fabric_data_framework.Prelude.Sort.{sort_by, elem-sort_with, by_text}
use fabric_data_framework.Rebuild.Graph.{Graph}
use fabric_data_framework.Rebuild.Build.{downstream_descendants}
use fabric_data_framework.Rebuild.Edges.{depends_on, elem-children}
use fabric_data_framework.Rebuild.Impact.{children, reverse_from, Search, offer, descend}

-- The roots, and what depends on a dataset that is reached.
pub data Descends (graph : Graph) (roots : List Text) : Text → Type 0 where
  root : {id : Text} → elem id roots ≡ true → Descends graph roots id
  child :
      {dependency id : Text}
      → Descends graph roots dependency
      → depends_on graph id dependency ≡ true
      → Descends graph roots id

-- What the turn for one dataset adds to the affected datasets and to the queue.
elem-offer :
    (cs : List Text) (s : Search) (x : Text)
    → (elem x (offer cs s).affected ≡ (elem x cs || elem x s.affected))
      × (elem x (offer cs s).queue ≡ (elem x s.queue || (elem x cs && not (elem x s.affected))))
unfolding offer
elem-offer [] s x = (refl, ground arith)
elem-offer (c ∷ cs) s x =
    let t : Search =
      if elem c s.affected
      then s
      else record { affected = c ∷ s.affected; queue = s.queue ++ c ∷ [] } in
    let (a, q) = elem-offer cs t x in
    (
      a ∙ ground (arith, ==_iff c x, Bool-cases (elem c s.affected)),
      q
          ∙ ground
              (arith, ==_iff c x, Bool-cases (elem c s.affected), elem-append x s.queue (c ∷ [])),
    )

module _ (graph : Graph) (roots : List Text) where
  record Inv (s : Search) : Type 0 where
    sound : (v : Text) → elem v s.affected ≡ true → Descends graph roots v
    queued : (v : Text) → elem v s.queue ≡ true → elem v s.affected ≡ true
    closed :
        (u v : Text)
        → elem u s.affected ≡ true
        → depends_on graph v u ≡ true
        → (elem u s.queue || elem v s.affected) ≡ true
    started : (v : Text) → elem v roots ≡ true → elem v s.affected ≡ true

  turn : Text → List Text → Search → Search
  turn current rest s =
      offer (sort_by (λ id. id) (children current (reverse_from graph [])))
        (record s { queue = rest })

  module _ (current : Text) (rest : List Text) (s : Search) (u : HasUniqueKeys graph)
      (e : s.queue ≡ current ∷ rest) where
    is_child :
        (v : Text)
        → elem v (sort_by (λ id. id) (children current (reverse_from graph [])))
          ≡ depends_on graph v current
    is_child v = elem-sort_with (by_text (λ id. id)) v _ ∙ elem-children graph current v u

    flags :
        (v : Text)
        → elem v (turn current rest s).affected ≡ (depends_on graph v current || elem v s.affected)
    unfolding turn
    flags v =
        (elem-offer (sort_by (λ id. id) (children current (reverse_from graph [])))
          (record s { queue = rest }) v).0
        ∙ ap (λ b. b || elem v s.affected) (is_child v)

    waiting :
        (v : Text)
        → elem v (turn current rest s).queue
          ≡ (elem v rest || (depends_on graph v current && not (elem v s.affected)))
    unfolding turn
    waiting v =
        (elem-offer (sort_by (λ id. id) (children current (reverse_from graph [])))
          (record s { queue = rest }) v).1
        ∙ ap (λ b. elem v rest || (b && not (elem v s.affected))) (is_child v)

    was_waiting : (v : Text) → elem v s.queue ≡ (current == v || elem v rest)
    was_waiting v = ap (λ q. elem v q) e

    turn-Inv : Inv s → Inv (turn current rest s)
    turn-Inv h =
        let here : elem current s.affected ≡ true =
          h.queued current (ground (arith, was_waiting current, ==_refl current)) in
        record {
          sound = λ v m. elim (Bool-cases (elem v s.affected)) [
            | inl old ↦ h.sound v old
            | inr new ↦ child (h.sound current here) (ground (arith, flags v))
          ];
          queued = λ v m. ground (arith, flags v, waiting v, was_waiting v, h.queued v);
          closed = λ x v m d. elim (Bool-cases (current == x)) [
            | inl same ↦
                let edge : depends_on graph v current ≡ true =
                  ap (λ y. depends_on graph v y) ((==_iff current x).0 same) ∙ d in
                ground (arith, flags v)
            | inr other ↦ ground (
              arith,
              flags x,
              flags v,
              waiting x,
              was_waiting x,
              h.closed x v,
              Bool-cases (elem x s.affected),
            )
          ];
          started = λ v m. ground (arith, flags v, h.started v);
        }

  -- With an empty queue the affected datasets are closed under dependents.
  complete :
      (s : Search)
      → Inv s
      → s.queue ≡ []
      → {v : Text} → Descends graph roots v
      → elem v s.affected ≡ true
  complete s h e (root {id} m) = h.started id m
  complete s h e (child {dependency} {id} d edge) =
      let none_waiting : elem dependency s.queue ≡ false = rw e refl in
      ground (arith, h.closed dependency id (complete s h e d) edge)

  descend_iff :
      (n : ℕ) (s : Search) (affected : List Text)
      → HasUniqueKeys graph
      → Inv s
      → descend n (reverse_from graph []) s ≡ ok affected
      → (v : Text) → (elem v affected ≡ true) ↔ Descends graph roots v
  unfolding descend turn
  descend_iff zero s affected u h d v = elim (List-cases s.queue) [
    | inl e ↦
        let same : s.affected ≡ affected = ground arith in rw (← same) (h.sound v, complete s h e)
    | inr (current, rest, e) ↦ ground arith
  ]
  descend_iff (suc n) s affected u h d v = elim (List-cases s.queue) [
    | inl e ↦
        let same : s.affected ≡ affected = ground arith in rw (← same) (h.sound v, complete s h e)
    | inr (current, rest, e) ↦
        descend_iff n (turn current rest s) affected u (turn-Inv current rest s u e h)
          (rw (e, descend) at d) v
  ]

  Inv-start : Inv (record { affected = roots; queue = sort_by (λ id. id) roots })
  Inv-start =
      let same : (v : Text) → elem v (sort_by (λ id. id) roots) ≡ elem v roots =
        λ v. elem-sort_with (by_text (λ id. id)) v roots in
      record {
        sound = λ v m. root m;
        queued = λ v m. sym (same v) ∙ m;
        closed = λ x v m d. ground (arith, same x);
        started = λ v m. m;
      }

  -- A dataset is among the descendants that _downstream_descendants returns if and only if it is a
  -- root or depends on one, directly or through others.
  pub downstream_iff :
      (affected : List Text)
      → HasUniqueKeys graph
      → downstream_descendants graph roots ≡ ok affected
      → (v : Text) → (elem v affected ≡ true) ↔ Descends graph roots v
  unfolding downstream_descendants
  downstream_iff affected u h = descend_iff (length graph) _ affected u Inv-start h
