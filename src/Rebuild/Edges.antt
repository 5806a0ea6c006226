-- ===== src/Rebuild/Edges.antt =====
-- The reversed dependencies that _downstream_descendants collects.
use fabric_data_framework.Prelude.{
  ◌≡◌, refl, ◌∙◌, Bool, false, ◌&&◌, ◌||◌, inl, inr, Bool-cases, none, some, List, [], ◌∷◌,
  if◌then◌else◌, list_eq, nat_eq, ◌==◌, ==_iff, Text, elem, arith,
}
use fabric_data_framework.Prelude.Dict.{get, put, get-put, HasUniqueKeys}
use fabric_data_framework.Rebuild.Graph.{Graph}
use fabric_data_framework.Rebuild.Impact.{Reverse, add_member, children, add_child, reverse_from}

-- Whether the configuration of `id` names `dependency`.
abbrev pub depends_on : Graph → Text → Text → Bool
depends_on graph id dependency = elim (get id graph) [
  | none ↦ false
  | some config ↦ elem dependency config.dependencies
]

elem-add_member : (x y : Text) (xs : List Text) → elem y (add_member x xs) ≡ (x == y || elem y xs)
elem-add_member x y xs = ground (arith, ==_iff x y, Bool-cases (elem x xs))

children-put :
    (u d : Text) (ids : List Text) (r : Reverse)
    → children u (put d ids r) ≡ (if d == u then ids else children u r)
unfolding children
children-put u d ids r = ground (arith, get-put d u ids r)

elem-add_child :
    (id : Text) (ds : List Text) (r : Reverse) (u v : Text)
    → elem v (children u (add_child id ds r)) ≡ ((id == v && elem u ds) || elem v (children u r))
unfolding add_child
elem-add_child id [] r u v = ground arith
elem-add_child id (d ∷ ds) r u v =
    elem-add_child id ds (put d (add_member id (children d r)) r) u v
    ∙ ground (
      arith,
      ==_iff d u,
      children-put u d (add_member id (children d r)) r,
      elem-add_member id v (children d r),
    )

abbrev has_edge : Graph → Text → Text → Bool
has_edge [] u v = false
has_edge ((id, config) ∷ graph) u v = (id == v && elem u config.dependencies) || has_edge graph u v

elem-reverse_from :
    (graph : Graph) (r : Reverse) (u v : Text)
    → elem v (children u (reverse_from graph r)) ≡ (has_edge graph u v || elem v (children u r))
unfolding reverse_from
elem-reverse_from [] r u v = refl
elem-reverse_from ((id, config) ∷ graph) r u v =
    elem-reverse_from graph (add_child id config.dependencies r) u v
    ∙ ground (arith, elem-add_child id config.dependencies r u v)

absent-has_edge : (graph : Graph) (u v : Text) → get v graph ≡ none → has_edge graph u v ≡ false
unfolding get
absent-has_edge [] u v h = refl
absent-has_edge ((id, config) ∷ graph) u v h = ground (arith, absent-has_edge graph u v)

has_edge_lem :
    (graph : Graph) (u v : Text) → HasUniqueKeys graph → has_edge graph u v ≡ depends_on graph v u
unfolding get
has_edge_lem [] u v h = refl
has_edge_lem ((id, config) ∷ graph) u v (fresh, h) = elim (Bool-cases (id == v)) [
  | inr other ↦ ground (arith, has_edge_lem graph u v h)
  | inl same ↦
      let gone : get v graph ≡ none = rw (← (==_iff id v).0 same) fresh in
      ground (arith, absent-has_edge graph u v gone)
]

pub elem-children :
    (graph : Graph) (u v : Text)
    → HasUniqueKeys graph
    → elem v (children u (reverse_from graph [])) ≡ depends_on graph v u
unfolding children get
elem-children graph u v h =
    elem-reverse_from graph [] u v ∙ ground (arith, has_edge_lem graph u v h)
