-- ===== src/Rebuild/Termination.antt =====
-- The search of _downstream_descendants ends: the fuel that the model gives it is enough.
use fabric_data_framework.Prelude.{
  ℕ, zero, suc, ◌+◌, ◌≤◌, ◌≡◌, ◌≢◌, ◌∙◌, ap, sym, true, inl, inr, Bool-cases, some, Option-cases,
  List-cases, List, [], ◌∷◌, ◌++◌, list_eq, nat_eq, ==_refl, Text, length, length-append, elem,
  raise, arith,
}
use fabric_data_framework.Prelude.Dict.{get, HasUniqueKeys}
use fabric_data_framework.Prelude.Sort.{sort_by, elem-sort_with, by_text}
use fabric_data_framework.Planner.Config.{OrchestrationPolicy, out_of_fuel}
use fabric_data_framework.Planner.Depth.{free, free-entered}
use fabric_data_framework.Rebuild.Graph.{Graph, graph_error}
use fabric_data_framework.Rebuild.Impact.{children, reverse_from, Search, offer, descend}
use fabric_data_framework.Rebuild.Edges.{depends_on, elem-children}

module _ (graph : Graph) where
  abbrev pub work : Search → ℕ
  work s = free s.affected graph + length s.queue

  abbrev pub Deployed : Text → Type 0
  Deployed id = (config : OrchestrationPolicy) × (get id graph ≡ some config)

  depends_on-Deployed : (v u : Text) → depends_on graph v u ≡ true → Deployed v
  depends_on-Deployed v u h = elim (Option-cases (get v graph)) [
    | inl absent ↦ ground arith
    | inr (config, e) ↦ (config, e)
  ]

  -- Each dataset that is queued is one less that is free.
  offer-work :
      (cs : List Text) (s : Search)
      → ((v : Text) → elem v cs ≡ true → Deployed v)
      → work (offer cs s) ≤ work s
  unfolding offer
  offer-work [] s d = omega arith
  offer-work (c ∷ cs) s d =
      let rest : (v : Text) → elem v cs ≡ true → Deployed v = λ v m. d v (ground (arith, m)) in
      elim (Bool-cases (elem c s.affected)) [
        | inl known ↦ rw (known, offer) (offer-work cs s rest)
        | inr new ↦
            let (config, here) = d c (ground (arith, ==_refl c)) in
            let t : Search = record { affected = c ∷ s.affected; queue = s.queue ++ c ∷ [] } in
            rw (new, offer)
              (omega (
                arith,
                offer-work cs t rest,
                free-entered c config s.affected graph here new,
                length-append s.queue (c ∷ []),
              ))
      ]

  pub descend-enough :
      (n : ℕ) (s : Search)
      → HasUniqueKeys graph
      → work s ≤ n
      → descend n (reverse_from graph []) s ≢ raise (graph_error out_of_fuel)
  unfolding descend
  descend-enough zero s u h = elim (List-cases s.queue) [
    | inl e ↦ rw (e, descend) (λ k. cc)
    | inr (current, rest, e) ↦ absurd (omega (arith, ap length e))
  ]
  descend-enough (suc n) s u h = elim (List-cases s.queue) [
    | inl e ↦ rw (e, descend) (λ k. cc)
    | inr (current, rest, e) ↦
        let found = sort_by (λ id. id) (children current (reverse_from graph [])) in
        let s' = record s { queue = rest } in
        let grows = offer-work found s' (λ v m.
          depends_on-Deployed v current (
            sym (elem-sort_with (by_text (λ id. id)) v _ ∙ elem-children graph current v u) ∙ m)) in
        rw (e, descend) (descend-enough n (offer found s') u (omega (arith, grows, ap length e)))
  ]
