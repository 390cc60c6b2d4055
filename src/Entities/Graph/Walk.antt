-- ===== src/Entities/Graph/Walk.antt =====
-- Walks along the edges of entity_graph.py, from the source of a search.
use tactical_core.Base.{
  ℕ, zero, suc, String, str_eq, eq_refl, Bool, true, ◌&&◌, List, [], ◌∷◌, ◌++◌, any, All, All-mono,
  arith, ◌≡◌,
}
use tactical_core.Entities.Graph.{GraphEdge}

module _ {L : Type 0} where
  -- Some edge leads from one node to another.
  abbrev pub joins : List (GraphEdge L) → String → String → Bool
  joins edges c d = any (λ e. str_eq e.source_node c && str_eq e.target_node d) edges

  -- A node that `n` edges, one after the other, lead to.
  abbrev pub Steps : List (GraphEdge L) → String → ℕ → String → Type 0
  Steps edges source zero v = v ≡ source
  Steps edges source (suc n) v = (c : String) × Steps edges source n c × (joins edges c v ≡ true)

  -- The nodes on such a walk, both ends included.
  pub data Walk (edges : List (GraphEdge L)) (source : String)
      : ℕ → List String → String → Type 0 where
    start : {p : List String} {v : String} → v ≡ source → p ≡ source ∷ [] → Walk edges source 0 p v
    extend :
        {n : ℕ} {p p' : List String} {c d : String}
        → Walk edges source n p c
        → joins edges c d ≡ true
        → p' ≡ p ++ d ∷ []
        → Walk edges source (suc n) p' d

  pub joins_self :
      (edges : List (GraphEdge L)) → All (λ e. joins edges e.source_node e.target_node ≡ true) edges
  joins_self [] = tt
  joins_self (e ∷ es) = (
    ground (arith, eq_refl e.source_node, eq_refl e.target_node),
    All-mono (λ x. joins es x.source_node x.target_node ≡ true)
        (λ x. joins (e ∷ es) x.source_node x.target_node ≡ true) es (λ x h. ground (arith, h))
        (joins_self es),
  )
