-- ===== src/Entities/Graph/Invariant.antt =====
-- The graph of entity_graph.py over any run of its methods.
use tactical_core.Base.{
  String, str_eq, eq_iff, Bool, false, not, ◌&&◌, List, [], ◌∷◌, any, All, All-mono, arith, ◌≡◌,
  inl, inr, Bool-cases,
}
use tactical_core.Base.Dict.{
  Dict, remove, values, HasDistinctKeys, remove-HasDistinctKeys, All-remove,
}
use tactical_core.Base.Twins.{HasNoTwins, remove-HasNoTwins}
use tactical_core.Entities.Graph.{GraphEdge, touches, same_ends, delete_touching}

module _ {L : Type 0} where
  pub same_ends_comm : (a b : GraphEdge L) → same_ends a b ≡ same_ends b a
  same_ends_comm a b = ground (
    arith,
    eq_iff a.source_node b.source_node,
    eq_iff b.source_node a.source_node,
    eq_iff a.target_node b.target_node,
    eq_iff b.target_node a.target_node,
  )

  -- No two edges lead from one node to one node.
  abbrev pub HasNoTwinEdges : Dict (GraphEdge L) → Type 0
  HasNoTwinEdges = HasNoTwins same_ends

  -- Some edge of a list is deleted under this key.
  abbrev pub goes_with : String → List (GraphEdge L) → String → Bool
  goes_with id es k = any (λ e. touches id e && str_eq e.edge_id k) es

  abbrev pub Left : String → List (GraphEdge L) → String × GraphEdge L → Type 0
  Left id es entry = (touches id entry.1 && not (goes_with id es entry.0)) ≡ false

  pub goes_with_self :
      (id : String) (d : Dict (GraphEdge L))
      → All (λ (x : String × GraphEdge L). x.0 ≡ x.1.edge_id) d
      → All (Left id (values d)) d
  goes_with_self id [] named = tt
  goes_with_self id ((k, e) ∷ d) named = (
    ground (arith, named.0, eq_iff e.edge_id k),
    All-mono (Left id (values d)) (Left id (e ∷ values d)) d (λ x h. ground (arith, h))
        (goes_with_self id d named.1),
  )

  -- What the deletion keeps, for a property of the entries.
  module _ (P : String × GraphEdge L → Type 0) (id : String) where
    abbrev pub KeepsEdges : Dict (GraphEdge L) → Type 0
    KeepsEdges d = HasDistinctKeys d × HasNoTwinEdges d × All P d

    pub remove-KeepsEdges :
        (k : String) (d : Dict (GraphEdge L)) → KeepsEdges d → KeepsEdges (remove k d)
    remove-KeepsEdges k d (keys, twins, all) = (
      remove-HasDistinctKeys k d keys,
      remove-HasNoTwins same_ends k d twins,
      All-mono _ P (remove k d) (λ x h. h.0) (All-remove P k d keys all),
    )

    pub delete-Keeps :
        (es : List (GraphEdge L)) (d : Dict (GraphEdge L))
        → KeepsEdges d
        → All (Left id es) d
        → KeepsEdges (delete_touching id es d)
          × All (λ (x : String × GraphEdge L). touches id x.1 ≡ false) (delete_touching id es d)
    unfolding delete_touching
    delete-Keeps [] d h left = (h, All-mono (Left id []) _ d (λ x k. ground (arith, k)) left)
    delete-Keeps (e ∷ es) d h left = elim (Bool-cases (touches id e)) [
      | inl hit ↦
          rw (hit, delete_touching)
            (delete-Keeps es (remove e.edge_id d) (remove-KeepsEdges e.edge_id d h) (
              All-mono _ (Left id es) (remove e.edge_id d)
                (λ x k. ground (arith, k, eq_iff x.0 e.edge_id, eq_iff e.edge_id x.0))
                (All-remove (Left id (e ∷ es)) e.edge_id d h.0 left)))
      | inr miss ↦
          rw (miss, delete_touching)
            (delete-Keeps es d h
              (All-mono (Left id (e ∷ es)) (Left id es) d (λ x k. ground (arith, k, miss)) left))
    ]
