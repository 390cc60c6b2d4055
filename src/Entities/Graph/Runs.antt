-- ===== src/Entities/Graph/Runs.antt =====
-- Runs of the methods of entity_graph.py that change the graph.
use tactical_core.Base.{
  String, eq_iff, true, ◌&&◌, List, [], ◌∷◌, All, All-mono, All-both, arith, ◌≡◌, refl, inl, inr,
  Bool-cases,
}
use tactical_core.Base.Result.{Result, ok, err}
use tactical_core.Base.Dict.{
  Dict, has_key, insert, remove, values, HasDistinctKeys, has_key-insert, insert-HasDistinctKeys,
  has_key-remove, remove-HasDistinctKeys, All-insert,
}
use tactical_core.Entities.Graph.{
  Graph, GraphNode, GraphEdge, same_ends, ValueError, delete_touching, create_node, remove_node,
  create_edge, remove_edge,
}
use tactical_core.Base.Twins.{has_twin, insert-HasNoTwins}
use tactical_core.Entities.Graph.Invariant.{
  HasNoTwinEdges, same_ends_comm, remove-KeepsEdges, delete-Keeps, goes_with_self,
}

pub data Call (N L : Type 0) : Type 0 where
  creating_node : GraphNode N → Call N L
  removing_node : String → Call N L
  creating_edge : GraphEdge L → Call N L
  removing_edge : String → Call N L

module _ {N L : Type 0} where
  -- A call that raises leaves the graph.
  abbrev pub or_same : Graph N L → Result ValueError (Graph N L) → Graph N L
  or_same g (ok g') = g'
  or_same g (err e) = g

  unfoldable pub after : Call N L → Graph N L → Graph N L
  unfolding create_node remove_node create_edge remove_edge
  after (creating_node n) g = or_same g (create_node n g)
  after (removing_node id) g = (remove_node id g).1
  after (creating_edge e) g = or_same g (create_edge e g)
  after (removing_edge id) g = (remove_edge id g).1

  unfoldable pub run : List (Call N L) → Graph N L → Graph N L
  unfolding after
  run [] g = g
  run (call ∷ calls) g = run calls (after call g)

  -- An edge stands under its own id, and both of its nodes are there.
  abbrev pub Fits : Dict (GraphNode N) → String × GraphEdge L → Type 0
  Fits nodes (k, e) =
      (k ≡ e.edge_id) × (has_key e.source_node nodes ≡ true) × (has_key e.target_node nodes ≡ true)

  pub record IsGraph (g : Graph N L) : Type 0 where
    pub node_keys : HasDistinctKeys g.nodes
    pub edge_keys : HasDistinctKeys g.edges
    pub no_twins : HasNoTwinEdges g.edges
    pub fit : All (Fits g.nodes) g.edges

  create_node-IsGraph :
      (n : GraphNode N) (g : Graph N L) → IsGraph g → IsGraph (or_same g (create_node n g))
  unfolding create_node
  create_node-IsGraph n g h = elim (Bool-cases (has_key n.node_id g.nodes)) [
    | inl old ↦ rw (old, create_node) h
    | inr new ↦
        rw (new, create_node)
          (record {
            node_keys = insert-HasDistinctKeys n.node_id n g.nodes h.node_keys;
            edge_keys = h.edge_keys;
            no_twins = h.no_twins;
            fit =
                All-mono (Fits g.nodes) (Fits (insert n.node_id n g.nodes)) g.edges
                  (λ x k. (
                    k.0,
                    ground (arith, k.1, has_key-insert n.node_id x.1.source_node n g.nodes),
                    ground (arith, k.2, has_key-insert n.node_id x.1.target_node n g.nodes),
                  ))
                  h.fit;
          })
  ]

  remove_node-IsGraph : (id : String) (g : Graph N L) → IsGraph g → IsGraph (remove_node id g).1
  unfolding remove_node
  remove_node-IsGraph id g h = elim (Bool-cases (has_key id g.nodes)) [
    | inr gone ↦ rw (gone, remove_node) h
    | inl there ↦
        let ((keys, twins, fit), free) =
          delete-Keeps (Fits g.nodes) id (values g.edges) g.edges (h.edge_keys, h.no_twins, h.fit)
            (goes_with_self id g.edges (All-mono (Fits g.nodes) _ g.edges (λ x k. k.0) h.fit)) in
        rw (there, remove_node)
          (record {
            node_keys = remove-HasDistinctKeys id g.nodes h.node_keys;
            edge_keys = keys;
            no_twins = twins;
            fit =
                All-mono _ (Fits (remove id g.nodes)) (delete_touching id (values g.edges) g.edges)
                  (λ (x : String × GraphEdge L) k. (
                    k.0.0,
                    ground (
                      arith,
                      k.0.1,
                      k.1,
                      has_key-remove id x.1.source_node g.nodes h.node_keys,
                      eq_iff id x.1.source_node,
                      eq_iff x.1.source_node id,
                    ),
                    ground (
                      arith,
                      k.0.2,
                      k.1,
                      has_key-remove id x.1.target_node g.nodes h.node_keys,
                      eq_iff id x.1.target_node,
                      eq_iff x.1.target_node id,
                    ),
                  ))
                  (All-both (Fits g.nodes) _ (delete_touching id (values g.edges) g.edges) fit
                    free);
          })
  ]

  create_edge-IsGraph :
      (e : GraphEdge L) (g : Graph N L) → IsGraph g → IsGraph (or_same g (create_edge e g))
  unfolding create_edge
  create_edge-IsGraph e g h =
      elim (Bool-cases (has_key e.source_node g.nodes && has_key e.target_node g.nodes)) [
        | inr gone ↦ rw (gone, create_edge) h
        | inl there ↦ elim (Bool-cases (has_twin same_ends e g.edges)) [
          | inl twin ↦ rw (there, create_edge, twin) h
          | inr new ↦
              rw (there, create_edge, new)
                (record {
                  node_keys = h.node_keys;
                  edge_keys = insert-HasDistinctKeys e.edge_id e g.edges h.edge_keys;
                  no_twins =
                      insert-HasNoTwins same_ends same_ends_comm e.edge_id e g.edges new h.no_twins;
                  fit =
                      All-insert (Fits g.nodes) e.edge_id e g.edges
                        (λ j same. (
                          (eq_iff j e.edge_id).0 same,
                          ground (arith, there),
                          ground (arith, there),
                        ))
                        (refl, ground (arith, there), ground (arith, there)) h.fit;
                })
        ]
      ]

  remove_edge-IsGraph : (id : String) (g : Graph N L) → IsGraph g → IsGraph (remove_edge id g).1
  unfolding remove_edge
  remove_edge-IsGraph id g h = elim (Bool-cases (has_key id g.edges)) [
    | inr gone ↦ rw (gone, remove_edge) h
    | inl there ↦
        let (keys, twins, fit) =
          remove-KeepsEdges (Fits g.nodes) id id g.edges (h.edge_keys, h.no_twins, h.fit) in
        rw (there, remove_edge)
          (record { node_keys = h.node_keys; edge_keys = keys; no_twins = twins; fit = fit })
  ]

  after-IsGraph : (call : Call N L) (g : Graph N L) → IsGraph g → IsGraph (after call g)
  unfolding after
  after-IsGraph (creating_node n) g h = create_node-IsGraph n g h
  after-IsGraph (removing_node id) g h = remove_node-IsGraph id g h
  after-IsGraph (creating_edge e) g h = create_edge-IsGraph e g h
  after-IsGraph (removing_edge id) g h = remove_edge-IsGraph id g h

  -- Over every run of create_node, remove_node, create_edge and remove_edge, also of calls that
  -- raise: both nodes of every edge stay in the graph, no two edges lead from one node to the same
  -- node, every edge stands under its own id, and no id stands twice.
  pub run-IsGraph : (calls : List (Call N L)) (g : Graph N L) → IsGraph g → IsGraph (run calls g)
  unfolding run
  run-IsGraph [] g h = h
  run-IsGraph (call ∷ calls) g h = run-IsGraph calls (after call g) (after-IsGraph call g h)
