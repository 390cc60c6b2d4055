-- ===== src/Entities/Graph/Search.antt =====
-- `shortest_path` of entity_graph.py: the loop ends, and finds a shortest walk if there is one.
use tactical_core.Base.{
  ℕ, zero, suc, ◌+◌, ◌≤◌, ◌<◌, String, str_eq, eq_refl, eq_iff, true, false, not, List, [], ◌∷◌,
  ◌++◌, length, length-append, length-filter-le, arith, ◌≡◌, refl, sym, subst, ◌∙◌, ◌⊎◌, inl, inr,
  Bool-cases,
}
use mathlib.Core.Bool.{false≢true}
use mathlib.Core.List.{append-nil, append_assoc}
use tactical_core.Entities.Graph.{
  GraphEdge, contains, Entry, Expanded, reached, going, expand, Found, path, no_path, out_of_fuel,
  search, shortest_path,
}
use tactical_core.Entities.Graph.Walk.{joins_self, Steps, Walk, start}
use tactical_core.Entities.Graph.Expand.{queued, unvisited, Expands, reaches, goes, expand-Expands}
use tactical_core.Entities.Graph.Layers.{
  Closed, Layered, next_layer, next_round, all_marked, beyond,
}

module _ {L : Type 0} (edges : List (GraphEdge L)) (source target : String) where
  -- What a result means.
  abbrev pub IsShortest : Found → Type 0
  IsShortest (path p) =
      (n : ℕ) × Walk edges source n p target × ((m : ℕ) → Steps edges source m target → n ≤ m)
  IsShortest no_path = (m : ℕ) → ¬ Steps edges source m target
  IsShortest out_of_fuel = ⊥

  -- One round, for the fuel that is left after it.
  module _ (fuel : ℕ) where
    abbrev Rest : Type 0
    Rest =
        (n : ℕ) (visited : List String) (front back : List Entry)
        → Layered edges source target n visited front back
        → length front + length back + unvisited edges visited < fuel
        → IsShortest (search fuel target edges visited (front ++ back))

    round :
        Rest
        → (n : ℕ) (current : String) (p : List String) (visited : List String)
          (front back : List Entry)
        → Layered edges source target n visited ((current, p) ∷ front) back
        → length front + length back + unvisited edges visited < fuel
        → IsShortest (search (suc fuel) target edges visited ((current, p) ∷ (front ++ back)))
    unfolding search
    round rest n current p visited front back h enough =
        go (expand target (current, p) edges visited (front ++ back)) (
          expand-Expands edges source target n current p edges visited (front ++ back)
            h.front_walks.0 (joins_self edges))
      where
        go :
            (x : Expanded)
            → Expands edges source target n current edges visited (front ++ back) x
            → IsShortest (elim x [
              | reached p' ↦ path p'
              | going visited' queue' ↦ search fuel target edges visited' queue'
            ])
        go x (reaches p' walk) =
            (suc n, walk, beyond edges source target n visited ((current, p) ∷ front) back h)
        go x (goes visited' queue' pushed eq g) =
            subst (λ q. IsShortest (search fuel target edges visited' q))
              (sym (eq ∙ append_assoc front back pushed))
              (rest n visited' front (back ++ pushed)
                (next_round edges source target n current p visited visited' front back pushed h g)
                (omega (arith, enough, g.smaller, length-append back pushed)))

  -- The rounds left are bounded by the queue and the edges to nodes that are not marked.
  search-IsShortest :
      (fuel n : ℕ) (visited : List String) (front back : List Entry)
      → Layered edges source target n visited front back
      → length front + length back + unvisited edges visited < fuel
      → IsShortest (search fuel target edges visited (front ++ back))
  unfolding search
  search-IsShortest zero n visited front back h enough = elim enough [ ]
  search-IsShortest (suc fuel) n visited [] [] h enough = λ m steps.
      false≢true (sym h.target_new ∙ all_marked edges source target n visited h m target steps)
  search-IsShortest (suc fuel) n visited [] ((current, p) ∷ back) h enough =
      subst (λ q. IsShortest (search (suc fuel) target edges visited ((current, p) ∷ q)))
        (append-nil back)
        (round fuel (search-IsShortest fuel) (suc n) current p visited back []
          (next_layer edges source target n visited ((current, p) ∷ back) h) (omega arith))
  search-IsShortest (suc fuel) n visited ((current, p) ∷ front) back h enough =
      round fuel (search-IsShortest fuel) n current p visited front back h (omega arith)

  first_layer :
      str_eq source target ≡ false
      → Layered edges source target 0 (source ∷ []) ((source, source ∷ []) ∷ []) []
  first_layer differs = record {
    front_walks = (start refl refl, tt);
    back_walks = tt;
    target_new = ground (arith, differs, eq_iff source target, eq_iff target source);
    marked = λ v k. inr (ground (arith, k));
    near = λ m v le steps. source_near m v le steps;
  }
    where
      source_near :
          (m : ℕ) (v : String)
          → m ≤ 0
          → Steps edges source m v
          → (contains v (source ∷ []) ≡ true)
            × (Closed edges source target (source ∷ []) v
                ⊎ (queued v ((source, source ∷ []) ∷ []) ≡ true))
      source_near zero v le steps = (rw (steps, eq_refl), inr (rw (steps, eq_refl)))
      source_near (suc m) v le steps = absurd (omega (arith, le))

  -- With two more rounds of fuel than there are edges, the search ends, and its result is right: a
  -- path is a walk along the edges from the source to the target, and no walk between them has
  -- fewer edges; and there is no path only if no walk leads from the source to the target.
  pub shortest_path-IsShortest :
      (fuel : ℕ) → length edges + 1 < fuel → IsShortest (shortest_path fuel source target edges)
  unfolding shortest_path
  shortest_path-IsShortest fuel enough = elim (Bool-cases (str_eq source target)) [
    | inl same ↦
        rw (same, shortest_path)
          (0, start (sym ((eq_iff source target).0 same)) refl, λ m steps. omega arith)
    | inr differs ↦
        rw (differs, shortest_path)
          (search-IsShortest fuel 0 (source ∷ []) ((source, source ∷ []) ∷ []) []
            (first_layer differs)
            (omega (
              arith,
              enough,
              length-filter-le (λ (e : GraphEdge L). not (contains e.target_node (source ∷ [])))
                  edges,
            )))
  ]
