-- ===== src/Entities/Relations/Runs.antt =====
-- Runs of relation_manager.py: the duplicate check, and what it refuses too much.
use tactical_core.Base.{
  String, str_eq, eq_iff, Bool, true, false, not, ◌&&◌, List, [], ◌∷◌, any, filter, arith, ◌≡◌,
  refl, ◌∙◌, inl, inr, Bool-cases,
}
use tactical_core.Base.Result.{Result, ok, err}
use tactical_core.Base.Dict.{Dict, has_key, values}
use tactical_core.Base.Twins.{HasNoTwins, insert-HasNoTwins, remove-HasNoTwins}
use tactical_core.Entities.Relations.{
  Relation, is_supported, ValueError, duplicate, save, delete, concerns, list_for_entity, leads,
  create_relation, remove_relation,
}

module _ {C : Type 0} where
  -- Relations of one type between the same entities.
  abbrev pub same_triple : Relation C → Relation C → Bool
  same_triple a b =
      str_eq a.source_entity_id b.source_entity_id
      && (str_eq a.target_entity_id b.target_entity_id && str_eq a.relation_type b.relation_type)

  same_triple_comm : (a b : Relation C) → same_triple a b ≡ same_triple b a
  same_triple_comm a b = ground (
    arith,
    eq_iff a.source_entity_id b.source_entity_id,
    eq_iff b.source_entity_id a.source_entity_id,
    eq_iff a.target_entity_id b.target_entity_id,
    eq_iff b.target_entity_id a.target_entity_id,
    eq_iff a.relation_type b.relation_type,
    eq_iff b.relation_type a.relation_type,
  )

  leads-twin :
      (new : Relation C) (rs : List (Relation C))
      → any
          (leads new.target_entity_id new.relation_type)
          (filter (concerns new.source_entity_id) rs)
        ≡ false
      → any (same_triple new) rs ≡ false
  leads-twin new [] h = refl
  leads-twin new (r ∷ rs) h = ground (
    arith,
    h,
    leads-twin new rs,
    eq_iff new.source_entity_id r.source_entity_id,
    eq_iff r.source_entity_id new.source_entity_id,
    eq_iff new.target_entity_id r.target_entity_id,
    eq_iff r.target_entity_id new.target_entity_id,
    eq_iff new.relation_type r.relation_type,
    eq_iff r.relation_type new.relation_type,
  )

  leads-concerns :
      (target t : String) (rs : List (Relation C))
      → any (leads target t) (filter (concerns target) rs) ≡ any (leads target t) rs
  leads-concerns target t [] = refl
  leads-concerns target t (r ∷ rs) = ground (arith, leads-concerns target t rs)

pub data Call (C : Type 0) : Type 0 where
  creating : String → String → String → String → C → Call C
  removing : String → Call C

module _ {C : Type 0} where
  -- A call that raises leaves the store.
  abbrev pub or_same :
      Dict (Relation C) → Result ValueError (String × Dict (Relation C)) → Dict (Relation C)
  or_same store (ok (id, store')) = store'
  or_same store (err e) = store

  unfoldable pub after : Call C → Dict (Relation C) → Dict (Relation C)
  unfolding create_relation remove_relation
  after (creating uuid source target t columns) store =
      or_same store (create_relation uuid source target t columns store)
  after (removing id) store = (remove_relation id store).1

  unfoldable pub run : List (Call C) → Dict (Relation C) → Dict (Relation C)
  unfolding after
  run [] store = store
  run (call ∷ calls) store = run calls (after call store)

  create_relation-HasNoTwins :
      (uuid source target t : String) (columns : C) (store : Dict (Relation C))
      → HasNoTwins same_triple store
      → HasNoTwins same_triple (or_same store (create_relation uuid source target t columns store))
  unfolding create_relation list_for_entity save
  create_relation-HasNoTwins uuid source target t columns store h =
      let new : Relation C = record {
        relation_id = uuid;
        source_entity_id = source;
        target_entity_id = target;
        relation_type = t;
        columns = columns;
      } in
      elim (Bool-cases (is_supported t)) [
        | inr unknown ↦ rw (unknown, create_relation) h
        | inl known ↦ elim (Bool-cases (any (leads target t) (list_for_entity source store))) [
          | inl there ↦ rw (known, create_relation, there) h
          | inr free ↦
              rw (known, create_relation, free)
                (insert-HasNoTwins same_triple same_triple_comm uuid new store
                  (leads-twin new (values store) free) h)
        ]
      ]

  delete-HasNoTwins :
      (id : String) (store : Dict (Relation C))
      → HasNoTwins same_triple store
      → HasNoTwins same_triple (delete id store).1
  unfolding delete
  delete-HasNoTwins id store h = elim (Bool-cases (has_key id store)) [
    | inl there ↦ rw (there, delete) (remove-HasNoTwins same_triple id store h)
    | inr gone ↦ rw (gone, delete) h
  ]

  after-HasNoTwins :
      (call : Call C) (store : Dict (Relation C))
      → HasNoTwins same_triple store
      → HasNoTwins same_triple (after call store)
  unfolding after remove_relation
  after-HasNoTwins (creating uuid source target t columns) store h =
      create_relation-HasNoTwins uuid source target t columns store h
  after-HasNoTwins (removing id) store h = delete-HasNoTwins id store h

  -- Over every run of create_relation and remove_relation, also of calls that raise, no two
  -- relations of one type lead from one entity to the same entity.
  pub run-HasNoTwins :
      (calls : List (Call C)) (store : Dict (Relation C))
      → HasNoTwins same_triple store
      → HasNoTwins same_triple (run calls store)
  unfolding run
  run-HasNoTwins [] store h = h
  run-HasNoTwins (call ∷ calls) store h =
      run-HasNoTwins calls (after call store) (after-HasNoTwins call store h)

  other-leads :
      (id t : String) (rs : List (Relation C))
      → any (λ r. leads id t r && not (str_eq r.source_entity_id id)) rs ≡ true
      → any (leads id t) rs ≡ true
  other-leads id t [] h = h
  other-leads id t (r ∷ rs) h = ground (arith, h, other-leads id t rs)

  taken :
      (id t : String) (store : Dict (Relation C))
      → any (λ r. leads id t r && not (str_eq r.source_entity_id id)) (values store) ≡ true
      → any (leads id t) (list_for_entity id store) ≡ true
  unfolding list_for_entity
  taken id t store there =
      leads-concerns id t (values store) ∙ other-leads id t (values store) there

  -- A relation of an entity to itself is refused as a duplicate as soon as a relation of its type
  -- leads to the entity from any other one, although no relation of the entity to itself is there.
  pub create_relation_self :
      (uuid id t : String) (columns : C) (store : Dict (Relation C))
      → is_supported t ≡ true
      → any (λ r. leads id t r && not (str_eq r.source_entity_id id)) (values store) ≡ true
      → create_relation uuid id id t columns store ≡ err duplicate
  unfolding create_relation
  create_relation_self uuid id t columns store known there =
      rw (known, create_relation) (rw (taken id t store there) refl)
