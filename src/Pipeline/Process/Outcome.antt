-- ===== src/Pipeline/Process/Outcome.antt =====
-- The ways out of `EventPipeline.process` on the durable path, with the atomic repository.
use tactical_core.Base.{
  String, ◌≡◌, ◌≢◌, refl, ap, sym, subst, ◌∙◌, Bool, true, false, Option, none, some, if◌then◌else◌,
}
use tactical_core.Base.Result.{Result, ok, err}
use tactical_core.Delivery.Dispatcher.{Dispatcher}
use tactical_core.Projection.EventLog.Deliveries.{
  Store, save_with_deliveries, DistinctConsumers, save_with_deliveries_complete,
}
use tactical_core.Pipeline.Effects.{
  Value, absent, canonical, other, Failure, State, Callable, after_result, run_middleware, passes,
  pure, type_error, attribute_error,
}
use tactical_core.Pipeline.Process.{
  Readings, with_uuids, committed, commit, project, deliver, commit_and_deliver, process_durable,
  route, filtered, process,
}
use tactical_core.Pipeline.Setup.{Pipeline, atomic}

module _ {W E X : Type 0} where
  -- The callables let a value through: the first middleware makes a canonical event of it, the
  -- filters pass this event, and the last middleware makes of it the event that is committed.
  pub record Admits (p : Pipeline W E X) (v : Value E X) (w : W) (id : String) (columns : E)
      (after : W) : Type 0 where
    pub first : String × E
    pub entered : W
    pub passed : W
    pub before_ran :
        run_middleware p.before_middleware v w ≡ (ok (canonical first.0 first.1), entered)
    pub filters_ran : passes p.filters (canonical first.0 first.1) entered ≡ (ok true, passed)
    pub after_ran :
        run_middleware p.after_middleware (canonical first.0 first.1) passed
        ≡ (ok (canonical id columns), after)

  -- What the commit of an event and its projection make of the state.
  abbrev pub stored : Pipeline W E X → String → E → W → Store E → State W E
  stored p id columns w store =
      (project p.projection (canonical id columns) (record { world = w; store = store })).1

project_ok :
    {W E X : Type 0} (o : Option (Callable W (Value E X) Unit)) (v : Value E X) (s : State W E)
    → project o v s ≡ (ok tt, (project o v s).1)
unfolding project
project_ok none v s = refl
project_ok (some f) v s = refl

module _ {W E X : Type 0} (c : Readings) (p : Pipeline W E X) (d : Dispatcher W (Value E X))
    (v : Value E X) (s : State W E) where
  pub data Outcome : Result Failure Bool × State W E → Type 0 where
    accepted :
        (id : String) (columns : E) (w : W) (store : Store E)
        → Admits p v s.world id columns w
        → save_with_deliveries (c.clock 0) id columns (with_uuids c p.outbox_consumer_ids) s.store
          ≡ ok store
        → Outcome (ok true, deliver c p d (canonical id columns) (stored p id columns w store))
    refused : (r : Result Failure Bool) (w : W) → r ≢ ok true → Outcome (r, record s { world = w })

  deliver_after : Result Failure Unit × State W E → Value E X → Result Failure Bool × State W E
  deliver_after (r, s1) v' = after_result (λ _ s2. (ok true, deliver c p d v' s2)) r s1

  project_after : Result Failure Unit × State W E → Value E X → Result Failure Bool × State W E
  unfolding deliver_after
  project_after (r, s1) v' =
      after_result (λ _ s2. deliver_after (project p.projection v' s2) v') r s1

  module _ (is_atomic : p.repository ≡ atomic) where
    commits :
        (id : String) (columns : E) (w : W) (store : Store E)
        → save_with_deliveries (c.clock 0) id columns (with_uuids c p.outbox_consumer_ids) s.store
          ≡ ok store
        → commit_and_deliver c p d (canonical id columns) (record s { world = w })
          ≡ (ok true, deliver c p d (canonical id columns) (stored p id columns w store))
    unfolding commit_and_deliver commit project_after
    commits id columns w store eq =
        ap
          (λ o.
            project_after (commit c p o (canonical id columns) (record s { world = w }))
              (canonical id columns))
          is_atomic
        ∙ ap (λ o. project_after (committed o (record s { world = w })) (canonical id columns)) eq
        ∙ ap (λ o. deliver_after o (canonical id columns))
            (project_ok p.projection (canonical id columns) (record { world = w; store = store }))

    raises :
        (v' : Value E X) (w : W)
        → commit c p atomic v' (record s { world = w })
          ≡ (err attribute_error, record s { world = w })
        → project_after (commit c p p.repository v' (record s { world = w })) v'
          ≡ (err attribute_error, record s { world = w })
    unfolding project_after
    raises v' w eq =
        ap (λ o. project_after (commit c p o v' (record s { world = w })) v') is_atomic
        ∙ ap (λ o. project_after o v') eq

    module _ (distinct : DistinctConsumers (with_uuids c p.outbox_consumer_ids)) where
      by_commit :
          (first : String × E) (entered passed w : W)
          → run_middleware p.before_middleware v s.world ≡ (ok (canonical first.0 first.1), entered)
          → passes p.filters (canonical first.0 first.1) entered ≡ (ok true, passed)
          → (v' : Value E X)
          → run_middleware p.after_middleware (canonical first.0 first.1) passed ≡ (ok v', w)
          → Outcome (commit_and_deliver c p d v' (record s { world = w }))
      unfolding commit_and_deliver project_after commit
      by_commit first entered passed w before filters absent after = refused (ok false) w (cc)
      by_commit first entered passed w before filters (other id x) after =
          subst Outcome (sym (raises (other id x) w refl)) (refused (err attribute_error) w (cc))
      by_commit first entered passed w before filters (canonical id columns) after =
          let all =
            save_with_deliveries_complete (c.clock 0) id columns
              (with_uuids c p.outbox_consumer_ids) s.store distinct in
          subst Outcome (sym (commits id columns w all.0 all.1)) (
            accepted id columns w all.0
              (record {
                first = first;
                entered = entered;
                passed = passed;
                before_ran = before;
                filters_ran = filters;
                after_ran = after;
              })
              all.1)

      by_after :
          (first : String × E) (entered passed : W)
          → run_middleware p.before_middleware v s.world ≡ (ok (canonical first.0 first.1), entered)
          → passes p.filters (canonical first.0 first.1) entered ≡ (ok true, passed)
          → (r : Result Failure (Value E X)) (w : W)
          → run_middleware p.after_middleware (canonical first.0 first.1) passed ≡ (r, w)
          → Outcome (after_result (commit_and_deliver c p d) r (record s { world = w }))
      by_after first entered passed before filters (ok v') w after =
          by_commit first entered passed w before filters v' after
      by_after first entered passed before filters (err e) w after = refused (err e) w (cc)

      module _ (delivers : p.delivery ≡ some d) where
        by_filters :
            (first : String × E) (entered : W)
            → run_middleware p.before_middleware v s.world
              ≡ (ok (canonical first.0 first.1), entered)
            → (r : Result Failure Bool) (w : W)
            → passes p.filters (canonical first.0 first.1) entered ≡ (r, w)
            → Outcome (
                after_result
                  (λ pass.
                    if pass then route c p p.delivery (canonical first.0 first.1) else pure false)
                  r
                  (record s { world = w }))
        unfolding route process_durable
        by_filters first entered before (err e) w filters = refused (err e) w (cc)
        by_filters first entered before (ok false) w filters = refused (ok false) w (cc)
        by_filters first entered before (ok true) w filters =
            subst (λ o. Outcome (route c p o (canonical first.0 first.1) (record s { world = w })))
              (sym delivers)
              (by_after first entered w before filters
                (run_middleware p.after_middleware (canonical first.0 first.1) w).0
                (run_middleware p.after_middleware (canonical first.0 first.1) w).1 refl)

        other_refused :
            (id : Option String) (x : X) (r : Result Failure Bool) (w : W)
            → Outcome (
                after_result
                  (λ pass. if pass then route c p p.delivery (other id x) else pure false)
                  r
                  (record s { world = w }))
        unfolding route process_durable
        other_refused id x (err e) w = refused (err e) w (cc)
        other_refused id x (ok false) w = refused (ok false) w (cc)
        other_refused id x (ok true) w =
            subst (λ o. Outcome (route c p o (other id x) (record s { world = w }))) (sym delivers)
              (refused (err type_error) w (cc))

        by_before :
            (r : Result Failure (Value E X)) (w : W)
            → run_middleware p.before_middleware v s.world ≡ (r, w)
            → Outcome (after_result (filtered c p) r (record s { world = w }))
        unfolding filtered
        by_before (err e) w before = refused (err e) w (cc)
        by_before (ok absent) w before = refused (ok false) w (cc)
        by_before (ok (other id x)) w before =
            other_refused id x (passes p.filters (other id x) w).0
              (passes p.filters (other id x) w).1
        by_before (ok (canonical id columns)) w before =
            by_filters (id, columns) w before (passes p.filters (canonical id columns) w).0
              (passes p.filters (canonical id columns) w).1 refl

        -- Every call of `process` ends in one of these ways.
        pub process-Outcome : Outcome (process c p v s)
        unfolding process
        process-Outcome =
            by_before (run_middleware p.before_middleware v s.world).0
              (run_middleware p.before_middleware v s.world).1 refl
