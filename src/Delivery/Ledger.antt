-- ===== src/Delivery/Ledger.antt =====
-- backend/app/event_delivery/plugin_idempotency_ledger.py and plugin_idempotency.py:
-- `PluginDeliveryLedger`. The table is the list of its (event_id, plugin_id) pairs.
use tactical_core.Base.{
  String, ◌≡◌, refl, Bool, true, false, ◌&&◌, ◌||◌, Option, none, some, List, [], ◌∷◌, ◌++◌, str_eq,
  if◌then◌else◌, arith, eq_iff, Bool-cases, inl, inr, Option-cases, ap, ◌∙◌,
}

abbrev pub Entry : Type 0
Entry = String × String

unfoldable pub has_delivered : String → String → List Entry → Bool
has_delivered e p [] = false
has_delivered e p (k ∷ ks) = (str_eq k.0 e && str_eq k.1 p) || has_delivered e p ks

-- UNIQUE(event_id, plugin_id) refuses a second entry for the pair.
unfoldable pub record_delivery : String → String → List Entry → Bool × List Entry
unfolding has_delivered
record_delivery e p ledger =
    if has_delivered e p ledger then (false, ledger) else (true, ledger ++ (e, p) ∷ [])

-- What `run_idempotent` does: returns, or lets the exception of `fn` pass.
pub data Outcome (T : Type 0) : Type 0 where
  skipped : Outcome T
  ran : T → Outcome T
  raised : Outcome T

-- `fn` acts on the world, and returns a value or raises.
abbrev pub Plugin : Type 0 → Type 0 → Type 0
Plugin W T = W → Option T × W

module _ {W T : Type 0} where
  -- after `fn`: the record is written only if it returned
  unfoldable pub finish : String → String → List Entry → Option T × W → Outcome T × W × List Entry
  unfolding record_delivery
  finish e p ledger (none, w) = (raised, w, ledger)
  finish e p ledger (some t, w) = (ran t, w, (record_delivery e p ledger).1)

  unfoldable pub run_idempotent :
      String → String → Plugin W T → W → List Entry → Outcome T × W × List Entry
  unfolding has_delivered finish
  run_idempotent e p fn w ledger =
      if has_delivered e p ledger then (skipped, w, ledger) else finish e p ledger (fn w)

  -- Deliveries and redeliveries of one event to one plugin, which may act differently each time.
  unfoldable pub redeliver : String → String → List (Plugin W T) → W → List Entry → W × List Entry
  unfolding run_idempotent
  redeliver e p [] w ledger = (w, ledger)
  redeliver e p (fn ∷ fns) w ledger =
      let (outcome, w', ledger') = run_idempotent e p fn w ledger in redeliver e p fns w' ledger'

  -- The effects of the calls up to the first that returns.
  unfoldable pub until_success : List (Plugin W T) → W → W
  until_success [] w = w
  until_success (fn ∷ fns) w =
      let rest = until_success fns (fn w).1 in elim (fn w).0 [ none ↦ rest | some _ ↦ (fn w).1 ]

has_delivered-append :
    (e p : String) (ledger : List Entry) (e' p' : String)
    → has_delivered e p (ledger ++ (e', p') ∷ [])
      ≡ (has_delivered e p ledger || (str_eq e' e && str_eq p' p))
unfolding has_delivered
has_delivered-append e p [] e' p' = ground arith
has_delivered-append e p (k ∷ ks) e' p' = ground (arith, has_delivered-append e p ks e' p')

recorded : (e p : String) (ledger : List Entry) → has_delivered e p (ledger ++ (e, p) ∷ []) ≡ true
recorded e p ledger = has_delivered-append e p ledger e p ∙ ground (arith, eq_iff e e, eq_iff p p)

module _ {W T : Type 0} (e p : String) where
  redeliver-recorded :
      (fns : List (Plugin W T)) (w : W) (ledger : List Entry)
      → has_delivered e p ledger ≡ true
      → redeliver e p fns w ledger ≡ (w, ledger)
  unfolding redeliver
  redeliver-recorded [] w ledger h = refl
  redeliver-recorded (fn ∷ fns) w ledger h =
      rw (h, run_idempotent) (redeliver-recorded fns w ledger h)

  run-threw :
      (fn : Plugin W T) (w : W) (ledger : List Entry)
      → has_delivered e p ledger ≡ false
      → (fn w).0 ≡ none
      → run_idempotent e p fn w ledger ≡ (raised, (fn w).1, ledger)
  unfolding run_idempotent
  run-threw fn w ledger fresh threw = ground arith

  run-returned :
      (fn : Plugin W T) (w : W) (ledger : List Entry) (t : T)
      → has_delivered e p ledger ≡ false
      → (fn w).0 ≡ some t
      → run_idempotent e p fn w ledger ≡ (ran t, (fn w).1, ledger ++ (e, p) ∷ [])
  unfolding run_idempotent
  run-returned fn w ledger t fresh returned = ground arith

  -- However often an event is redelivered to a plugin, and however each call ends, the world is
  -- left as by the calls up to the first that returns, or untouched if the pair was recorded.
  pub redeliver-until_success :
      (fns : List (Plugin W T)) (w : W) (ledger : List Entry)
      → (redeliver e p fns w ledger).0
        ≡ (if has_delivered e p ledger then w else until_success fns w)
  unfolding redeliver until_success
  redeliver-until_success [] w ledger = ground arith
  redeliver-until_success (fn ∷ fns) w ledger = elim (Bool-cases (has_delivered e p ledger)) [
    | inl done ↦ rw (done, redeliver-recorded (fn ∷ fns) w ledger done)
    | inr fresh ↦ elim (Option-cases (fn w).0) [
      | inl threw ↦
          ap world (run-threw fn w ledger fresh threw)
          ∙ redeliver-until_success fns (fn w).1 ledger
          ∙ rw (fresh, threw, until_success)
      | inr (t, returned) ↦
          ap world (run-returned fn w ledger t fresh returned)
          ∙ ap (λ (s : W × List Entry). s.0)
              (redeliver-recorded fns (fn w).1 (ledger ++ (e, p) ∷ []) (recorded e p ledger))
          ∙ rw (fresh, returned, until_success)
    ]
  ]
    where
      world : Outcome T × W × List Entry → W
      world r = (redeliver e p fns r.1 r.2).0
