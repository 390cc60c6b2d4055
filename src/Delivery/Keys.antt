-- ===== src/Delivery/Keys.antt =====
-- The UNIQUE(event_id, consumer_id) boundary of outbox_repository.py, over runs of its methods.
use tactical_core.Base.{
  ℕ, String, ◌≡◌, refl, ap, Bool, true, false, ◌&&◌, ◌||◌, List, [], ◌∷◌, ◌++◌, Bool-cases, arith,
  if◌then◌else◌, str_eq, inl, inr, none, some, map, ◌∙◌, eq_iff,
}
use tactical_core.Delivery.Row.{Row, find_pair, modify_pair, update_where}
use tactical_core.Delivery.Outbox
use tactical_core.Delivery.Outbox.{
  Policy, fresh_row, is_exhausted, retire_exhausted, retired, claim_one, claim_loop, claim_pending,
  candidate_ids, mark_delivered, mark_pending, mark_failed, mark_dead_letter, set_failed,
  set_requeued, requeue_dead_letter, claimable, claimed, set_delivered, set_pending,
  set_dead_letter,
}
use tactical_core.Delivery.Trace.{Call, after, run}

abbrev pub keys : List Row → List (String × String)
keys = map (λ r. (r.event_id, r.consumer_id))

abbrev pub holds : String → String → List (String × String) → Bool
holds e c [] = false
holds e c (k ∷ ks) = (str_eq k.0 e && str_eq k.1 c) || holds e c ks

-- No pair has two records.
abbrev pub IsUnique : List (String × String) → Type 0
IsUnique [] = Unit
IsUnique (k ∷ ks) = (holds k.0 k.1 ks ≡ false) × IsUnique ks

abbrev KeepsKey : (Row → Row) → Type 0
KeepsKey f = (r : Row) → ((f r).event_id ≡ r.event_id) × ((f r).consumer_id ≡ r.consumer_id)

keys-update_where :
    (test : Row → Bool) (f : Row → Row) (rows : List Row)
    → KeepsKey f
    → keys (update_where test f rows) ≡ keys rows
unfolding update_where
keys-update_where test f [] k = refl
keys-update_where test f (r ∷ rs) k = ground (arith, k r, keys-update_where test f rs k)

keys-modify_pair :
    (e c : String) (f : Row → Row) (rows : List Row)
    → KeepsKey f
    → keys (modify_pair e c f rows) ≡ keys rows
unfolding modify_pair
keys-modify_pair e c f [] k = refl
keys-modify_pair e c f (r ∷ rs) k = ground (arith, k r, keys-modify_pair e c f rs k)

keys-claim_loop :
    (p : Policy) (now : ℕ) (rids : List String) (rows : List Row)
    → keys (claim_loop p now rids rows).1 ≡ keys rows
unfolding claim_loop claim_one
keys-claim_loop p now [] rows = refl
keys-claim_loop p now (rid ∷ rids) rows =
    keys-claim_loop p now rids (claim_one p now rid rows).1
    ∙ keys-update_where (claimable p now rid) (claimed now) rows (λ r. (refl, refl))

set_failed-key :
    (p : Policy) (now later : ℕ) (error : List ℕ) → KeepsKey (set_failed p now later error)
set_failed-key p now later error r = ground arith

-- Every method but `enqueue` leaves the pairs as they are.
keys-requeue :
    (now : ℕ) (e c : String) (rows : List Row)
    → keys (requeue_dead_letter now e c rows).1 ≡ keys rows
unfolding requeue_dead_letter
keys-requeue now e c rows =
    ground (arith, keys-modify_pair e c (set_requeued now) rows (λ r. (refl, refl)))

find_pair-holds :
    (e c : String) (rows : List Row)
    → holds e c (keys rows) ≡ elim (find_pair e c rows) [ none ↦ false | some _ ↦ true ]
unfolding find_pair
find_pair-holds e c [] = refl
find_pair-holds e c (r ∷ rs) = ground (arith, find_pair-holds e c rs)

keys-append :
    (rows : List Row) (r : Row)
    → keys (rows ++ r ∷ []) ≡ keys rows ++ (r.event_id, r.consumer_id) ∷ []
keys-append [] r = refl
keys-append (s ∷ rs) r = ap (◌∷◌ (s.event_id, s.consumer_id)) (keys-append rs r)

keys-enqueue :
    (uuid : String) (now : ℕ) (e c : String) (rows : List Row)
    → keys (Outbox.enqueue uuid now e c rows).1
      ≡ (if holds e c (keys rows) then keys rows else keys rows ++ (e, c) ∷ [])
unfolding Outbox.enqueue
keys-enqueue uuid now e c rows =
    ground (arith, find_pair-holds e c rows, keys-append rows (fresh_row uuid e c now))

holds-append :
    (e c : String) (ks : List (String × String)) (k : String × String)
    → holds e c (ks ++ k ∷ []) ≡ (holds e c ks || (str_eq k.0 e && str_eq k.1 c))
holds-append e c [] k = ground arith
holds-append e c (j ∷ ks) k = ground (arith, holds-append e c ks k)

IsUnique-append :
    (e c : String) (ks : List (String × String))
    → holds e c ks ≡ false
    → IsUnique ks
    → IsUnique (ks ++ (e, c) ∷ [])
IsUnique-append e c [] new u = (refl, tt)
IsUnique-append e c (k ∷ ks) new u = (
  ground (
    arith,
    holds-append k.0 k.1 ks (e, c),
    eq_iff k.0 e,
    eq_iff k.1 c,
    eq_iff e k.0,
    eq_iff c k.1,
  ),
  IsUnique-append e c ks (ground arith) u.1,
)

-- The pairs after a call: as before, or with one new pair at the end.
data Grows (ks : List (String × String)) : List (String × String) → Type 0 where
  same : {ls : List (String × String)} → ls ≡ ks → Grows ks ls
  added :
      (e c : String) {ls : List (String × String)}
      → holds e c ks ≡ false
      → ls ≡ ks ++ (e, c) ∷ []
      → Grows ks ls

after-Grows :
    (p : Policy) (call : Call) (rows : List Row) → Grows (keys rows) (keys (after p call rows))
unfolding after claim_pending retire_exhausted mark_delivered mark_pending mark_failed
    mark_dead_letter
after-Grows p (Call.enqueue uuid now e c) rows = elim (Bool-cases (holds e c (keys rows))) [
  | inl old ↦ same (keys-enqueue uuid now e c rows ∙ rw old)
  | inr new ↦ added e c new (keys-enqueue uuid now e c rows ∙ rw new)
]
after-Grows p (Call.claim now limit consumers) rows =
    let rows1 = retire_exhausted p now rows in
    same (
      keys-claim_loop p now (candidate_ids p now limit consumers rows1) rows1
      ∙ keys-update_where (is_exhausted p now) (retired now) rows (λ r. (refl, refl)))
after-Grows p (Call.delivered now e c) rows =
    same (keys-modify_pair e c (set_delivered now) rows (λ r. (refl, refl)))
after-Grows p (Call.returned now e c) rows =
    same (keys-modify_pair e c (set_pending now) rows (λ r. (refl, refl)))
after-Grows p (Call.failed now later e c error) rows =
    same
      (keys-modify_pair e c (set_failed p now later error) rows (set_failed-key p now later error))
after-Grows p (Call.buried now e c error) rows =
    same (keys-modify_pair e c (set_dead_letter now error) rows (λ r. (refl, refl)))
after-Grows p (Call.requeued now e c) rows = same (keys-requeue now e c rows)

Grows-IsUnique : {ks ls : List (String × String)} → Grows ks ls → IsUnique ks → IsUnique ls
Grows-IsUnique (same eq) u = rw eq u
Grows-IsUnique {ks} (added e c new eq) u = rw eq (IsUnique-append e c ks new u)

Grows-holds :
    {ks ls : List (String × String)} (e c : String)
    → Grows ks ls
    → holds e c ks ≡ true
    → holds e c ls ≡ true
Grows-holds e c (same eq) h = rw eq h
Grows-holds {ks} e c (added e' c' new eq) h = rw (eq, holds-append e c ks (e', c'), h)

-- Over every run of the repository's methods from a table whose pairs of event and consumer are
-- unique, the pairs stay unique.
pub run-IsUnique :
    (p : Policy) (calls : List Call) (rows : List Row)
    → IsUnique (keys rows)
    → IsUnique (keys (run p calls rows))
unfolding run
run-IsUnique p [] rows u = u
run-IsUnique p (call ∷ calls) rows u =
    run-IsUnique p calls (after p call rows) (Grows-IsUnique (after-Grows p call rows) u)

-- No run of the repository's methods loses a delivery record: the table goes on to hold one for
-- every pair of event and consumer that had one.
pub run-holds :
    (p : Policy) (calls : List Call) (rows : List Row) (e c : String)
    → holds e c (keys rows) ≡ true
    → holds e c (keys (run p calls rows)) ≡ true
unfolding run
run-holds p [] rows e c h = h
run-holds p (call ∷ calls) rows e c h =
    run-holds p calls (after p call rows) e c (Grows-holds e c (after-Grows p call rows) h)
