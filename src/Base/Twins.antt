-- ===== src/Base/Twins.antt =====
-- Dicts of which no two values are the same by a test.
use mathlib.Core.Path.{◌≡◌, refl}
use mathlib.Core.Bool.{Bool, false}
use mathlib.Core.List.{[], ◌∷◌}
use Prim.Native.String.{String}
use native.Mathlib.Omega.{arith}
use tactical_core.Base.Lists.{any}
use tactical_core.Base.Dict.{Dict, insert, remove, values}

module _ {V : Type 0} (same : V → V → Bool) where
  abbrev pub has_twin : V → Dict V → Bool
  has_twin e d = any (same e) (values d)

  abbrev pub HasNoTwins : Dict V → Type 0
  HasNoTwins [] = Unit
  HasNoTwins ((k, e) ∷ d) = (has_twin e d ≡ false) × HasNoTwins d

  twin-remove :
      (e : V) (k : String) (d : Dict V) → has_twin e d ≡ false → has_twin e (remove k d) ≡ false
  unfolding remove
  twin-remove e k [] h = refl
  twin-remove e k ((j, x) ∷ d) h = ground (arith, h, twin-remove e k d)

  pub remove-HasNoTwins : (k : String) (d : Dict V) → HasNoTwins d → HasNoTwins (remove k d)
  unfolding remove
  remove-HasNoTwins k [] h = tt
  remove-HasNoTwins k ((j, x) ∷ d) h = ground (arith, h, remove-HasNoTwins k d, twin-remove x k d)

  twin-insert :
      (e : V) (k : String) (x : V) (d : Dict V)
      → same e x ≡ false
      → has_twin e d ≡ false
      → has_twin e (insert k x d) ≡ false
  unfolding insert
  twin-insert e k x [] new h = ground (arith, new)
  twin-insert e k x ((j, y) ∷ d) new h = ground (arith, h, new, twin-insert e k x d)

  pub insert-HasNoTwins :
      ((a b : V) → same a b ≡ same b a)
      → (k : String) (x : V) (d : Dict V) → has_twin x d ≡ false
      → HasNoTwins d
      → HasNoTwins (insert k x d)
  unfolding insert
  insert-HasNoTwins same_comm k x [] new h = (refl, tt)
  insert-HasNoTwins same_comm k x ((j, y) ∷ d) new h =
      ground (arith, h, new, insert-HasNoTwins same_comm k x d, twin-insert y k x d, same_comm x y)
