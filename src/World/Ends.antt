-- ===== src/World/Ends.antt =====
-- Total correctness of a run: it returns, and its result and state satisfy a postcondition.
use netemul.World.{World}
use netemul.World.Run.{Run, ok, Cmd, and_then}

pub data Ends {A : Type 0} (P : A → World → Type 0) : Run A → Type 0 where
  ends : {a : A} {w : World} → P a w → Ends P (ok a w)

module _ {A B : Type 0} {P : A → World → Type 0} {Q : B → World → Type 0} where
  -- A run is followed by a command that ends well wherever the run may have ended.
  pub follow :
      {r : Run A} {f : A → Cmd B}
      → Ends P r
      → ((a : A) (w : World) → P a w → Ends Q (f a w))
      → Ends Q (and_then r f)
  follow (ends p) next = next _ _ p

module _ {A : Type 0} {P Q : A → World → Type 0} where
  pub weaken : {r : Run A} → Ends P r → ((a : A) (w : World) → P a w → Q a w) → Ends Q r
  weaken (ends p) f = ends (f _ _ p)

module _ {A : Type 0} {P Q : A → World → Type 0} where
  pub both : {r : Run A} → Ends P r → Ends Q r → Ends (λ a w. P a w × Q a w) r
  both (ends p) (ends q) = ends (p, q)
