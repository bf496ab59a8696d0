-- ===== src/Tree/Settled.antt =====
-- How the calls on the trees of src/tree.c end.
use netemul.Tree.{Forest, Result, returned, crashed, after}

-- A call crashes, or returns as it should: it has fuel enough.
pub data Settled {A : Type 0} (Q : A → Forest → Type 0) : Result A → Type 0 where
  crash : Settled Q crashed
  settled : {a : A} {f : Forest} → Q a f → Settled Q (returned a f)

module _ {A B : Type 0} {P : A → Forest → Type 0} {Q : B → Forest → Type 0} where
  pub follow :
      {r : Result A} {k : A → Forest → Result B}
      → Settled P r
      → ((a : A) (f : Forest) → P a f → Settled Q (k a f))
      → Settled Q (after r k)
  follow crash next = crash
  follow (settled p) next = next _ _ p

module _ {A : Type 0} {P Q : A → Forest → Type 0} where
  pub weaken : {r : Result A} → Settled P r → ((a : A) (f : Forest) → P a f → Q a f) → Settled Q r
  weaken crash f = crash
  weaken (settled p) f = settled (f _ _ p)
