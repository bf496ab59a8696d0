-- ===== src/Cable/Arguments.antt =====
-- The loop over the arguments of `set`, src/cable.c.
use netemul.Base.{
  ◌≡◌, ap, ◌⊎◌, ◌∙◌, Bool, true, false, Option, none, some, List, [], ◌∷◌, ◌++◌, arith,
}
use netemul.Node.{Name}
use netemul.Env.{Env}
use netemul.World.{CableState}
use netemul.Cable.{set_args, attempt, assign, is_attribute}

accepted : (a b : Bool × CableState) → some a ≡ some b → a ≡ b
accepted a b h = cc

-- Arguments that are accepted are set first, and then those behind them.
pub set_args-append :
    (e : Env) (xs ys : List Name) (s t : CableState)
    → set_args e xs s ≡ some (true, t)
    → set_args e (xs ++ ys) s ≡ set_args e ys t
unfolding set_args
set_args-append e [] ys s t h =
    ap (set_args e ys) (ap (λ (r : Bool × CableState). r.1) (accepted (true, s) (true, t) h))
set_args-append e (k ∷ []) ys s t h = ground arith
set_args-append e (k ∷ v ∷ xs) ys s t h =
    step (is_attribute k) (assign e k v s) h λ r. set_args-append e xs ys r t
  where
    step :
        (b : Bool) (o : Option CableState)
        → attempt b o s (λ r. set_args e xs r) ≡ some (true, t)
        → ((r : CableState)
            → set_args e xs r ≡ some (true, t)
            → set_args e (xs ++ ys) r ≡ set_args e ys t)
        → attempt b o s (λ r. set_args e (xs ++ ys) r) ≡ set_args e ys t
    step false o h next = ground arith
    step true none h next = ground arith
    step true (some r) h next = next r h

-- Where an argument is no attribute, or its value is refused, the call fails; but all that stood
-- before it is set.
pub set_args-partial :
    (e : Env) (xs ys : List Name) (k v : Name) (s t : CableState)
    → set_args e xs s ≡ some (true, t)
    → (is_attribute k ≡ false) ⊎ (assign e k v t ≡ none)
    → set_args e (xs ++ k ∷ v ∷ ys) s ≡ some (false, t)
unfolding set_args
set_args-partial e xs ys k v s t h bad = set_args-append e xs (k ∷ v ∷ ys) s t h ∙ refused bad
  where
    refused :
        (is_attribute k ≡ false) ⊎ (assign e k v t ≡ none)
        → set_args e (k ∷ v ∷ ys) t ≡ some (false, t)
    refused bad = ground arith
