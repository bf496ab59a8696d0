-- ===== src/Component/Wiring.antt =====
-- The wiring of components, src/component.c: who points to whom by `in` and `out`.
use netemul.Base.{
  sym, ap, ◌∙◌, ◌-◌, ◌≡◌, refl, ◌≢◌, Bool, false, Option, none, some, inl, inr, Bool-cases, arith,
  ◌==◌, if◌then◌else◌,
}
use netemul.Node.{Ptr}
use netemul.World.{World, Component, Composite}
use netemul.World.Run.{ok, when_some, write, update, update_composite}
use netemul.Component.{destroy_component}

-- Where an allocated component leads to, and where it is fed from; `none` if it is not there.
abbrev pub output_of : Option Component → Option Ptr
output_of none = none
output_of (some c) = c.output

abbrev pub input_of : Option Component → Option Ptr
input_of none = none
input_of (some c) = c.input

-- What a component leads to is allocated and fed by it, and the other way round: no pointer of the
-- wiring dangles.
pub record IsWired (w : World) : Type 0 where
  pub forth : (a b : Ptr) → output_of (w.component a) ≡ some b → input_of (w.component b) ≡ some a
  pub back : (a b : Ptr) → input_of (w.component a) ≡ some b → output_of (w.component b) ≡ some a

abbrev pub cut_output : Option Component → Option Component
cut_output none = none
cut_output (some c) = some (record c { output = none })

abbrev pub cut_input : Option Component → Option Component
cut_input none = none
cut_input (some c) = some (record c { input = none })

-- The store after `cut` at a pointer that may be null.
abbrev pub at :
    Option Ptr
    → (Option Component → Option Component)
    → (Ptr → Option Component)
    → Ptr
    → Option Component
at none f h = h
at (some p) f h = write h p (f (h p))

abbrev pub count_down : Option Composite → Option Composite
count_down none = none
count_down (some b) = some (record b { node_count = b.node_count - 1 })

abbrev pub counted : Option Ptr → (Ptr → Option Composite) → Ptr → Option Composite
counted none h = h
counted (some o) h = write h o (count_down (h o))

-- A pointer is null, or what it leads to is allocated.
abbrev pub Present {ℓ} : {A : Type ℓ} → (Ptr → Option A) → Option Ptr → Type ℓ
Present h none = Unit
Present {A} h (some p) = (a : A) × (h p ≡ some a)

module _ (w : World) where
  cut_output_step :
      (i : Option Ptr)
      → Present w.component i
      → when_some i (λ src. update src (λ s. record s { output = none })) w
        ≡ ok tt (record w { component = at i cut_output w.component })
  unfolding update
  cut_output_step none h = refl
  cut_output_step (some p) (c, h) = rw h

  cut_input_step :
      (i : Option Ptr)
      → Present w.component i
      → when_some i (λ dst. update dst (λ d. record d { input = none })) w
        ≡ ok tt (record w { component = at i cut_input w.component })
  unfolding update
  cut_input_step none h = refl
  cut_input_step (some p) (c, h) = rw h

  count_step :
      (o : Option Ptr)
      → Present w.composite o
      → when_some o (λ o. update_composite o (λ b. record b { node_count = b.node_count - 1 })) w
        ≡ ok tt (record w { composite = counted o w.composite })
  unfolding update_composite
  count_step none h = refl
  count_step (some p) (c, h) = rw h

-- The state after `destroy`.
abbrev pub without : World → Ptr → Component → World
without w this c = record w {
  component = write (at c.output cut_input (at c.input cut_output w.component)) this none;
  composite = counted c.owner w.composite;
}

Present-input :
    {w : World} {this : Ptr} {c : Component}
    → IsWired w
    → w.component this ≡ some c
    → Present w.component c.input
Present-input {w} {this} {c} wired h = go c.input refl
  where
    here :
        (p : Ptr) (o : Option Component) → output_of o ≡ some this → (a : Component) × (o ≡ some a)
    here p none e = cc
    here p (some a) e = (a, refl)

    go : (i : Option Ptr) → c.input ≡ i → Present w.component i
    go none e = tt
    go (some p) e = here p (w.component p) (wired.back this p (rw (h, e)))

Present-output :
    {w : World} {this : Ptr} {c : Component}
    → IsWired w
    → w.component this ≡ some c
    → Present w.component c.output
Present-output {w} {this} {c} wired h = go c.output refl
  where
    here :
        (p : Ptr) (o : Option Component) → input_of o ≡ some this → (a : Component) × (o ≡ some a)
    here p none e = cc
    here p (some a) e = (a, refl)

    go : (i : Option Ptr) → c.output ≡ i → Present w.component i
    go none e = tt
    go (some p) e = here p (w.component p) (wired.forth this p (rw (h, e)))

Present-cut_output :
    (h : Ptr → Option Component) (i j : Option Ptr) → Present h j → Present (at i cut_output h) j
Present-cut_output h none j p = p
Present-cut_output h (some i) none p = tt
Present-cut_output h (some i) (some j) (a, e) = elim (Bool-cases (j == i)) [
  | inl y ↦ (record a { output = none }, let e' : h i ≡ some a = ground arith in rw (y, e'))
  | inr n ↦ (a, rw (n, e))
]

Present-cut_input :
    (h : Ptr → Option Component) (i j : Option Ptr) → Present h j → Present (at i cut_input h) j
Present-cut_input h none j p = p
Present-cut_input h (some i) none p = tt
Present-cut_input h (some i) (some j) (a, e) = elim (Bool-cases (j == i)) [
  | inl y ↦ (record a { input = none }, let e' : h i ≡ some a = ground arith in rw (y, e'))
  | inr n ↦ (a, rw (n, e))
]

pub destroy_component-without :
    {w : World} {this : Ptr} {c : Component}
    → IsWired w
    → w.component this ≡ some c
    → Present w.composite c.owner
    → destroy_component this w ≡ ok tt (without w this c)
unfolding destroy_component
destroy_component-without {w} {this} {c} wired h owned = rw h (
    rw (cut_output_step w c.input (Present-input wired h)) (
      rw
        (cut_input_step (record w { component = at c.input cut_output w.component }) c.output
          (Present-cut_output w.component c.input c.output (Present-output wired h)))
        (rw
          (count_step
            (record w { component = at c.output cut_input (at c.input cut_output w.component) })
            c.owner owned)
          (rw
            ((Present-cut_input (at c.input cut_output w.component) c.output (some this)
              (Present-cut_output w.component c.input (some this) (c, h))).1)
            refl))))

abbrev pub is : Option Ptr → Ptr → Bool
is none a = false
is (some p) a = a == p

output-cut :
    (h : Ptr → Option Component) (i : Option Ptr) (a : Ptr)
    → output_of (at i cut_output h a) ≡ (if is i a then none else output_of (h a))
output-cut h none a = refl
output-cut h (some i) a = ground arith

output-cut_input :
    (h : Ptr → Option Component) (i : Option Ptr) (a : Ptr)
    → output_of (at i cut_input h a) ≡ output_of (h a)
output-cut_input h none a = refl
output-cut_input h (some i) a = ground arith

input-cut :
    (h : Ptr → Option Component) (i : Option Ptr) (a : Ptr)
    → input_of (at i cut_input h a) ≡ (if is i a then none else input_of (h a))
input-cut h none a = refl
input-cut h (some i) a = ground arith

input-cut_output :
    (h : Ptr → Option Component) (i : Option Ptr) (a : Ptr)
    → input_of (at i cut_output h a) ≡ input_of (h a)
input-cut_output h none a = refl
input-cut_output h (some i) a = ground arith

abbrev pub pruned : (Ptr → Option Ptr) → Option Ptr → Ptr → Ptr → Option Ptr
pruned f i this a = if a == this then none else if is i a then none else f a

-- Two maps that are inverse to each other stay so without a point and its neighbours.
pruned_inverse :
    (f g : Ptr → Option Ptr) (this : Ptr) (i j : Option Ptr)
    → g this ≡ i
    → f this ≡ j
    → ((a b : Ptr) → f a ≡ some b → g b ≡ some a)
    → (a b : Ptr) → pruned f i this a ≡ some b
    → pruned g j this b ≡ some a
pruned_inverse f g this i j gi fj forth a b e = ground (arith, forth a b, forth this b)

module _ (w : World) (this : Ptr) (c : Component) where
  pub output-without :
      (a : Ptr)
      → output_of ((without w this c).component a)
        ≡ pruned (λ p. output_of (w.component p)) c.input this a
  output-without a = ground (
    arith,
    output-cut_input (at c.input cut_output w.component) c.output a,
    output-cut w.component c.input a,
  )

  pub input-without :
      (a : Ptr)
      → input_of ((without w this c).component a)
        ≡ pruned (λ p. input_of (w.component p)) c.output this a
  input-without a = ground (
    arith,
    input-cut (at c.input cut_output w.component) c.output a,
    input-cut_output w.component c.input a,
  )

  pub without-IsWired : w.component this ≡ some c → IsWired w → IsWired (without w this c)
  without-IsWired h wired = record {
    forth = λ a b e.
        input-without b
        ∙ pruned_inverse outs ins this c.input c.output (ap input_of h) (ap output_of h) wired.forth
            a b (sym (output-without a) ∙ e);
    back = λ a b e.
        output-without b
        ∙ pruned_inverse ins outs this c.output c.input (ap output_of h) (ap input_of h) wired.back
            a b (sym (input-without a) ∙ e);
  }
    where
      outs : Ptr → Option Ptr
      outs p = output_of (w.component p)

      ins : Ptr → Option Ptr
      ins p = input_of (w.component p)

-- Destroying a component of a sound wiring succeeds, if its owner is there: it leaves a sound
-- wiring, the component is gone and nothing leads to it or is fed by it any more.
pub destroy_component-IsWired :
    {w : World} {this : Ptr} {c : Component}
    → IsWired w
    → w.component this ≡ some c
    → Present w.composite c.owner
    → (w' : World) × (destroy_component this w ≡ ok tt w')
      × IsWired w'
      × (w'.component this ≡ none)
      × ((a : Ptr)
          → (output_of (w'.component a) ≢ some this) × (input_of (w'.component a) ≢ some this))
destroy_component-IsWired {w} {this} {c} wired h owned = (
  without w this c,
  destroy_component-without wired h owned,
  sound,
  gone,
  λ a. (λ e. lost (sound.forth a this e), λ e. lost' (sound.back a this e)),
)
  where
    sound : IsWired (without w this c)
    sound = without-IsWired w this c h wired

    gone : (without w this c).component this ≡ none
    gone = ground arith

    lost : {a : Ptr} → input_of ((without w this c).component this) ≡ some a → ⊥
    lost {a} e = ground arith

    lost' : {a : Ptr} → output_of ((without w this c).component this) ≡ some a → ⊥
    lost' {a} e = ground arith
