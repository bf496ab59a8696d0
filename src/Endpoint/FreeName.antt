-- ===== src/Endpoint/FreeName.antt =====
-- The loop of src/endpoint.c, src/link.c and src/switch.c that registers a node under a free name.
use netemul.Base.{
  ℕ, zero, suc, ◌+◌, ◌*◌, ◌/◌, ◌%◌, ◌<◌, ◌≤◌, ◌≡◌, ◌≢◌, refl, Bool, true, Option, none, some, [],
  ◌∷◌, arith, ltb, length, length-append, digits, decimal, ap, ◌∙◌, subst, fun_ext, Bool-cases, inl,
  inr, ◌==◌,
}
use netemul.Node.{Ptr, Name}
use netemul.Env.{Env}
use netemul.Env.Laws.{MapLaws, lookup}
use netemul.World.{World, Composite}
use netemul.World.Run.{Cmd, ok, write, update_composite}
use netemul.Manager.{dot, fits_name, find_node, get_node, as_composite, node_register}
use netemul.Manager.Names.{decimal-NoDots, tokens-name}
use netemul.Endpoint.{numbered, register_loop, unless_taken}

-- A number of one more digit
digits_step :
    (bound m : ℕ)
    → ((f n : ℕ) → n < bound → length (digits f n) ≤ m)
    → (f n : ℕ) → n < 10 * bound
    → length (digits f n) ≤ m + 1
unfolding digits
digits_step bound m short zero n h = omega arith
digits_step bound m short (suc f) n h = elim (Bool-cases (ltb n 10)) [
  | inl y ↦ rw (y, digits) (omega arith)
  | inr k ↦
      rw (k, digits)
        (omega
          (arith, length-append (digits f (n / 10)) ((b'0' + n % 10) ∷ []), short f (n / 10), h))
]

one_digit : (f n : ℕ) → n < 10 → length (digits f n) ≤ 1
unfolding digits
one_digit zero n h = omega arith
one_digit (suc f) n h = rw (small, digits) (omega arith)
  where
    small : ltb n 10 ≡ true
    small = ground (arith, h)

four_digits : (f n : ℕ) → n < 10 * (10 * (10 * 10)) → length (digits f n) ≤ 1 + 1 + 1 + 1
four_digits =
    digits_step (10 * (10 * 10)) (1 + 1 + 1)
      (digits_step (10 * 10) (1 + 1) (digits_step 10 1 one_digit))

-- The state with a composite renamed
abbrev pub renamed : World → Ptr → Composite → Name → World
renamed w this b text = record w {
  composite = write w.composite this (some (record b { name = text }));
}

renamed_again :
    (w : World) (this : Ptr) (b : Composite) (s t : Name)
    → renamed (renamed w this b s) this (record b { name = s }) t ≡ renamed w this b t
renamed_again w this b s t =
    ap (λ (f : Ptr → Option Composite). record w { composite = f }) (fun_ext λ a. ground arith)

module _ (e : Env) (maps : MapLaws e) (letter : ℕ) (plain : letter ≢ dot) where
  numbered_fits : (j : ℕ) → j < 2048 → fits_name (numbered e letter j) ≡ true
  unfolding decimal
  numbered_fits j h = ground (arith, four_digits (suc j) j (omega (arith, h)))

  get_node-numbered :
      (w : World) (j : ℕ)
      → j < 2048
      → get_node e (numbered e letter j) w
        ≡ ok (as_composite e (lookup w.manager.nodes (numbered e letter j))) w
  unfolding get_node find_node
  get_node-numbered w j h = rw (numbered_fits j h) (
      rw (tokens-name letter (decimal j) (plain, decimal-NoDots j))
        (rw (maps.get_lem w.manager.nodes (numbered e letter j)) refl))

  round :
      (n i : ℕ) (w : World) (this : Ptr) (b : Composite)
      → i < 2048
      → w.composite this ≡ some b
      → register_loop e this letter (suc n) i w
        ≡ unless_taken e
            (node_register e this (numbered e letter i))
            (register_loop e this letter n (i + 1))
            (as_composite e (lookup w.manager.nodes (numbered e letter i)))
            (renamed w this b (numbered e letter i))
  unfolding register_loop update_composite
  round n i w this b small there =
      rw there (rw (get_node-numbered (renamed w this b (numbered e letter i)) i small) refl)

  passed :
      (register next : Cmd Bool) (o : Option Ptr) (v : World)
      → o ≢ none
      → unless_taken e register next (as_composite e o) v ≡ next v
  unfolding unless_taken
  passed register next none v h = absurd (h refl)
  passed register next (some p) v h = refl

  -- The node is registered under the first number, from `i` on, whose name is free.
  pub register_loop-first :
      (n i m : ℕ) (w : World) (this : Ptr) (b : Composite)
      → i ≤ m
      → m < i + n
      → m < 2048
      → w.composite this ≡ some b
      → lookup w.manager.nodes (numbered e letter m) ≡ none
      → ((j : ℕ) → i ≤ j → j < m → lookup w.manager.nodes (numbered e letter j) ≢ none)
      → register_loop e this letter n i w
        ≡ node_register e this (numbered e letter m) (renamed w this b (numbered e letter m))
  unfolding unless_taken
  register_loop-first zero i m w this b lo hi small there free taken =
      absurd (omega (arith, lo, hi))
  register_loop-first (suc n) i m w this b lo hi small there free taken =
      let ih = register_loop-first n (i + 1) m in
      elim (Bool-cases (i == m)) [
        | inl y ↦
            subst
              (λ k.
                register_loop e this letter (suc n) i w
                ≡ node_register e this (numbered e letter k)
                    (renamed w this b (numbered e letter k)))
              (ground (arith, y))
              (round n i w this b (omega (arith, lo, small)) there
                ∙ ap
                    (λ o.
                      unless_taken e (node_register e this (numbered e letter i))
                        (register_loop e this letter n (i + 1)) (as_composite e o)
                        (renamed w this b (numbered e letter i)))
                    (subst (λ k. lookup w.manager.nodes (numbered e letter k) ≡ none)
                      (ground (arith, y)) free))
        | inr other ↦
            round n i w this b (omega (arith, lo, small)) there
            ∙ passed (node_register e this (numbered e letter i))
                (register_loop e this letter n (i + 1))
                (lookup w.manager.nodes (numbered e letter i)) _
                (taken i (omega arith) (ground (arith, other, lo)))
            ∙ ih (renamed w this b (numbered e letter i)) this
                (record b { name = numbered e letter i }) (ground (arith, other, lo))
                (omega (arith, hi)) small (ground arith) free
                (λ j l h. taken j (omega (arith, l)) h)
            ∙ ap (node_register e this (numbered e letter m))
                (renamed_again w this b (numbered e letter i) (numbered e letter m))
      ]
