-- ===== src/Listing/Complete.antt =====
-- What `cmd_list` of src/command.c lists.
use netemul.Base.{
  ℕ, suc, ◌+◌, ◌≡◌, refl, Bool, true, false, Option, none, some, List, [], ◌∷◌, ◌++◌, arith, sym,
  ap, ◌∙◌, ◌==◌, if◌then◌else◌, Bool-cases, inl, inr,
}
use netemul.Node.{NodeType, Ptr, Name, same_type}
use netemul.Env.{Env, NameMap}
use netemul.World.{World, Composite}
use netemul.Listing.{
  hit, Item, label, heading, node, usage, done, Part, node_items, has_heading, list_component,
  label_items, all_parts, add_node, collect, list_parts, cmd_list,
}

abbrev is_listed : Option Composite → Bool
is_listed none = false
is_listed (some b) = has_heading b.type

abbrev is_of : NodeType → Option Composite → Bool
is_of type none = false
is_of type (some b) = same_type b.type type

-- How often a list of what is printed shows a node
abbrev pub shown : Ptr → List Item → ℕ
shown p [] = 0
shown p (node q ∷ xs) = if q == p then suc (shown p xs) else shown p xs
shown p (label l ∷ xs) = shown p xs
shown p (heading t ∷ xs) = shown p xs
shown p (usage ∷ xs) = shown p xs

-- Under how many names a node is registered
abbrev pub registered : Ptr → NameMap → ℕ
registered p [] = 0
registered p ((name, q) ∷ m) = if q == p then suc (registered p m) else registered p m

shown-append : (p : Ptr) (xs ys : List Item) → shown p (xs ++ ys) ≡ shown p xs + shown p ys
shown-append p [] ys = omega arith
shown-append p (node q ∷ xs) ys = ground (arith, shown-append p xs ys)
shown-append p (label l ∷ xs) ys = shown-append p xs ys
shown-append p (heading t ∷ xs) ys = shown-append p xs ys
shown-append p (usage ∷ xs) ys = shown-append p xs ys

append_assoc {ℓ} : {A : Type ℓ} → (xs ys zs : List A) → (xs ++ ys) ++ zs ≡ xs ++ ys ++ zs
append_assoc [] ys zs = refl
append_assoc (x ∷ xs) ys zs = ap (λ l. x ∷ l) (append_assoc xs ys zs)

append_snoc {ℓ} :
    {A : Type ℓ} → (xs : List A) (y : A) (ys : List A) → (xs ++ y ∷ []) ++ ys ≡ xs ++ y ∷ ys
append_snoc [] y ys = refl
append_snoc (x ∷ xs) y ys = ap (λ l. x ∷ l) (append_snoc xs y ys)

append_nil {ℓ} : {A : Type ℓ} → (xs : List A) → xs ++ [] ≡ xs
append_nil [] = refl
append_nil (x ∷ xs) = ap (λ l. x ∷ l) (append_nil xs)

abbrev one_if : Bool → ℕ
one_if b = if b then 1 else 0

abbrev plus_if : Bool → ℕ → ℕ → ℕ
plus_if b n m = if b then n + m else m

-- A kind that is listed is listed in one part.
one_part :
    (t : NodeType) (n a b c d l : ℕ)
    → has_heading t ≡ true
    → plus_if (same_type t NodeType.physical) n a
        + plus_if (same_type t NodeType.host) n b
        + plus_if (same_type t NodeType.hub_switch) n c
        + plus_if (same_type t NodeType.ether_switch) n d
        + plus_if (same_type t NodeType.link) n l
      ≡ n + (a + b + c + d + l)
one_part NodeType.physical n a b c d l h = omega arith
one_part NodeType.host n a b c d l h = omega arith
one_part NodeType.hub_switch n a b c d l h = omega arith
one_part NodeType.ether_switch n a b c d l h = omega arith
one_part NodeType.link n a b c d l h = omega arith
one_part NodeType.none n a b c d l h = ground (arith, h)
one_part NodeType.port n a b c d l h = ground (arith, h)
one_part NodeType.physical_port n a b c d l h = ground (arith, h)
one_part NodeType.virtual_port n a b c d l h = ground (arith, h)
one_part NodeType.cable n a b c d l h = ground (arith, h)
one_part NodeType.router n a b c d l h = ground (arith, h)

module _ (w : World) where
  -- Every registered node is there, and of a kind that is listed.
  abbrev pub AllListed : NameMap → Type 0
  AllListed [] = Unit
  AllListed ((name, p) ∷ m) = (is_listed (w.composite p) ≡ true) × AllListed m

  -- The registered nodes of a kind
  abbrev pub of_type : NodeType → NameMap → List Ptr
  of_type type [] = []
  of_type type ((name, p) ∷ m) =
      let rest = of_type type m in if is_of type (w.composite p) then p ∷ rest else rest

  abbrev pub part_items : Part → List Item
  part_items (l, type) =
      label_items l
      ++ (if has_heading type then list_component type (of_type type w.manager.nodes) else [])

  abbrev pub parts_items : List Part → List Item
  parts_items [] = []
  parts_items (x ∷ xs) = part_items x ++ parts_items xs

  -- How often the nodes of a kind contain one
  abbrev times : Ptr → NodeType → NameMap → ℕ
  times p type m = shown p (node_items (of_type type m))

  times-cons :
      (p q : Ptr) (type : NodeType) (name : Name) (m : NameMap) (b : Composite)
      → w.composite q ≡ some b
      → times p type ((name, q) ∷ m)
        ≡ plus_if (same_type b.type type) (one_if (q == p)) (times p type m)
  times-cons p q type name m b eq = ground (arith, eq)

  abbrev total : Ptr → NameMap → ℕ
  total p m =
      times p NodeType.physical m
      + times p NodeType.host m
      + times p NodeType.hub_switch m
      + times p NodeType.ether_switch m
      + times p NodeType.link m

  total-cons :
      (p q : Ptr) (name : Name) (m : NameMap) (b : Composite)
      → w.composite q ≡ some b
      → has_heading b.type ≡ true
      → total p ((name, q) ∷ m) ≡ one_if (q == p) + total p m
  total-cons p q name m b eq h = rw (times-cons p q NodeType.physical name m b eq) (
      rw (times-cons p q NodeType.host name m b eq) (
        rw (times-cons p q NodeType.hub_switch name m b eq) (
          rw (times-cons p q NodeType.ether_switch name m b eq) (
            rw (times-cons p q NodeType.link name m b eq) (
              one_part b.type (one_if (q == p)) (times p NodeType.physical m)
                (times p NodeType.host m) (times p NodeType.hub_switch m)
                (times p NodeType.ether_switch m) (times p NodeType.link m) h)))))

  composite_at :
      (o : Option Composite)
      → is_listed o ≡ true
      → (b : Composite) × (o ≡ some b) × (has_heading b.type ≡ true)
  composite_at none h = absurd (ground (arith, h))
  composite_at (some b) h = (b, refl, h)

  total-registered : (p : Ptr) (m : NameMap) → AllListed m → total p m ≡ registered p m
  total-registered p [] all = refl
  total-registered p ((name, q) ∷ m) (listed, all) =
      let (b, eq, h) = composite_at (w.composite q) listed in
      total-cons p q name m b eq h ∙ ground (arith, total-registered p m all)

  module _ (e : Env) (appends : (xs : List ℕ) (x : ℕ) → e.list_add xs x ≡ some (xs ++ x ∷ []))
      (creates : e.list_create ≡ some []) where
    added :
        (type : NodeType) (list : List Ptr) (q : Ptr) (b : Composite)
        → w.composite q ≡ some b
        → same_type b.type type ≡ true
        → add_node e w type list q (w.composite q) ≡ hit (list ++ q ∷ [])
    added type list q b eq y = rw eq (rw y (rw (appends list q) refl))

    passed :
        (type : NodeType) (list : List Ptr) (q : Ptr) (b : Composite)
        → w.composite q ≡ some b
        → same_type b.type type ≡ false
        → add_node e w type list q (w.composite q) ≡ hit list
    passed type list q b eq n = rw eq (rw n refl)

    collect-of_type :
        (type : NodeType) (m : NameMap) (list : List Ptr)
        → AllListed m
        → collect e w type m list ≡ hit (list ++ of_type type m)
    unfolding collect
    collect-of_type type [] list all = ap (λ l. hit l) (sym (append_nil list))
    collect-of_type type ((name, q) ∷ m) list (listed, all) =
        let (b, eq, h) = composite_at (w.composite q) listed in
        elim (Bool-cases (same_type b.type type)) [
          | inl y ↦
              rw (added type list q b eq y, collect)
                (rw eq (
                  rw y (
                    collect-of_type type m (list ++ q ∷ []) all
                    ∙ ap (λ l. hit l) (append_snoc list q (of_type type m)))))
          | inr n ↦
              rw (passed type list q b eq n, collect)
                (rw eq (rw n (collect-of_type type m list all)))
        ]

    -- If lists can be created and take what they are given, and every registered node is there and of
    -- a listed kind, `list` prints its parts and succeeds: each has its label, its heading, and the
    -- registered nodes of its kind, in the map's order.
    pub list_parts-parts_items :
        (ps : List Part) → AllListed w.manager.nodes → list_parts e w ps ≡ (parts_items ps, done)
    unfolding list_parts
    list_parts-parts_items [] all = refl
    list_parts-parts_items ((l, type) ∷ ps) all = rw (creates) (
        rw (collect-of_type type w.manager.nodes [] all) (
          rw (list_parts-parts_items ps all)
            (ap (λ xs. (xs, done)) (sym (append_assoc (label_items l) _ _)))))

    -- If lists can be created and take what they are given, and every registered node is there and of
    -- a listed kind, `list` without an argument succeeds, and what it prints shows every node as often
    -- as it is registered: once, under one name.
    pub cmd_list_complete :
        (c : Name)
        → AllListed w.manager.nodes
        → ((cmd_list e w (c ∷ [])).1 ≡ done)
          × ((p : Ptr) → shown p (cmd_list e w (c ∷ [])).0 ≡ registered p w.manager.nodes)
    unfolding cmd_list
    cmd_list_complete c all =
        rw (list_parts-parts_items all_parts all)
          (refl, λ p. simp shown-append (omega (arith, total-registered p w.manager.nodes all)))
