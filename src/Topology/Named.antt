-- ===== src/Topology/Named.antt =====
-- Networks whose links `check_link` of src/command.c and src/rpc_manager.c can search without a read
-- through a bad pointer.
use netemul.Base.{
  ℕ, zero, suc, ◌+◌, ◌<◌, ◌≡◌, true, Option, some, List, [], ◌∷◌, arith, same, ◌==◌, Bool-cases,
  inl, inr,
}
use netemul.Node.{Ptr, Name}
use netemul.Env.{Env}
use netemul.Env.Laws.{ListLaws, erase}
use netemul.World.{World, Composite}
use netemul.World.Run.{children}
use netemul.Manager.{composite, get_node, tokens, port_name, fits_name}
use netemul.Listing.{Hit, missing, broken, hit}
use netemul.Topology.Follow.{Taken, find_link-Taken}
use netemul.Topology.{
  or_else, with_link, find_cable, find_port, find_link, take_link, link_of, check_link,
  check_link_at, value_of, input_name, output_name,
}

module _ (e : Env) (w : World) where
  -- A port's name leads to a composite.
  abbrev pub Leads : Name → Type 0
  Leads n =
      (q : Ptr) × (b : Composite) × (value_of (get_node e (tokens n).0 w)
        ≡ some (some (composite q)))
      × (w.composite q ≡ some b)

  -- Every cable has its two ends, with names that fit, and leads to a composite.
  abbrev pub Cables : List (Option Ptr) → Type 0
  Cables [] = Unit
  Cables (c ∷ cs) =
      ((i : Name) × (o : Name) × (input_name e w c ≡ some i)
        × (output_name e w c ≡ some o)
        × (fits_name o ≡ true)
        × Leads o)
      × Cables cs

  abbrev GoodName : Hit Name → Type 0
  GoodName missing = Unit
  GoodName broken = ⊥
  GoodName (hit n) = Leads n

  abbrev GoodLink : Hit (Ptr × Name) → Type 0
  GoodLink missing = Unit
  GoodLink broken = ⊥
  GoodLink (hit (l, n)) = Leads n

  -- The links have cables only that can be followed.
  abbrev pub Links : List Ptr → Type 0
  Links [] = Unit
  Links (l ∷ ls) =
      ((cs : List (Option Ptr)) × (value_of (children l w) ≡ some cs) × Cables cs) × Links ls

  abbrev pub Good : Hit (Name × List Ptr) → Type 0
  Good missing = Unit
  Good broken = ⊥
  Good (hit (n, ls)) = Leads n × Links ls

  -- A composite's name leads to one, and the names of its ports fit.
  abbrev pub Named : Composite → Type 0
  Named b =
      ((p : Ptr) × (c : Composite) × (value_of (get_node e b.name w) ≡ some (some (composite p)))
        × (w.composite p ≡ some c))
      × ((j : ℕ) → j < b.node_count → fits_name (port_name b.name j) ≡ true)

  find_cable-GoodName :
      (temp : Name) (cs : List (Option Ptr)) → Cables cs → GoodName (find_cable e w temp cs)
  unfolding find_cable
  find_cable-GoodName temp [] h = tt
  find_cable-GoodName temp (c ∷ cs) ((i, o, ins, outs, fits, leads), hs) = rw ins (
      rw outs (elim (Bool-cases (same temp i)) [
        | inl y ↦ rw y (rw fits leads)
        | inr n ↦ rw n (find_cable-GoodName temp cs hs)
      ]))

  first-GoodName : (x y : Hit Name) → GoodName x → GoodName y → GoodName (or_else x y)
  first-GoodName missing y h g = g
  first-GoodName broken y h g = h
  first-GoodName (hit n) y h g = h

  find_port-GoodName :
      (name : Name) (i n : ℕ) (cs : List (Option Ptr)) (cables : Option (List (Option Ptr)))
      → cables ≡ some cs
      → Cables cs
      → ((j : ℕ) → j < i + n → fits_name (port_name name j) ≡ true)
      → GoodName (find_port e w name i n cables)
  unfolding find_port
  find_port-GoodName name i zero cs cables eq h fits = tt
  find_port-GoodName name i (suc n) cs cables eq h fits =
      first-GoodName _ _
        (rw (fits i (omega arith)) (rw eq (find_cable-GoodName (port_name name i) cs h)))
        (find_port-GoodName name (i + 1) n cs cables eq h λ j less. fits j (omega (arith, less)))

  with_link-GoodLink :
      (l : Ptr) (x : Hit Name) (y : Hit (Ptr × Name))
      → GoodName x
      → GoodLink y
      → GoodLink (or_else (with_link e w l x) y)
  with_link-GoodLink l missing y h g = g
  with_link-GoodLink l broken y h g = h
  with_link-GoodLink l (hit n) y h g = h

  find_link-GoodLink :
      (b : Composite) (links : List Ptr)
      → ((j : ℕ) → j < b.node_count → fits_name (port_name b.name j) ≡ true)
      → Links links
      → GoodLink (find_link e w b links)
  unfolding find_link
  find_link-GoodLink b [] fits h = tt
  find_link-GoodLink b (l ∷ ls) fits ((cs, eq, cables), hs) =
      with_link-GoodLink l _ _
        (find_port-GoodName b.name 0 b.node_count cs (value_of (children l w)) eq cables
          λ j less. fits j (omega (arith, less)))
        (find_link-GoodLink b ls fits hs)

  erase-Links : (l : Ptr) (links : List Ptr) → Links links → Links (erase l links)
  erase-Links l [] h = tt
  erase-Links l (k ∷ ks) (h, hs) = elim (Bool-cases (l == k)) [
    | inl y ↦ rw y hs
    | inr n ↦ rw n (h, erase-Links l ks hs)
  ]

  module _ (lists : ListLaws e) (memory : (a : Ptr) → e.malloc_ok a ≡ true)
      (named : (q : Ptr) (b : Composite) → w.composite q ≡ some b → Named b) where
    take_link-Good :
        (links : List Ptr) (r : Hit (Ptr × Name))
        → Links links
        → Taken links r
        → GoodLink r
        → Good (take_link e w links r)
    take_link-Good links missing h t g = tt
    take_link-Good links broken h t g = g
    take_link-Good links (hit (l, n)) h t g =
        rw (lists.remove_lem links l) (rw t (g, erase-Links l links h))

    link_of-Good :
        (p : Ptr) (c : Composite) (links : List Ptr)
        → w.composite p ≡ some c
        → Links links
        → Good (link_of e w links (w.composite p))
    link_of-Good p c links at h = rw at (
        take_link-Good links (find_link e w c links) h (find_link-Taken e lists memory w c links)
          (find_link-GoodLink c links (named p c at).1 h))

    pub check_link-Good :
        (b : Composite) (links : List Ptr)
        → Named b
        → Links links
        → Good (check_link_at e w (value_of (get_node e b.name w)) links)
    unfolding check_link
    check_link-Good b links ((p, c, found, at), fits) h = rw found (link_of-Good p c links at h)
