-- ===== src/EtherSwitch/Table.antt =====
-- The MAC filtering table of src/ether_switch.c: what a refresh of an entry keeps.
use netemul.Base.{
  ℕ, ◌<◌, ◌≤◌, ◌≡◌, ◌≢◌, refl, Bool, true, false, Option, none, some, List, [], ◌∷◌, arith, ◌==◌,
  ltb, if◌then◌else◌, ◌∙◌, inl, inr, Bool-cases,
}
use netemul.Node.{Ptr}
use netemul.Env.{Env, MacTableEntity, Cache}
use netemul.Env.Laws.{CacheLaws, entry, Keyed}
use netemul.EtherSwitch.{write_entry, write_cache, after_removal, purge, refresh, deadline}

abbrev pub changed :
    (MacTableEntity → MacTableEntity) → Option MacTableEntity → Option MacTableEntity
changed f none = none
changed f (some v) = some (f v)

pub entry-write_entry :
    (k j : ℕ) (f : MacTableEntity → MacTableEntity) (es : List (ℕ × MacTableEntity))
    → entry (write_entry k f es) j ≡ (if j == k then changed f (entry es j) else entry es j)
unfolding write_entry
entry-write_entry k j f [] = ground arith
entry-write_entry k j f ((i, v) ∷ es) = ground (arith, entry-write_entry k j f es)

-- What is not under the address `mac` is not removed under it either.
abbrev Spares : ℕ → ℕ → List (ℕ × MacTableEntity) → Type 0
Spares mac current [] = Unit
Spares mac current ((k, v) ∷ es) = (v.timeout < current → v.mac ≢ mac) × Spares mac current es

Keyed-Spares_of_none :
    (mac current : ℕ) (es : List (ℕ × MacTableEntity))
    → Keyed es
    → entry es mac ≡ none
    → Spares mac current es
Keyed-Spares_of_none mac current [] keyed n = tt
Keyed-Spares_of_none mac current ((k, v) ∷ es) keyed n =
    (λ _ q. ground (arith, keyed.0), Keyed-Spares_of_none mac current es keyed.2 (ground arith))

-- A table spares each entry that is not late.
Keyed-Spares :
    (j current : ℕ) (v : MacTableEntity) (es : List (ℕ × MacTableEntity))
    → Keyed es
    → entry es j ≡ some v
    → current ≤ v.timeout
    → Spares j current es
Keyed-Spares j current v [] keyed h live = tt
Keyed-Spares j current v ((k, u) ∷ es) keyed h live = elim (Bool-cases (k == j)) [
  | inl y ↦
      (λ late _. ground arith, Keyed-Spares_of_none j current es keyed.2 (ground (arith, keyed.1)))
  | inr n ↦
      (λ _ q. ground (arith, keyed.0), Keyed-Spares j current v es keyed.2 (ground arith) live)
]

Keyed-write_entry :
    (k current : ℕ) (es : List (ℕ × MacTableEntity))
    → Keyed es
    → Keyed (write_entry k (λ v. record v { timeout = deadline current v.age }) es)
unfolding write_entry
Keyed-write_entry k current [] keyed = tt
Keyed-write_entry k current ((i, v) ∷ es) keyed = elim (Bool-cases (i == k)) [
  | inl y ↦ rw y (keyed.0, keyed.1, keyed.2)
  | inr n ↦ rw n (
    keyed.0,
    ground (
      arith,
      entry-write_entry k i (λ v. record v { timeout = deadline current v.age }) es,
      keyed.1,
    ),
    Keyed-write_entry k current es keyed.2,
  )
]

module _ (e : Env) (laws : CacheLaws e) (j current : ℕ) where
  -- The loop over a table removes nothing under an address that it spares.
  purge-Spares :
      (es : List (ℕ × MacTableEntity)) (c : Cache)
      → Spares j current es
      → entry (purge e current es c).1.entries j ≡ entry c.entries j
  unfolding purge
  purge-Spares [] c spares = refl
  purge-Spares ((k, v) ∷ es) c spares = elim (Bool-cases (ltb v.timeout current)) [
    | inl y ↦
        rw (y, purge)
          (by_removal (λ c'. purge-Spares es c' spares.1) (e.cache_remove c v.mac) refl
            (spares.0 (ground arith)))
    | inr n ↦ rw (n, purge) (purge-Spares es c spares.1)
  ]
    where
      by_removal :
          ((c' : Cache) → entry (purge e current es c').1.entries j ≡ entry c'.entries j)
          → (r : Option Cache) → e.cache_remove c v.mac ≡ r
          → v.mac ≢ j
          → entry (after_removal r c (purge e current es)).1.entries j ≡ entry c.entries j
      by_removal rest none q ne = refl
      by_removal rest (some c') q ne = rest c' ∙ (laws.remove_lem c c' v.mac j q ∙ ground arith)

module _ (e : Env) (laws : CacheLaws e) (c : Cache) (mac current : ℕ) (port : Ptr)
    (keyed : Keyed c.entries) where
  renewed : Cache
  renewed = write_cache mac (λ v. record v { timeout = deadline current v.age }) c

  renewed-entry :
      (v : MacTableEntity)
      → entry c.entries mac ≡ some v
      → entry renewed.entries mac ≡ some (record v { timeout = deadline current v.age })
  unfolding renewed
  renewed-entry v h = ground (
    arith,
    entry-write_entry mac mac (λ v. record v { timeout = deadline current v.age }) c.entries,
  )

  renewed-kept : (j : ℕ) → j ≢ mac → entry renewed.entries j ≡ entry c.entries j
  unfolding renewed
  renewed-kept j n = ground (
    arith,
    entry-write_entry mac j (λ v. record v { timeout = deadline current v.age }) c.entries,
  )

  Keyed-renewed : Keyed renewed.entries
  unfolding renewed
  Keyed-renewed = Keyed-write_entry mac current c.entries keyed

  purged-kept :
      (j : ℕ) (v : MacTableEntity)
      → entry renewed.entries j ≡ some v
      → current ≤ v.timeout
      → entry (purge e current renewed.entries renewed).1.entries j ≡ some v
  purged-kept j v h live =
      purge-Spares e laws j current renewed.entries renewed
        (Keyed-Spares j current v renewed.entries Keyed-renewed h live)
      ∙ h

  -- A refresh that succeeds leaves the entry with the new port and the new deadline.
  pub refresh_learns :
      (v : MacTableEntity)
      → entry c.entries mac ≡ some v
      → (refresh e mac port current c).0 ≡ true
      → entry (refresh e mac port current c).1.entries mac
        ≡ some (record v { timeout = deadline current v.age; port = port })
  unfolding refresh renewed
  refresh_learns v h done = ground (
    arith,
    purged-kept mac (record v { timeout = deadline current v.age }) (renewed-entry v h)
        (omega arith),
    entry-write_entry mac mac (λ v. record v { port = port })
        (purge e current renewed.entries renewed).1.entries,
  )

  -- In a table that holds each address once, a refresh keeps the other entries that are not late,
  -- also one that fails half way.
  pub refresh_keeps :
      (j : ℕ) (v : MacTableEntity)
      → j ≢ mac
      → entry c.entries j ≡ some v
      → current ≤ v.timeout
      → entry (refresh e mac port current c).1.entries j ≡ some v
  unfolding refresh renewed
  refresh_keeps j v n h live = ground (
    arith,
    purged-kept j v (renewed-kept j n ∙ h) live,
    entry-write_entry mac j (λ v. record v { port = port })
        (purge e current renewed.entries renewed).1.entries,
  )

Keyed-write_port :
    (k : ℕ) (port : Ptr) (es : List (ℕ × MacTableEntity))
    → Keyed es
    → Keyed (write_entry k (λ v. record v { port = port }) es)
unfolding write_entry
Keyed-write_port k port [] keyed = tt
Keyed-write_port k port ((i, v) ∷ es) keyed = elim (Bool-cases (i == k)) [
  | inl y ↦ rw y (keyed.0, keyed.1, keyed.2)
  | inr n ↦ rw n (
    keyed.0,
    ground (arith, entry-write_entry k i (λ v. record v { port = port }) es, keyed.1),
    Keyed-write_port k port es keyed.2,
  )
]

module _ (e : Env) (laws : CacheLaws e) where
  purge-Keyed :
      (current : ℕ) (es : List (ℕ × MacTableEntity)) (c : Cache)
      → Keyed c.entries
      → Keyed (purge e current es c).1.entries
  unfolding purge
  purge-Keyed current [] c keyed = keyed
  purge-Keyed current ((k, v) ∷ es) c keyed = elim (Bool-cases (ltb v.timeout current)) [
    | inl y ↦ rw (y, purge) (by_removal (purge-Keyed current es) (e.cache_remove c v.mac) refl)
    | inr n ↦ rw (n, purge) (purge-Keyed current es c keyed)
  ]
    where
      by_removal :
          ((c' : Cache) → Keyed c'.entries → Keyed (purge e current es c').1.entries)
          → (r : Option Cache) → e.cache_remove c v.mac ≡ r
          → Keyed (after_removal r c (purge e current es)).1.entries
      by_removal rest none q = keyed
      by_removal rest (some c') q = rest c' (laws.remove_keyed c c' v.mac q keyed)

  pub refresh-Keyed :
      (c : Cache) (mac current : ℕ) (port : Ptr)
      → Keyed c.entries
      → Keyed (refresh e mac port current c).1.entries
  unfolding refresh
  refresh-Keyed c mac current port keyed =
      by_purge (purge e current renewed.entries renewed) (
        purge-Keyed current renewed.entries renewed (Keyed-write_entry mac current c.entries keyed))
    where
      renewed : Cache
      renewed = write_cache mac (λ v. record v { timeout = deadline current v.age }) c

      by_purge :
          (r : Bool × Cache)
          → Keyed r.1.entries
          → (let next : Bool × Cache =
                if r.0
                then (true, write_cache mac (λ v. record v { port = port }) r.1)
                else (false, r.1) in
              Keyed next.1.entries)
      by_purge (true, t) k = Keyed-write_port mac port t.entries k
      by_purge (false, t) k = k
