-- ===== src/EtherSwitch/Ports.antt =====
-- The ports in the MAC filtering table of src/ether_switch.c: an update brings in no port but the
-- one that the packet came by.
use netemul.Base.{
  ℕ, ◌≡◌, refl, Bool, true, false, Option, none, some, List, [], ◌∷◌, arith, ◌==◌, ltb,
  if◌then◌else◌, ◌∙◌, sym, ◌⊎◌, inl, inr, Bool-cases,
}
use netemul.Node.{Ptr}
use netemul.Env.{Env, MacTableEntity, Cache}
use netemul.Env.Laws.{CacheLaws, entry}
use netemul.EtherSwitch.{
  write_entry, write_cache, after_removal, purge, refresh, deadline, new_entry,
}
use netemul.EtherSwitch.Table.{changed, entry-write_entry}

-- Each port in the table passes a test.
abbrev pub Known : (Ptr → Bool) → List (ℕ × MacTableEntity) → Type 0
Known known es = (k : ℕ) (v : MacTableEntity) → entry es k ≡ some v → known v.port ≡ true

module _ (known : Ptr → Bool) where
  Known-write_entry :
      (k : ℕ) (f : MacTableEntity → MacTableEntity) (es : List (ℕ × MacTableEntity))
      → ((v : MacTableEntity) → known v.port ≡ true → known (f v).port ≡ true)
      → Known known es
      → Known known (write_entry k f es)
  Known-write_entry k f es keeps ports j v h =
      step (entry es j) refl (Bool-cases (j == k)) (sym (entry-write_entry k j f es) ∙ h)
    where
      step :
          (o : Option MacTableEntity)
          → entry es j ≡ o
          → ((j == k) ≡ true) ⊎ ((j == k) ≡ false)
          → (if j == k then changed f (entry es j) else entry es j) ≡ some v
          → known v.port ≡ true
      step none q (inl y) h = ground arith
      step none q (inr n) h = ground arith
      step (some u) q (inl y) h = ground (arith, ports j u q, keeps u (ports j u q))
      step (some u) q (inr n) h = ground (arith, ports j u q)

  module _ (e : Env) (laws : CacheLaws e) where
    removed :
        (c c' : Cache) (k : ℕ)
        → e.cache_remove c k ≡ some c'
        → Known known c.entries
        → Known known c'.entries
    removed c c' k q ports j v h = ground (arith, laws.remove_lem c c' k j q, ports j v)

    purge-Known :
        (current : ℕ) (es : List (ℕ × MacTableEntity)) (c : Cache)
        → Known known c.entries
        → Known known (purge e current es c).1.entries
    unfolding purge
    purge-Known current [] c ports = ports
    purge-Known current ((k, v) ∷ es) c ports = elim (Bool-cases (ltb v.timeout current)) [
      | inl y ↦ rw (y, purge) (by_removal (purge-Known current es) (e.cache_remove c v.mac) refl)
      | inr n ↦ rw (n, purge) (purge-Known current es c ports)
    ]
      where
        by_removal :
            ((c' : Cache) → Known known c'.entries → Known known (purge e current es c').1.entries)
            → (r : Option Cache) → e.cache_remove c v.mac ≡ r
            → Known known (after_removal r c (purge e current es)).1.entries
        by_removal rest none q = ports
        by_removal rest (some c') q = rest c' (removed c c' v.mac q ports)

    pub put-Known :
        (c c' : Cache) (mac : ℕ) (port : Ptr) (current : ℕ)
        → e.cache_set c mac (new_entry mac port current) ≡ some c'
        → known port ≡ true
        → Known known c.entries
        → Known known c'.entries
    put-Known c c' mac port current q new ports j v h = elim (Bool-cases (j == mac)) [
      | inl y ↦ ground (arith, laws.set_lem c c' mac (new_entry mac port current) q)
      | inr n ↦
          ground (arith, laws.set_others c c' mac j (new_entry mac port current) v q, ports j v)
    ]

    pub refresh-Known :
        (c : Cache) (mac current : ℕ) (port : Ptr)
        → known port ≡ true
        → Known known c.entries
        → Known known (refresh e mac port current c).1.entries
    unfolding refresh
    refresh-Known c mac current port new ports =
        by_purge (purge e current renewed.entries renewed) (
          purge-Known current renewed.entries renewed (
            Known-write_entry mac (λ v. record v { timeout = deadline current v.age }) c.entries
              (λ v h. h) ports))
      where
        renewed : Cache
        renewed = write_cache mac (λ v. record v { timeout = deadline current v.age }) c

        by_purge :
            (r : Bool × Cache)
            → Known known r.1.entries
            → (let next : Bool × Cache =
                  if r.0
                  then (true, write_cache mac (λ v. record v { port = port }) r.1)
                  else (false, r.1) in
                Known known next.1.entries)
        by_purge (true, t) k =
            Known-write_entry mac (λ v. record v { port = port }) t.entries (λ v h. new) k
        by_purge (false, t) k = k
