-- ===== src/Manager/Unregister.antt =====
-- `node_unregister` of src/manager.c behind `node_register`.
use netemul.Base.{
  ℕ, ◌<◌, ◌≡◌, refl, true, false, Option, none, some, List, [], ◌∷◌, ◌++◌, arith, has, length, ap,
  ◌∙◌, same,
}
use mathlib.Core.List.{append-nil}
use netemul.Node.{Ptr, Name}
use netemul.Env.{Env, NameMap}
use netemul.Env.Laws.{ListLaws, MapLaws, lookup, erase}
use netemul.World.{World, Composite}
use netemul.World.Run.{ok, ◌>>◌, children, load_composite, first_nodes}
use netemul.World.Ends.{Ends, ends, follow}
use netemul.Ownership.{is_there}
use netemul.Switch.Port.{walk_again}
use netemul.Manager.{node_register, node_unregister, unlist, port_name, fits_name}
use netemul.Manager.Register.{somes, AllDistinct, Registered, same_refl, node_register-Registered}

-- None of these is in the list.
abbrev pub Unlisted : List Ptr → List Ptr → Type 0
Unlisted cs [] = Unit
Unlisted cs (p ∷ ps) = (has p cs ≡ false) × Unlisted cs ps

erase-behind : (cs ps : List Ptr) (p : Ptr) → has p cs ≡ false → erase p (cs ++ p ∷ ps) ≡ cs ++ ps
erase-behind [] ps p h = ground arith
erase-behind (c ∷ cs) ps p h = ground (arith, erase-behind cs ps p, h)

has-behind : (cs ps : List Ptr) (p : Ptr) → has p (cs ++ p ∷ ps) ≡ true
has-behind [] ps p = ground arith
has-behind (c ∷ cs) ps p = ground (arith, has-behind cs ps p)

module _ (e : Env) (lists : ListLaws e) where
  unlist-behind : (ps cs : List Ptr) → Unlisted cs ps → unlist e (somes ps) (cs ++ ps) ≡ cs
  unfolding unlist
  unlist-behind [] cs new = append-nil cs
  unlist-behind (p ∷ ps) cs (new, others) = rw (gone, unlist) (unlist-behind ps cs others)
    where
      gone : e.list_remove_data (cs ++ p ∷ ps) p ≡ some (cs ++ ps)
      gone =
          lists.remove_lem (cs ++ p ∷ ps) p
          ∙ rw (has-behind cs ps p) (ap (λ (xs : List Ptr). some xs) (erase-behind cs ps p new))

-- The manager of the second state lists what the first one does, the name leads nowhere, and other
-- names lead to what they led to.
abbrev pub Restored : World → Name → World → Type 0
Restored w name v =
    (v.manager.components ≡ w.manager.components)
    × (lookup v.manager.nodes name ≡ none)
    × ((other : Name)
        → same name other ≡ false
        → lookup v.manager.nodes other ≡ lookup w.manager.nodes other)

module _ (e : Env) (lists : ListLaws e) (maps : MapLaws e)
    (takes : (xs : List ℕ) (x : ℕ) → (ys : List ℕ) × (e.list_add xs x ≡ some ys))
    (memory : (a : Ptr) → e.malloc_ok a ≡ true) (w : World) (node : Ptr) (b : Composite)
    (ps : List Ptr) (there : w.composite node ≡ some b)
    (whole : first_nodes b.node_count b.nodes w ≡ ok (somes ps) w) (distinct : AllDistinct ps)
    (present : (p : Ptr) → has p ps ≡ true → is_there (w.component p) ≡ true)
    (fits : (j : ℕ) → j < length ps → fits_name (port_name b.name j) ≡ true)
    (put : (ms : NameMap) × (e.map_put w.manager.nodes b.name node ≡ some ms))
    (new : Unlisted w.manager.components ps) where
  unregistered :
      (u : World)
      → Registered w node b.name ps u
      → Ends (λ _ v. Restored w b.name v) (node_unregister e b.name u)
  unfolding node_unregister children load_composite
  unregistered u r = rw (maps.removed_lem u.manager.nodes b.name) (
      rw r.registered (
        rw box (
          rw (walk_again b.node_count b.nodes (somes ps) w _ whole) (
            rw r.listed (
              rw (unlist-behind e lists ps w.manager.components new)
                (ends (refl, removed, kept)))))))
    where
      box : u.composite node ≡ some b
      box = ap (λ (f : Ptr → Option Composite). f node) r.boxes ∙ there

      removed : lookup (e.map_remove u.manager.nodes b.name).1 b.name ≡ none
      removed = maps.remove_lem u.manager.nodes b.name b.name ∙ rw (same_refl b.name) refl

      kept :
          (other : Name)
          → same b.name other ≡ false
          → lookup (e.map_remove u.manager.nodes b.name).1 other ≡ lookup w.manager.nodes other
      kept other n = maps.remove_lem u.manager.nodes b.name other ∙ rw n (r.kept other n)

  -- Registering a composite and unregistering it again succeeds, under the conditions of a
  -- registration: the manager lists the components that it listed before, if none of the composite's was
  -- among them, the name leads nowhere, and all other names lead to what they led to.
  pub node_register-node_unregister :
      Ends
        (λ _ v. Restored w b.name v)
        ((node_register e node b.name >> node_unregister e b.name) w)
  node_register-node_unregister =
      follow
        (node_register-Registered e lists maps takes memory w node b ps there whole distinct present
          fits put)
        λ done u (d, r). unregistered u r
