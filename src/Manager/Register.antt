-- ===== src/Manager/Register.antt =====
-- `node_register` of src/manager.c.
use netemul.Base.{
  ℕ, zero, suc, ◌+◌, ◌<◌, ◌≡◌, refl, true, false, Option, none, some, List, [], ◌∷◌, ◌++◌, arith,
  has, length, get_elem?, sym, ap, ◌∙◌, subst, if◌then◌else◌, same,
}
use mathlib.Core.List.{append-nil, append_assoc}
use netemul.Node.{Ptr, Name}
use netemul.Env.{Env, NameMap}
use netemul.Env.Laws.{ListLaws, MapLaws, lookup}
use netemul.World.{World, Component, Composite, Manager}
use netemul.World.Run.{ok, write, update, load, load_composite, children, first_nodes, malloc}
use netemul.World.Ends.{Ends, ends, follow, weaken}
use netemul.Ownership.{is_there}
use netemul.Ownership.Push.{get_component}
use netemul.Manager.{port_name, fits_name, register_nodes, node_register}

-- The nodes of a composite, all of them set.
abbrev pub somes : List Ptr → List (Option Ptr)
somes [] = []
somes (p ∷ ps) = some p ∷ somes ps

abbrev pub AllDistinct : List Ptr → Type 0
AllDistinct [] = Unit
AllDistinct (p ∷ ps) = (has p ps ≡ false) × AllDistinct ps

abbrev pub name_of : Option Component → Option Name
name_of none = none
name_of (some c) = some c.name

-- The components have their names, from a number on, stand at the end of the manager's list, and
-- nothing else has changed.
record Listed (w : World) (name : Name) (i : ℕ) (ps : List Ptr) (u : World) : Type 0 where
  pub named :
      (j p : ℕ) → get_elem? ps j ≡ some p → name_of (u.component p) ≡ some (port_name name (i + j))
  pub others : (a : Ptr) → has a ps ≡ false → u.component a ≡ w.component a
  pub manager : u.manager ≡ record (w.manager) { components = w.manager.components ++ ps }
  pub boxes : u.composite ≡ w.composite

-- The state with one component named and listed.
abbrev entered : World → Name → Ptr → Component → World
entered w text p c = record w {
  component = write w.component p (some (record c { name = text }));
  manager = record (w.manager) { components = w.manager.components ++ p ∷ [] };
}

module _ (w : World) (name : Name) (i : ℕ) (p : Ptr) (ps : List Ptr) (c : Component)
    (at : w.component p ≡ some c) (new : has p ps ≡ false) (u : World)
    (l : Listed (entered w (port_name name i) p c) name (i + 1) ps u) where
  named_first :
      (j a : ℕ)
      → get_elem? (p ∷ ps) j ≡ some a
      → name_of (u.component a) ≡ some (port_name name (i + j))
  named_first zero a h =
      subst (λ b. name_of (u.component b) ≡ some (port_name name (i + 0))) (ground (arith, h))
        (ap name_of (l.others p new) ∙ here ∙ ap (λ n. some (port_name name n)) (omega arith))
    where
      here : name_of ((entered w (port_name name i) p c).component p) ≡ some (port_name name i)
      here = ground arith
  named_first (suc j) a h = l.named j a h ∙ ap (λ n. some (port_name name n)) (omega arith)

  joined : Listed w name i (p ∷ ps) u
  joined = record {
    named = named_first;
    others = λ a h. ground (arith, l.others a, h);
    manager =
        l.manager
        ∙ ap (λ cs. record (w.manager) { components = cs })
            (append_assoc w.manager.components (p ∷ []) ps);
    boxes = l.boxes;
  }

module _ (e : Env) (lists : ListLaws e)
    (takes : (xs : List ℕ) (x : ℕ) → (ys : List ℕ) × (e.list_add xs x ≡ some ys))
    (name : Name) where
  register_nodes-Listed :
      (ps : List Ptr) (i : ℕ) (w : World)
      → AllDistinct ps
      → ((p : Ptr) → has p ps ≡ true → is_there (w.component p) ≡ true)
      → ((j : ℕ) → j < i + length ps → fits_name (port_name name j) ≡ true)
      → Ends (λ done u. (done ≡ true) × Listed w name i ps u) (register_nodes e name i (somes ps) w)
  unfolding register_nodes update load
  register_nodes-Listed [] i w distinct there fits = ends (
    refl,
    record {
      named = λ j p h. absurd (ground (arith, h));
      others = λ a h. refl;
      manager =
          ap (λ cs. record (w.manager) { components = cs }) (sym (append-nil w.manager.components));
      boxes = refl;
    },
  )
  register_nodes-Listed (p ∷ ps) i w (new, distinct) there fits =
      let (c, at) = get_component (w.component p) (there p (ground arith)) in
      let (ys, taken) = takes w.manager.components p in go (register_nodes-Listed ps) c at ys taken
    where
      go :
          ((i : ℕ) (w : World)
            → AllDistinct ps
            → ((p : Ptr) → has p ps ≡ true → is_there (w.component p) ≡ true)
            → ((j : ℕ) → j < i + length ps → fits_name (port_name name j) ≡ true)
            → Ends
                (λ done u. (done ≡ true) × Listed w name i ps u)
                (register_nodes e name i (somes ps) w))
          → (c : Component) → w.component p ≡ some c
          → (ys : List ℕ) → e.list_add w.manager.components p ≡ some ys
          → Ends
              (λ done u. (done ≡ true) × Listed w name i (p ∷ ps) u)
              (register_nodes e name i (some p ∷ somes ps) w)
      go ih c at ys taken = rw (fits i (omega arith)) (
          rw at (
            rw taken (
              rw (lists.add_lem w.manager.components ys p taken) (
                weaken
                  (ih (i + 1) (entered w (port_name name i) p c) distinct
                    (λ a h. ground (arith, there a, h, at)) (λ j h. fits j (omega (arith, h))))
                  λ done u (d, l). (d, joined w name i p ps c at new u l)))))

pub same_refl : (s : Name) → same s s ≡ true
same_refl [] = refl
same_refl (x ∷ s) = ground (arith, same_refl s)

-- The state that a registration leaves: the node is found under its name, what other names lead to
-- is as before, its components are named after it and listed, and the composites are as they were.
pub record Registered (w : World) (node : Ptr) (name : Name) (ps : List Ptr) (u : World)
    : Type 0 where
  pub registered : lookup u.manager.nodes name ≡ some node
  pub kept :
      (other : Name)
      → same name other ≡ false
      → lookup u.manager.nodes other ≡ lookup w.manager.nodes other
  pub named :
      (j p : ℕ) → get_elem? ps j ≡ some p → name_of (u.component p) ≡ some (port_name name j)
  pub listed : u.manager.components ≡ w.manager.components ++ ps
  pub boxes : u.composite ≡ w.composite

module _ (e : Env) (lists : ListLaws e) (maps : MapLaws e)
    (takes : (xs : List ℕ) (x : ℕ) → (ys : List ℕ) × (e.list_add xs x ≡ some ys))
    (memory : (a : Ptr) → e.malloc_ok a ≡ true) (w : World) (node : Ptr) (b : Composite)
    (ps : List Ptr) (there : w.composite node ≡ some b)
    (whole : first_nodes b.node_count b.nodes w ≡ ok (somes ps) w) (distinct : AllDistinct ps)
    (present : (p : Ptr) → has p ps ≡ true → is_there (w.component p) ≡ true)
    (fits : (j : ℕ) → j < length ps → fits_name (port_name b.name j) ≡ true)
    (put : (ms : NameMap) × (e.map_put w.manager.nodes b.name node ≡ some ms)) where
  -- Registering a composite under its own name succeeds, if there is memory, the containers take
  -- what they are given, and the names of its components, which are there and differ, fit.
  pub node_register-Registered :
      Ends (λ done u. (done ≡ true) × Registered w node b.name ps u) (node_register e node b.name w)
  unfolding node_register load_composite children malloc
  node_register-Registered = rw there (
      rw there (
        rw whole (
          follow
            (register_nodes-Listed e lists takes b.name ps 0 w distinct present
              (λ j h. fits j (omega (arith, h))))
            λ done u (d, l). rw d (
              rw (memory u.next) (
                rw (ap (λ (m : Manager). m.nodes) l.manager) (
                  rw (put.1) (
                    ends (
                      refl,
                      record {
                        registered =
                            maps.put_lem w.manager.nodes put.0 b.name node put.1 b.name ∙ itself;
                        kept = λ other n.
                            maps.put_lem w.manager.nodes put.0 b.name node put.1 other ∙ rw n refl;
                        named = λ j p h.
                            l.named j p h ∙ ap (λ k. some (port_name b.name k)) (omega arith);
                        listed = ap (λ (m : Manager). m.components) l.manager;
                        boxes = l.boxes;
                      },
                    ))))))))
    where
      itself : (if same b.name b.name then some node else lookup w.manager.nodes b.name) ≡ some node
      itself = rw (same_refl b.name) refl
