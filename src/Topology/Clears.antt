-- ===== src/Topology/Clears.antt =====
-- What `tree` of src/command.c and its handler in src/rpc_manager.c leave behind.
use netemul.Base.{
  ℕ, suc, ◌≡◌, refl, true, false, Option, none, some, List, [], ◌∷◌, arith, length, ltb, ap, sym,
  ◌∙◌, subst, Bool-cases, inl, inr,
}
use netemul.Node.{NodeType, Ptr, Name, max_name_len}
use netemul.Env.{Env}
use netemul.Env.Laws.{ListLaws}
use netemul.World.{World}
use netemul.Manager.{NodeRef, component, composite, get_node}
use netemul.Tree.{Forest, Result, tree_init, tree_get_root, tree_destroy}
use netemul.Tree.Shape.{IsForest}
use netemul.Tree.Search.{exists, known_parent, Below, itself, deeper}
use netemul.Tree.Settled.{Settled, crash, settled, follow}
use netemul.Tree.Grow.{AllBelow, tree_add-root, rooted, rooted-IsForest}
use netemul.Tree.Free.{Frees, tree_destroy-Frees}
use netemul.Sketch.{Canvas, Drawing, sketch, blank}
use netemul.Sketch.Rows.{Drawn, Sketched, overrun, done, sketch_node-Drawn}
use netemul.Listing.{Hit, missing, broken, hit, collect}
use netemul.Topology.{finish_tree, draw_tree, value_of}
use netemul.Topology.Show.{
  Shown, show_node, show_tree, show_short, with_list, cmd_tree, cmd_tree_again, tree_handler,
}
use netemul.Topology.Follow.{check_node-Grown}

-- No node is allocated.
abbrev pub Clear : Forest → Type 0
Clear f = (a : Ptr) → exists (f.node a) ≡ false

none_there : (f : Forest) → Clear f → (a : Ptr) → f.node a ≡ none
none_there f clear a = ground (arith, clear a)

Clear-IsForest : (f : Forest) → Clear f → IsForest f
Clear-IsForest f clear = record {
  fresh = λ p n. ground (arith, none_there f clear p);
  front = λ p. ground (arith, none_there f clear p);
  size = λ p. ground (arith, none_there f clear p);
  belongs = λ p q h. ground (arith, none_there f clear p, h);
  younger = λ p q h. ground (arith, none_there f clear p, h);
  once = λ p. ground (arith, none_there f clear p);
}

Below-exists :
    (f : Forest)
    → IsForest f
    → {p r : Ptr} → Below f p r
    → exists (f.node p) ≡ true
    → exists (f.node r) ≡ true
Below-exists f forest itself h = h
Below-exists f forest (deeper {p = p} {q = q} k b) h =
    Below-exists f forest b (known_parent (f.node q) p (forest.belongs p q k))

Frees-Clear :
    (f : Forest) (forest : IsForest f) (p : Ptr)
    → exists (f.node p) ≡ true
    → AllBelow f p
    → {r : Result (Unit {0})} → Frees f forest (Below f p) f r
    → Settled (λ _ g. Clear g) r
Frees-Clear f forest p there all (g, eq, (gone, kept, root, next)) = rw eq (
    settled {f = g} λ a. elim (Bool-cases (exists (f.node a))) [
      | inl y ↦ ap exists (gone a (all a y))
      | inr n ↦ ap exists (kept a λ b. ground (arith, Below-exists f forest b there, n)) ∙ n
    ])

destroy-Clear :
    (f : Forest) (p : Ptr)
    → IsForest f
    → exists (f.node p) ≡ true
    → AllBelow f p
    → (o : Option Ptr) → o ≡ some p
    → Settled (λ _ g. Clear g) (tree_destroy f.next o f)
destroy-Clear f p forest there all o eq =
    subst (λ o. Settled (λ _ g. Clear g) (tree_destroy f.next o f)) (sym eq)
      (Frees-Clear f forest p there all (tree_destroy-Frees f forest p there))

sketch-Drawn :
    (f : Forest) (p : Ptr)
    → IsForest f
    → exists (f.node p) ≡ true
    → (o : Option Ptr) → o ≡ some p
    → Drawn (Sketched (f.node p) blank 0 0) (sketch f f.next o 0 0)
unfolding sketch
sketch-Drawn f p forest there o eq =
    subst (λ o. Drawn (Sketched (f.node p) blank 0 0) (sketch f f.next o 0 0)) (sym eq)
      (sketch_node-Drawn f forest f.next p 0 0 blank (omega arith) there)

module _ (e : Env) (lists : ListLaws e) (memory : (a : Ptr) → e.malloc_ok a ≡ true)
    (w : World) where
  only_root :
      (p : Ptr) (f : Forest) (clear : Clear f)
      → AllBelow (rooted e memory f (Clear-IsForest f clear) p) f.next
  only_root p f clear a h =
      subst (λ x. Below (rooted e memory f (Clear-IsForest f clear) p) f.next x)
        (ground (arith, clear a, h)) itself

  finish_tree-Clear :
      {Q : ℕ → Canvas → Type 0} (d : Drawing) (f : Forest)
      → Drawn Q d
      → Settled (λ _ g. Clear g) (tree_destroy f.next (tree_get_root f) f)
      → Settled (λ _ g. Clear g) (finish_tree e w d f)
  finish_tree-Clear d f overrun clear = crash
  finish_tree-Clear d f (done q) clear = follow clear λ _ g c. settled c

  draw_tree-Clear :
      (node : NodeRef) (links : List Ptr) (f : Forest)
      → Clear f
      → f.root ≡ none
      → Settled (λ _ g. Clear g) (draw_tree e w node links f)
  unfolding draw_tree
  draw_tree-Clear (component p) links f clear root = crash
  draw_tree-Clear (composite p) links f clear root =
      let forest = Clear-IsForest f clear in
      rw (tree_add-root e memory f forest p root) (
        follow
          (check_node-Grown e lists memory w (suc (length links)) p links (some f.next)
            (rooted e memory f forest p) (omega arith) (rooted-IsForest e memory f forest p)
            (ground arith))
          λ left h (le, grew).
            let there = grew.kept f.next (ground arith) in
            finish_tree-Clear (sketch h h.next (tree_get_root h) 0 0) h
              (sketch-Drawn h f.next grew.forest there h.root grew.root)
              (destroy-Clear h f.next grew.forest there (grew.below f.next (only_root p f clear))
                h.root grew.root))

  show_node-Clear :
      (node : Option (Option NodeRef)) (links : List Ptr) (f : Forest)
      → Clear f
      → f.root ≡ none
      → Settled (λ _ g. Clear g) (show_node e w node links f)
  show_node-Clear none links f clear root = crash
  show_node-Clear (some none) links f clear root = settled clear
  show_node-Clear (some (some node)) links f clear root =
      follow (draw_tree-Clear node links f clear root) λ _ g c. settled c

  show_tree-Clear :
      (name : Name) (links : Hit (List Ptr)) (f : Forest)
      → Clear f
      → Settled (λ _ g. Clear g) (show_tree e w name links f)
  unfolding tree_init
  show_tree-Clear name missing f clear = settled clear
  show_tree-Clear name broken f clear = crash
  show_tree-Clear name (hit links) f clear =
      show_node-Clear (value_of (get_node e name w)) links (tree_init f) clear refl

  show_short-Clear :
      (name : Name) (links : Hit (List Ptr)) (f : Forest)
      → Clear f
      → Settled (λ _ g. Clear g) (show_short e w name links f)
  unfolding tree_init
  show_short-Clear name missing f clear = settled clear
  show_short-Clear name broken f clear = crash
  show_short-Clear name (hit links) f clear = elim (Bool-cases (ltb max_name_len (length name))) [
    | inl y ↦ rw y (settled clear)
    | inr n ↦ rw n (show_node-Clear (value_of (get_node e name w)) links (tree_init f) clear refl)
  ]

  with_list-Clear :
      (show : Hit (List Ptr) → Forest → Result Shown)
      → ((links : Hit (List Ptr)) (f : Forest) → Clear f → Settled (λ _ g. Clear g) (show links f))
      → (list : Option (List Ptr)) (f : Forest) → Clear f
      → Settled (λ _ g. Clear g) (with_list e w show list f)
  with_list-Clear show each none f clear = settled clear
  with_list-Clear show each (some list) f clear =
      each (collect e w NodeType.link w.manager.nodes list) f clear

  cmd_tree-Clear :
      (args : List Name) (f : Forest) → Clear f → Settled (λ _ g. Clear g) (cmd_tree e w args f)
  unfolding cmd_tree
  cmd_tree-Clear [] f clear = settled clear
  cmd_tree-Clear (_ ∷ []) f clear = settled clear
  cmd_tree-Clear (_ ∷ name ∷ []) f clear =
      with_list-Clear (show_short e w name) (show_short-Clear name) e.list_create f clear
  cmd_tree-Clear (_ ∷ _ ∷ _ ∷ _) f clear = settled clear

  cmd_tree_again-Clear :
      (args : List Name) (f : Forest)
      → Clear f
      → Settled (λ _ g. Clear g) (cmd_tree_again e w args f)
  unfolding cmd_tree_again
  cmd_tree_again-Clear [] f clear = settled clear
  cmd_tree_again-Clear (_ ∷ []) f clear = settled clear
  cmd_tree_again-Clear (_ ∷ name ∷ []) f clear =
      with_list-Clear (show_tree e w name) (show_tree-Clear name) e.list_create f clear
  cmd_tree_again-Clear (_ ∷ _ ∷ _ ∷ _) f clear = settled clear

  -- Both versions of the command `tree`, and the handler of a remote `tree`, whatever the network is
  -- like and whatever they are asked for: if there is memory and no node of a tree is allocated, they
  -- do not run out of fuel; they read through a bad pointer or past an array or the canvas, or they
  -- return, and no node of a tree is allocated: each one that was added was freed, once.
  pub tree-Clear :
      (args : List Name) (name : Name) (f : Forest)
      → Clear f
      → Settled (λ _ g. Clear g) (cmd_tree e w args f)
        × Settled (λ _ g. Clear g) (cmd_tree_again e w args f)
        × Settled (λ _ g. Clear g) (tree_handler e w name f)
  unfolding tree_handler
  tree-Clear args name f clear = (
    cmd_tree-Clear args f clear,
    cmd_tree_again-Clear args f clear,
    follow (with_list-Clear (show_tree e w name) (show_tree-Clear name) e.list_create f clear)
        λ _ g c. settled c,
  )
