-- ===== src/Tests/Following.antt =====
-- The links of the example network are followed from the hub.
use netemul.Base.{
  ℕ, zero, suc, ◌<◌, ◌≡◌, refl, true, none, some, [], ◌∷◌, arith, codes, subst, ◌==◌, inl, inr,
  if◌then◌else◌, decimal, digits, Bool-cases,
}
use netemul.Node.{Ptr}
use netemul.World.{World, Composite}
use netemul.World.Run.{children, load_composite, first_nodes}
use netemul.Env.Model.{example_env, example_env-ListLaws}
use netemul.Manager.{get_node, find_node, port_name, fits_name, tokens}
use netemul.Topology.{check_node}
use netemul.Topology.Named.{Named, Links}
use netemul.Topology.Returns.{Returned, check_node-Returned}
use netemul.Tests.{hub, link, host}
use netemul.Tests.Drawing.{drawable, memory, hub_tree, hub_tree-IsForest}

-- The hub, the link and the host alone, which are registered
abbrev three : World
three = record drawable {
  composite = λ a.
      if a == 10
      then some hub
      else if a == 11
      then some link
      else if a == 12
      then some host
      else none;
}

short_names : (c d j : ℕ) → j < 2 → fits_name (port_name (c ∷ d ∷ []) j) ≡ true
unfolding port_name decimal digits
short_names c d zero h = refl
short_names c d (suc zero) h = refl
short_names c d (suc (suc j)) h = absurd (omega (arith, h))

hub-Named : Named example_env three hub
unfolding example_env get_node find_node tokens
hub-Named = ((10, hub, refl, refl), short_names b'h' b'0')

link-Named : Named example_env three link
unfolding example_env get_node find_node tokens
link-Named = ((11, link, refl, refl), short_names b'l' b'0')

host-Named : Named example_env three host
unfolding example_env get_node find_node tokens
host-Named = ((12, host, refl, refl), λ j h. short_names b'v' b'0' j (omega (arith, h)))

all-Named : (q : Ptr) (b : Composite) → three.composite q ≡ some b → Named example_env three b
all-Named q b at = elim (Bool-cases (q == 10)) [
  | inl y ↦ subst (Named example_env three) {x = hub} {y = b} (ground (arith, y, at)) hub-Named
  | inr n ↦ elim (Bool-cases (q == 11)) [
    | inl y ↦ subst (Named example_env three) {x = link} {y = b} (ground (arith, y, at)) link-Named
    | inr m ↦
        subst (Named example_env three) {x = host} {y = b} (ground (arith, n, m, at)) host-Named
  ]
]

link-Links : Links example_env three (11 ∷ [])
unfolding example_env get_node find_node tokens children load_composite first_nodes
link-Links = (
  (
    some 30 ∷ some 31 ∷ [],
    refl,
    (
      (codes "h0.0", codes "v0.0", refl, refl, refl, (12, host, refl, refl)),
      ((codes "v0.0", codes "h0.0", refl, refl, refl, (10, hub, refl, refl)), tt),
    ),
  ),
  tt,
)

check_node-Returned_example :
    Returned example_env example_env-ListLaws memory three all-Named
      (11 ∷ [])
      hub_tree
      (check_node example_env three 2 10 (11 ∷ []) (some 1) hub_tree)
check_node-Returned_example =
    check_node-Returned example_env example_env-ListLaws memory three all-Named 10 hub (11 ∷ [])
      (some 1) hub_tree refl hub_tree-IsForest refl link-Links
