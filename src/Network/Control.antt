-- ===== src/Network/Control.antt =====
-- `network_control` of src/network.c: which packet a round of the event loop sends on.
use netemul.Base.{◌≡◌, refl, ap, ◌∙◌, true, some, List, [], ◌∷◌, ◌++◌}
use netemul.Node.{Ptr}
use netemul.Env.{Env, Fifo}
use netemul.Env.Laws.{FifoLaws}
use netemul.World.{World, Component}
use netemul.World.Run.{ok, and_then, pure, ◌>>◌, load, store}
use netemul.Network.{control_loop, network_control, forward}

-- Each of these components is there, with an empty queue.
abbrev pub Quiet : World → List Ptr → Type 0
Quiet w [] = Unit
Quiet w (p ∷ ps) =
    ((c : Component) × (q : Fifo) × (w.component p ≡ some c) × (c.queue ≡ some q) × (q.items ≡ []))
    × Quiet w ps

module _ (e : Env) (laws : FifoLaws e) (w : World) where
  skip-Quiet : (ps ns : List Ptr) → Quiet w ps → control_loop e (ps ++ ns) w ≡ control_loop e ns w
  unfolding control_loop load
  skip-Quiet [] ns quiet = refl
  skip-Quiet (p ∷ ps) ns ((c, q, there, queue, empty), quiet) =
      rw there (rw queue (rw (laws.pop_lem q) (rw empty (skip-Quiet ps ns quiet))))

  all-Quiet : (ps : List Ptr) → Quiet w ps → control_loop e ps w ≡ ok tt w
  unfolding control_loop load
  all-Quiet [] quiet = refl
  all-Quiet (p ∷ ps) ((c, q, there, queue, empty), quiet) =
      rw there (rw queue (rw (laws.pop_lem q) (rw empty (all-Quiet ps quiet))))

  head_first :
      (ns : List Ptr) (p packet : Ptr) (c : Component) (q : Fifo) (rest : List Ptr)
      → w.component p ≡ some c
      → c.queue ≡ some q
      → q.items ≡ packet ∷ rest
      → control_loop e (p ∷ ns) w
        ≡ (do store p (record c { queue = some (record q { items = rest }) }); forward e 2 p packet)
            w
  unfolding control_loop load store
  head_first ns p packet c q rest there queue items = simp (there, queue, laws.pop_lem q, items)

  -- A round forwards one packet, the oldest of the first component in the manager's list that has
  -- one: the components before it are passed over, and those behind it wait.
  pub network_control-first :
      (ps ns : List Ptr) (p packet : Ptr) (c : Component) (q : Fifo) (rest : List Ptr)
      → w.manager.components ≡ ps ++ p ∷ ns
      → Quiet w ps
      → w.component p ≡ some c
      → c.queue ≡ some q
      → q.items ≡ packet ∷ rest
      → network_control e w
        ≡ (do
          store p (record c { queue = some (record q { items = rest }) })
          forward e 2 p packet
          pure true)
            w
  unfolding network_control
  network_control-first ps ns p packet c q rest list quiet there queue items =
      ap (λ l. (control_loop e l >> pure true) w) list
      ∙ ap (λ r. and_then r (λ _. pure true))
          (skip-Quiet ps (p ∷ ns) quiet ∙ head_first ns p packet c q rest there queue items)

  -- A round without a packet in any queue changes nothing.
  pub network_control-idle : Quiet w w.manager.components → network_control e w ≡ ok true w
  unfolding network_control
  network_control-idle quiet =
      ap (λ r. and_then r (λ _. pure true)) (all-Quiet w.manager.components quiet)
