-- ===== src/Tests/Packets.antt =====
-- The theorems on packets at the example network.
use netemul.Base.{suc, ◌≤◌, ◌<◌, ◌⊎◌, ◌≡◌, refl, none, some, [], ◌∷◌, arith}
use netemul.Node.{Ptr}
use netemul.World.Run.{ok, fault, write, first_nodes}
use netemul.World.{Packet}
use netemul.World.Ends.{Ends}
use netemul.Env.Model.{example_env, example_env-FifoLaws, example_env-CacheLaws}
use netemul.Component.{network_process}
use netemul.Switch.{send_hub, packet_dup}
use netemul.Switch.Echo.{Still, send_hub-Still}
use netemul.Switch.Dup.{SameBytes, packet_dup-SameBytes}
use netemul.Ownership.{Copyable, is_there, Owned, Held, Sound, count_in}
use netemul.Switch.Broadcast.{SwitchPort, Spent}
use netemul.Switch.Hub.{send_hub-Spent}
use netemul.Network.Process.{Placed, network_process-Placed}
use netemul.EtherSwitch.{send_ether, route, mac_at}
use netemul.EtherSwitch.Send.{Settled, send_ether-Settled}
use netemul.EtherSwitch.Ports.{Known}
use netemul.EtherSwitch.Route.{Routed, route-Routed}
use netemul.Tests.{placed, linked_components, hub, frame, linked, ether_switch, table, known}

unqueued : (a p : Ptr) → count_in p (linked_components a) ≡ 0
unqueued a p = ground arith

linked-Owned : Owned linked
linked-Owned = record {
  stored = λ a p h. unqueued a p;
  once = λ a p. ground (arith, unqueued a p);
  apart = λ a b p n. omega (arith, unqueued a p, unqueued b p);
  fresh = λ p h. ground arith;
  timed_stored = λ p h. refl;
  timed_once = λ p. omega arith;
  timed_apart = λ a p. ground (arith, unqueued a p);
}

linked-Copyable : Copyable linked
linked-Copyable p k h = ground (arith, h)

linked-Sound : Sound linked
linked-Sound a o h = ground arith

frame-Held : Held linked 40
frame-Held = record {
  packet = frame;
  allocated = refl;
  unqueued = λ a. unqueued a 40;
  untimed = refl;
}

port :
    (a : Ptr)
    → linked_components a ≡ some (placed 10 none none)
    → SwitchPort linked a (some 20 ∷ some 21 ∷ [])
unfolding first_nodes
port a h = record {
  component = placed 10 none none;
  switch = 10;
  composite = hub;
  there = h;
  owner = refl;
  switch_there = refl;
  first = refl;
  nodes = (refl, (refl, tt));
}

-- The frame comes by the port 21.
send_hub-Spent_example : Ends (λ _ w'. Spent linked 40 w') (send_hub example_env 21 40 linked)
send_hub-Spent_example =
    send_hub-Spent example_env example_env-FifoLaws linked 21 40 (some 20 ∷ some 21 ∷ [])
      (port 21 refl) linked-Copyable linked-Owned linked-Sound frame-Held

linked_port : SwitchPort linked 20 (some 20 ∷ some 21 ∷ [])
unfolding first_nodes
linked_port = record {
  component = placed 10 (some 31) (some 30);
  switch = 10;
  composite = hub;
  there = refl;
  owner = refl;
  switch_there = refl;
  first = refl;
  nodes = (refl, (refl, tt));
}

-- The frame comes by the port 20, which leads to the cable 30.
send_hub-Still_example : Ends (λ _ u. Still 30 linked u) (send_hub example_env 20 40 linked)
send_hub-Still_example =
    send_hub-Still example_env example_env-FifoLaws linked 20 40 30 (some 20 ∷ some 21 ∷ [])
      linked_port linked-Copyable linked-Owned linked-Sound frame-Held
      ((λ n q. absurd (n refl)), ((λ n q. ground (arith, q)), tt))

-- The frame's bytes begin at its buffer's.
packet_dup-SameBytes_example :
    ((frame.start ≤ 2)
      × ((k' : Packet) × SameBytes frame k'
          × (packet_dup example_env 40 linked
              ≡ ok (some linked.next) (record linked {
                next = suc linked.next;
                packet = write linked.packet linked.next (some k');
              }))))
    ⊎ ((2 < frame.start) × (packet_dup example_env 40 linked ≡ fault))
unfolding example_env
packet_dup-SameBytes_example =
    packet_dup-SameBytes example_env linked 40 frame refl refl (omega arith) (omega arith)
      (omega arith)

network_process-Placed_example :
    Ends (λ _ w'. Placed linked 21 40 w') (network_process example_env 21 40 linked)
network_process-Placed_example =
    network_process-Placed example_env example_env-FifoLaws linked 21 40 (some 20 ∷ some 21 ∷ [])
      (port 21 refl) linked-Owned linked-Sound frame-Held

-- The frame for the address 6 leaves by the port 20.
route-Routed_example : Ends (Routed linked 13 21 20 40) (route example_env 13 21 40 linked)
unfolding mac_at
route-Routed_example =
    route-Routed example_env example_env-FifoLaws example_env-CacheLaws linked 13 21 40 ether_switch
      table frame known refl refl refl refl refl linked-Sound frame-Held

switch_first : first_nodes 1 (some 23 ∷ []) linked ≡ ok (some 23 ∷ []) linked
unfolding first_nodes
switch_first = refl

abbrev switch_port : SwitchPort linked 23 (some 23 ∷ [])
switch_port = record {
  component = placed 13 none none;
  switch = 13;
  composite = ether_switch;
  there = refl;
  owner = refl;
  switch_there = refl;
  first = switch_first;
  nodes = (refl, tt);
}

table-Known : Known (λ a. is_there (linked_components a)) table.entries
table-Known k v h = ground arith

-- The frame comes by the switch's port.
send_ether-Settled_example :
    Ends (λ _ w'. Settled linked 40 w') (send_ether example_env 23 40 linked)
unfolding example_env
send_ether-Settled_example =
    send_ether-Settled example_env example_env-FifoLaws example_env-CacheLaws linked 23 40
      (some 23 ∷ []) switch_port table frame linked-Copyable linked-Owned linked-Sound frame-Held
      refl table-Known refl (refl, refl, tt) refl
