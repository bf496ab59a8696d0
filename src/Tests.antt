-- ===== src/Tests.antt =====
-- A small network to try the theorems on: a hub at 10 with the ports 20 and 21, a host at 12 with
-- the port 22, a link at 11 with the cables 30 and 31, a switch at 13 with a table and the port 23, and a packet
-- at 40.
pub mod Wiring
pub mod Packets
pub mod Tables
pub mod Control
pub mod Creation
pub mod Events
pub mod Script
pub mod Register
pub mod Trees
pub mod Drawing
pub mod Following
pub mod Startup
pub mod Devices
use netemul.Base.{
  ℕ, ◌+◌, ◌≤◌, ◌≡◌, refl, Bool, true, false, Option, none, some, List, [], ◌∷◌, arith, ◌==◌,
  if◌then◌else◌, codes,
}
use netemul.Node.{NodeType, Ptr}
use netemul.Env.{Fifo, Cache, MacTableEntity}
use netemul.World.{World, Component, Composite, Packet, Manager}
use netemul.Component.{zeroed}
use netemul.Composite.{zeroed_composite}

abbrev pub empty_queue : Fifo
empty_queue = record { size = 8; items = [] }

-- A component that is on, with an empty queue.
abbrev pub placed : Ptr → Option Ptr → Option Ptr → Component
placed owner input output = record zeroed {
  is_active = true;
  owner = some owner;
  input = input;
  output = output;
  queue = some empty_queue;
}

-- Nothing is connected, or the link connects 20 with 22.
abbrev pub free_components : Ptr → Option Component
free_components a =
    if a == 20
    then some (placed 10 none none)
    else if a == 21
    then some (placed 10 none none)
    else if a == 22
    then some (placed 12 none none)
    else if a == 30
    then some (placed 11 none none)
    else if a == 31
    then some (placed 11 none none)
    else if a == 23
    then some (placed 13 none none)
    else none

abbrev pub linked_components : Ptr → Option Component
linked_components a =
    if a == 20
    then some (placed 10 (some 31) (some 30))
    else if a == 21
    then some (placed 10 none none)
    else if a == 22
    then some (placed 12 (some 30) (some 31))
    else if a == 30
    then some (placed 11 (some 20) (some 22))
    else if a == 31
    then some (placed 11 (some 22) (some 20))
    else if a == 23
    then some (placed 13 none none)
    else none

abbrev pub hub : Composite
hub = record zeroed_composite {
  type = NodeType.hub_switch;
  name = codes "h0";
  is_active = true;
  node_count = 2;
  nodes = some 20 ∷ some 21 ∷ [];
}

abbrev pub link : Composite
link = record zeroed_composite {
  type = NodeType.link;
  name = codes "l0";
  is_active = true;
  node_count = 2;
  nodes = some 30 ∷ some 31 ∷ [];
}

abbrev pub host : Composite
host = record zeroed_composite {
  type = NodeType.host;
  name = codes "v0";
  is_active = true;
  node_count = 1;
  nodes = some 22 ∷ [];
}

-- The switch knows the address 6, at the port 20.
abbrev pub known : MacTableEntity
known = record { port = 20; mac = 6; age = 120; timeout = 5000 }

abbrev pub table : Cache
table = record { capacity = 32; entries = (6, known) ∷ [] }

abbrev pub ether_switch : Composite
ether_switch = record zeroed_composite {
  type = NodeType.ether_switch;
  name = codes "s0";
  is_active = true;
  node_count = 1;
  nodes = some 23 ∷ [];
  table = some table;
}

-- A frame to the address 6 from the address 9.
abbrev pub frame : Packet
frame = record {
  start = 0;
  end = 60;
  size = 64;
  capacity = 64;
  buffer = λ i. if i == 0 then 6 else if i == 6 then 9 else 0;
}

abbrev pub example_world : (Ptr → Option Component) → World
example_world components = record {
  component = components;
  composite = λ a.
      if a == 10
      then some hub
      else if a == 11
      then some link
      else if a == 12
      then some host
      else if a == 13
      then some ether_switch
      else none;
  packet = λ a. if a == 40 then some frame else none;
  ni = λ a. none;
  next = 100;
  manager = record {
    nis = λ fd. none;
    nodes = (codes "h0", 10) ∷ (codes "v0", 12) ∷ [];
    components = 20 ∷ 21 ∷ 22 ∷ [];
    fds = 0 ∷ 5 ∷ [];
    fd_count = 2;
    nfds = 6;
    read_fds = 0 ∷ 5 ∷ [];
  };
  timers = [];
  readings = 0;
  sent = [];
}

abbrev pub unlinked : World
unlinked = example_world free_components

abbrev pub linked : World
linked = example_world linked_components
