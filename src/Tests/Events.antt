-- ===== src/Tests/Events.antt =====
-- The theorems on the event loop at a small network: the hub at 10, whose port 20 is linked by the
-- cables 30 and 31 with the port 22 of the host, and the switch's port 23. The interface with the descriptor 5 is
-- the host's, a packet waits in the queue of the hub's port, and one for a timer of the cable 30.
use netemul.Base.{
  ℕ, ◌*◌, ◌≡◌, refl, true, false, Option, none, some, [], ◌∷◌, arith, sym, subst, ◌==◌,
  if◌then◌else◌, ◌⊎◌, inl, inr, Bool-cases, codes,
}
use netemul.Node.{NodeType, Ptr, hub_send, ether_switch_send, virtual_forward, cable_forward}
use netemul.World.{World, Component}
use netemul.World.Run.{first_nodes}
use netemul.World.Ends.{Ends}
use netemul.Env.Model.{example_env, example_env-FifoLaws, example_env-MapLaws}
use netemul.Ownership.{Owned, Sound, Tables, count_in, is_there}
use netemul.EtherSwitch.Ports.{Known}
use netemul.Env.{Cache}
use netemul.Env.Laws.{Keyed}
use netemul.Network.Methods.{Port}
use netemul.Network.Safe.{Line, Attached, Safe, Stays}
use netemul.Input.{receive, aligned_start, fits_buffer, read_packet}
use netemul.Switch.{can_copy}
use netemul.Input.Receive.{receive-Stays}
use netemul.Manager.{composite}
use netemul.Command.{done, cmd_activate, cmd_deactivate}
use netemul.Rpc.{on_handler, off_handler}
use netemul.Network.Active.{Turned, switching-Turned}
use netemul.Tests.{example_world, placed, hub, host, ether_switch, table, frame}

abbrev hub_port : Component
hub_port = record (placed 10 (some 31) (some 30)) {
  packet_forward = hub_send;
  queue = some (record { size = 8; items = 40 ∷ [] });
}

abbrev other_port : Component
other_port = record (placed 10 none none) { packet_forward = hub_send }

abbrev host_port : Component
host_port = record (placed 12 (some 30) (some 31)) { packet_forward = virtual_forward }

abbrev switch_port : Component
switch_port = record (placed 13 none none) { packet_forward = ether_switch_send }

abbrev forth : Component
forth = record (placed 11 (some 20) (some 22)) { packet_forward = cable_forward }

abbrev back : Component
back = record (placed 11 (some 22) (some 20)) { packet_forward = cable_forward }

abbrev components : Ptr → Option Component
components a =
    if a == 20
    then some hub_port
    else if a == 21
    then some other_port
    else if a == 22
    then some host_port
    else if a == 23
    then some switch_port
    else if a == 30
    then some forth
    else if a == 31
    then some back
    else none

abbrev net : World
net = record (example_world components) {
  packet = λ a. if a == 40 then some frame else if a == 41 then some frame else none;
  timers = record { cable = 30; packet = 41; delay = 10 } ∷ [];
  ni = λ a.
      if a == 50 then some (record { fd = 5; port = 22; type = NodeType.virtual_port }) else none;
  manager = record {
    nis = λ fd. if fd == 5 then some 50 else none;
    nodes = (codes "h0", 10) ∷ [];
    components = 20 ∷ 21 ∷ 22 ∷ 23 ∷ 30 ∷ 31 ∷ [];
    fds = 0 ∷ 5 ∷ [];
    fd_count = 2;
    nfds = 6;
    read_fds = 0 ∷ 5 ∷ [];
  };
}

queued :
    (a p : Ptr) → count_in p (components a) ≡ (if a == 20 then (if p == 40 then 1 else 0) else 0)
queued a p = ground arith

net-Owned : Owned net
net-Owned = record {
  stored = λ a p h. ground (arith, queued a p, h);
  once = λ a p. ground (arith, queued a p);
  apart = λ a b p n. ground (arith, queued a p, queued b p);
  fresh = λ p h. ground arith;
  timed_stored = λ p h. ground (arith, h);
  timed_once = λ p. ground arith;
  timed_apart = λ a p. ground (arith, queued a p);
}

net-Sound : Sound net
net-Sound a o h = ground arith

net-Tables : Tables net
net-Tables s b c there has =
    subst (λ (t : Cache). Keyed t.entries × Known (λ a. is_there (components a)) t.entries)
      (sym same) ((refl, refl, tt), λ k v h. ground arith)
  where
    same : c ≡ table
    same = ground (arith, there, has)

port20 : Port net 20
unfolding first_nodes
port20 = record {
  nodes = some 20 ∷ some 21 ∷ [];
  at = record {
    component = hub_port;
    switch = 10;
    composite = hub;
    there = refl;
    owner = refl;
    switch_there = refl;
    first = refl;
    nodes = (refl, (refl, tt));
  };
  not_cable = refl;
  tabled = λ s ether owner. ground (arith, ether);
}

port21 : Port net 21
unfolding first_nodes
port21 = record {
  nodes = some 20 ∷ some 21 ∷ [];
  at = record {
    component = other_port;
    switch = 10;
    composite = hub;
    there = refl;
    owner = refl;
    switch_there = refl;
    first = refl;
    nodes = (refl, (refl, tt));
  };
  not_cable = refl;
  tabled = λ s ether owner. ground (arith, ether);
}

port22 : Port net 22
unfolding first_nodes
port22 = record {
  nodes = some 22 ∷ [];
  at = record {
    component = host_port;
    switch = 12;
    composite = host;
    there = refl;
    owner = refl;
    switch_there = refl;
    first = refl;
    nodes = (refl, tt);
  };
  not_cable = refl;
  tabled = λ s ether owner. ground (arith, ether);
}

port23 : Port net 23
unfolding first_nodes
port23 = record {
  nodes = some 23 ∷ [];
  at = record {
    component = switch_port;
    switch = 13;
    composite = ether_switch;
    there = refl;
    owner = refl;
    switch_there = refl;
    first = refl;
    nodes = (refl, tt);
  };
  not_cable = refl;
  tabled = λ s ether owner. ground (arith, owner);
}

line30 : Line example_env net 30
unfolding example_env
line30 = record { out = 22; leads = refl; exact = refl; cable = refl; port = port22 }

line31 : Line example_env net 31
unfolding example_env
line31 = record { out = 20; leads = refl; exact = refl; cable = refl; port = port20 }

net_works : (p : Ptr) → is_there (components p) ≡ true → Port net p ⊎ Line example_env net p
net_works p h = elim (Bool-cases (p == 20)) [
  | inl y ↦ inl (subst (Port net) (ground arith) port20)
  | inr n20 ↦ elim (Bool-cases (p == 21)) [
    | inl y ↦ inl (subst (Port net) (ground arith) port21)
    | inr n21 ↦ elim (Bool-cases (p == 22)) [
      | inl y ↦ inl (subst (Port net) (ground arith) port22)
      | inr n22 ↦ elim (Bool-cases (p == 23)) [
        | inl y ↦ inl (subst (Port net) (ground arith) port23)
        | inr n23 ↦ elim (Bool-cases (p == 30)) [
          | inl y ↦ inr (subst (Line example_env net) (ground arith) line30)
          | inr n30 ↦ inr (subst (Line example_env net) (ground arith) line31)
        ]
      ]
    ]
  ]
]

attached : Attached net 5
attached = record {
  ni = 50;
  interface = record { fd = 5; port = 22; type = NodeType.virtual_port };
  listed = refl;
  there = refl;
  port = port22;
}

net-Safe : Safe example_env net
net-Safe = record {
  sane = record {
    owned = net-Owned;
    sound = net-Sound;
    tables = net-Tables;
    waiting = λ a h. ground arith;
    works = net_works;
    listed = λ p h. ground arith;
    polled = λ fd h n. subst (Attached net) (ground arith) attached;
  };
  kept = λ p h. ground (arith, h.allocated, h.unqueued 20, h.untimed);
}

at_start : (a : ℕ) → aligned_start (a * 65536) ≡ 0
at_start a = omega arith

fits :
    (a : Ptr)
    → (fits_buffer (aligned_start (a * 65536)) (1 ∷ 2 ∷ 3 ∷ []) ≡ true)
      × (can_copy (read_packet (aligned_start (a * 65536)) (1 ∷ 2 ∷ 3 ∷ [])) ≡ true)
fits a = rw (at_start a) (refl, refl)

receive-Stays_example :
    Ends (λ _ u. Stays example_env net u) (receive example_env 5 (some (1 ∷ 2 ∷ 3 ∷ [])) net)
unfolding example_env
receive-Stays_example =
    receive-Stays example_env example_env-FifoLaws (λ a. refl) net net-Safe 5 refl
      (λ h. ground (arith, h)) (1 ∷ 2 ∷ 3 ∷ []) (fits 100).0

-- The hub is switched.
switching-Turned_example :
    Ends
      (λ r u. (r ≡ done) × Turned example_env net true (composite 10) u)
      (cmd_activate example_env (codes "on" ∷ codes "h0" ∷ []) net)
    × Ends
        (λ r u. (r ≡ done) × Turned example_env net false (composite 10) u)
        (cmd_deactivate example_env (codes "on" ∷ codes "h0" ∷ []) net)
    × Ends
        (λ r u. (r ≡ true) × Turned example_env net true (composite 10) u)
        (on_handler example_env (codes "h0") net)
    × Ends
        (λ r u. (r ≡ true) × Turned example_env net false (composite 10) u)
        (off_handler example_env (codes "h0") net)
switching-Turned_example =
    switching-Turned example_env net net-Safe example_env-MapLaws 104 (48 ∷ [])
      ((λ h. ground (arith, h)), ((λ h. ground (arith, h)), tt)) 10 refl refl refl (codes "on")
