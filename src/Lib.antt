-- ===== src/Lib.antt =====
-- The network emulator: virtual hosts, hubs, switches and links on one machine, and the packets
-- that run between them.
--
-- A node is a component (a port, a cable) or a composite (a host, a physical device, a hub, a
-- switch, a link) with its components. Links wire components by their `in` and `out` pointers.
-- Packets come in by the interface behind a port, wait in the queue of the component that the port
-- leads to, and are sent on, one for each round of the event loop, by the method of the component
-- that holds them. Commands and remote calls create, destroy, switch and set nodes by name, through
-- the manager's registry.
--
-- The files and what they model:
--   Node         include/node.h: kinds of nodes, methods kept in function pointers
--   World        the allocated objects at their addresses, and `Manager` of include/manager.h
--   World/Run    commands on this state: a result, a fault, or the end of the process
--   Env          what the sources call and the repository does not hold
--   Component    src/component.c, `packet_forward` of the ports, `network_process` of src/network.c
--   Cable        src/cable.c
--   Port         src/port.c, src/virtual_port.c, src/physical_port.c (creation)
--   Manager      src/manager.c: registry, lookup by name, polled descriptors
--   Device       `raw_create`, `tap_create` and `do_chflags` of src/ni.c, over a kernel
--   Interface    src/ni.c, `port_attach` and `port_detach` of src/manager.c
--   Composite    src/composite.c, and `ether_switch_destroy` of src/ether_switch.c
--   Switch       src/switch.c, src/hub_switch.c (sending)
--   EtherSwitch  src/ether_switch.c: the MAC filtering table and the routing by it
--   Endpoint     src/host.c, src/physical.c, src/endpoint.c, and the creation of switches
--   Link         src/link.c
--   Network      `network_control` of src/network.c, and the call of a component's method
--   Ownership    where packets are: queues, timers, and functions that hold them
--   Input        src/input.c: packets and commands that the descriptors have
--   Events       the loop of src/main.c over any sequence of events
--   Start        src/main.c up to the loop, and `manager_init` of src/manager.c
--   Tree         src/tree.c: the tree of nodes behind the command `tree`
--   Sketch       src/sketch.c: the tree's nodes on a canvas
--   Command      src/command.c: the commands that change the network
--   Command/Script  `command_process` of src/command.c: scripts and the terminal, by lines
--   Rpc          src/rpc_manager.c: the handlers that change the network
--   Listing      `list` of src/command.c
--   Topology     `tree` of src/command.c, in both versions, and of src/rpc_manager.c
-- Functions have the source's names where these are one of a kind; the static functions that many
-- files call `destroy`, `set` or `packet_forward` have their object's name behind.
--
-- An object is an entry of the store at its address. Addresses are not used twice, so a dangling
-- pointer leads to nothing and its use is a fault, as is any other undefined behaviour that the
-- model detects. The containers, parsers, clocks, doubles, the allocator and the kernel are the
-- fields of `Env`; theorems that rely on the containers take their documented behaviour from
-- Env/Laws as a hypothesis, and Env/Model shows that it can be met.
--
-- A packet's block has a size: a copy that `packet_dup` would write past its block is a fault, and so
-- is a flipped bit behind it. Theorems that exclude this say that packets can be copied.
--
-- Bounds: lists and arrays are walked structurally, and a count past an array's end is a fault.
-- The call of a method takes fuel, as a cable calls the method of what it leads to: two are enough
-- where no cable leads to a cable, and `network_control` gives two. A search of the tree, its sketch
-- and its destruction have enough with the addresses in use, as a node is younger than its parent.
-- Following the links has enough with one more than there are links, as each call takes one. The
-- loop over a script's reads has enough with one more round than the script has bytes. The loop over
-- the polled descriptors takes the number of its rounds. The loop that looks for a free name has the
-- source's own bound, `MAX_NODE_COUNT`.
--
-- Not modelled: what only prints (`get`, the remote list, and the text of the tree's sketch),
-- `select` and `read` of the kernel, the parsing of a command line by `cmd_exec` of sdk/util/cmd.h,
-- the sockets of the remote calls, and the libraries under sdk. The flags and devices of Device and
-- the interfaces of Interface are joined by the type of a descriptor only. src/manager.c is taken as
-- the branch `origin/v2` of its unresolved merge has it.
pub mod Base
pub mod Node
pub mod Env
pub mod World
pub mod Component
pub mod Cable
pub mod Port
pub mod Manager
pub mod Input
pub mod Device
pub mod Interface
pub mod Composite
pub mod Ownership
pub mod Switch
pub mod EtherSwitch
pub mod Endpoint
pub mod Link
pub mod Network
pub mod Events
pub mod Tree
pub mod Sketch
pub mod Listing
pub mod Topology
pub mod Command
pub mod Rpc
pub mod Start
pub mod Tests
