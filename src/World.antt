-- ===== src/World.antt =====
-- The state of the program: the objects that the source allocates, at their addresses, and the
-- global `Manager` of include/manager.h. Addresses are never used twice, so a pointer to a freed
-- object is one where the store holds nothing.
pub mod Run
pub mod Ends
use netemul.Base.{ℕ, Bool, List, Option}
use netemul.Node.{NodeType, ForwardMethod, DestroyMethod, SetMethod, Ptr, Name}
use netemul.Env.{Fifo, Cache, NameMap}

-- The fields that `Cable` adds to a component. A double stands as its bits.
pub record CableState : Type 0 where
  pub bandwidth : ℕ
  pub output_closed : ℕ
  pub error_rate : ℕ
  pub drop_rate : ℕ
  pub jitter : ℕ
  pub latency : ℕ

-- The fields that `VirtualPort` and `PhysicalPort` add to a component. What `realloc` leaves
-- unset reads as `none` and zero.
pub record PortState : Type 0 where
  pub ni : Option Ptr
  pub fd : ℕ
  pub wfd : ℕ
  pub sll_addr : List ℕ
  pub ifname : Name

-- `Component`, with the fields of its subclasses. `input` and `output` are `in` and `out`.
pub record Component : Type 0 where
  pub type : NodeType
  pub name : Name
  pub is_active : Bool
  pub destroy : DestroyMethod
  pub set : SetMethod
  pub owner : Option Ptr
  pub input : Option Ptr
  pub output : Option Ptr
  pub packet_forward : ForwardMethod
  pub queue : Option Fifo
  pub cable : CableState
  pub port : PortState

-- `Composite`, with the `table` of `EtherSwitch`. An array that is not allocated is empty.
pub record Composite : Type 0 where
  pub type : NodeType
  pub name : Name
  pub is_active : Bool
  pub destroy : DestroyMethod
  pub set : SetMethod
  pub node_count : ℕ
  pub nodes : List (Option Ptr)
  pub table : Option Cache

-- `Packet` of net/packet.h; the buffer is its bytes by offset, and `capacity` is how many bytes are
-- allocated from `buffer` on.
pub record Packet : Type 0 where
  pub start : ℕ
  pub end : ℕ
  pub size : ℕ
  pub capacity : ℕ
  pub buffer : ℕ → ℕ

-- `NI` with its context.
pub record Ni : Type 0 where
  pub fd : ℕ
  pub port : Ptr
  pub type : NodeType

pub record Manager : Type 0 where
  pub nis : ℕ → Option Ptr
  pub nodes : NameMap
  pub components : List Ptr
  pub fds : List ℕ
  pub fd_count : ℕ
  pub nfds : ℕ
  pub read_fds : List ℕ

-- A one-shot timer of `event_timer_add`: the cable and the packet of its context, and its delay.
pub record Timer : Type 0 where
  pub cable : Ptr
  pub packet : Ptr
  pub delay : ℕ

pub record World : Type 0 where
  pub component : Ptr → Option Component
  pub composite : Ptr → Option Composite
  pub packet : Ptr → Option Packet
  pub ni : Ptr → Option Ni
  pub next : Ptr
  pub manager : Manager
  pub timers : List Timer
  -- How often a clock was read.
  pub readings : ℕ
  -- What was written to a descriptor, the latest first: the descriptor, and the bytes.
  pub sent : List (ℕ × List ℕ)
