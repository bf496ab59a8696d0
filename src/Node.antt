-- ===== src/Node.antt =====
-- include/node.h: the kinds of nodes, and the methods that the source keeps in function pointers.
-- The constructors of `NodeType` have the numbers of the C enumeration, by `type_code`.
use netemul.Base.{ℕ, Bool, List, leb, ◌==◌}

pub data NodeType : Type 0 where
  none port physical_port virtual_port cable : NodeType
  physical host link hub_switch ether_switch router : NodeType

abbrev pub type_code : NodeType → ℕ
type_code none = 0
type_code port = 1
type_code physical_port = 2
type_code virtual_port = 3
type_code cable = 4
type_code physical = 100
type_code host = 101
type_code link = 102
type_code hub_switch = 103
type_code ether_switch = 104
type_code router = 105

abbrev pub composite_type : ℕ
composite_type = 100

-- `is_composite` of include/composite.h reads the type's number.
abbrev pub is_composite : NodeType → Bool
is_composite t = leb composite_type (type_code t)

-- `node->type == type` compares the numbers.
abbrev pub same_type : NodeType → NodeType → Bool
same_type a b = type_code a == type_code b

-- The functions that `packet_forward` may point to.
pub data ForwardMethod : Type 0 where
  component_forward hub_send ether_switch_send : ForwardMethod
  virtual_forward physical_forward cable_forward : ForwardMethod

-- The functions that `destroy` may point to.
pub data DestroyMethod : Type 0 where
  component_destroy virtual_port_destroy composite_destroy ether_switch_destroy : DestroyMethod

-- The functions that `set` may point to.
pub data SetMethod : Type 0 where
  component_set cable_set composite_set link_set : SetMethod

-- An address of the store, and the bytes of a C string without its terminator.
abbrev pub Ptr : Type 0
Ptr = ℕ

abbrev pub Name : Type 0
Name = List ℕ

abbrev pub max_name_len : ℕ
max_name_len = 8

abbrev pub max_component_count : ℕ
max_component_count = 64

abbrev pub max_node_count : ℕ
max_node_count = 2048

abbrev pub packet_queue_size : ℕ
packet_queue_size = 2048

abbrev pub mac_table_size : ℕ
mac_table_size = 32

abbrev pub default_host_port_count : ℕ
default_host_port_count = 4

abbrev pub default_switch_port_count : ℕ
default_switch_port_count = 16
