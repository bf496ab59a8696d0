-- ===== src/Env.antt =====
-- The code that the program calls and that is not in the repository: the containers of
-- sdk/util/*.h (a binary library), the memory allocator, the number parsers, the kernel's devices
-- and clocks. Each is a field of `Env`. A container is represented by its documented contents.
pub mod Laws
pub mod Model
use netemul.Base.{ℕ, Bool, List, Option}
use netemul.Node.{Ptr, Name}

-- A FIFO of util/fifo.h: the size of its array, and its elements, the oldest first.
pub record Fifo : Type 0 where
  pub size : ℕ
  pub items : List Ptr

-- An entry of a switch's MAC filtering table, `MACTableEntity` of src/ether_switch.c.
pub record MacTableEntity : Type 0 where
  pub port : Ptr
  pub mac : ℕ
  pub age : ℕ
  pub timeout : ℕ

-- A cache of util/cache.h: its capacity, and its entries under their keys.
pub record Cache : Type 0 where
  pub capacity : ℕ
  pub entries : List (ℕ × MacTableEntity)

-- A map of util/map.h from names, in its iterator's order.
abbrev pub NameMap : Type 0
NameMap = List (Name × Ptr)

pub record Env : Type 0 where
  -- Does the allocation at this fresh address succeed?
  pub malloc_ok : Ptr → Bool
  -- Where the buffer of a packet is in memory.
  pub buffer_address : Ptr → ℕ
  -- `none` stands for the result `false` or `NULL`.
  pub fifo_create : ℕ → Option Fifo
  pub fifo_push : Fifo → Ptr → Option Fifo
  pub fifo_pop : Fifo → Option (Ptr × Fifo)
  pub list_create : Option (List ℕ)
  pub list_add : List ℕ → ℕ → Option (List ℕ)
  pub list_remove_data : List ℕ → ℕ → Option (List ℕ)
  pub map_create : ℕ → Option NameMap
  pub map_put : NameMap → Name → Ptr → Option NameMap
  pub map_get : NameMap → Name → Option Ptr
  pub map_remove : NameMap → Name → Option Ptr × NameMap
  pub cache_create : ℕ → Option Cache
  pub cache_get : Cache → ℕ → Option MacTableEntity × Cache
  pub cache_set : Cache → ℕ → MacTableEntity → Option Cache
  pub cache_remove : Cache → ℕ → Option Cache
  -- util/types.h
  pub is_uint8 : Name → Bool
  pub parse_uint8 : Name → ℕ
  pub is_uint32 : Name → Bool
  pub parse_uint32 : Name → ℕ
  pub is_uint64 : Name → Bool
  pub parse_uint64 : Name → ℕ
  -- `strtod`: the bits of the double, and what is left of the text.
  pub strtod : Name → ℕ × Name
  -- `d != 0` of a double, and `n <= d` for an integer `n`.
  pub double_nonzero : ℕ → Bool
  pub le_double : ℕ → ℕ → Bool
  -- `base + (long double)1000000 * 8 / bandwidth * size`, converted to `uint64_t`.
  pub add_wire_time : (base bandwidth size : ℕ) → ℕ
  -- `generateGaussianNoise(latency, jitter)` at a reading, as a delay: 0 if it is not positive.
  pub noise : (reading latency jitter : ℕ) → ℕ
  -- A number of 64 bits converted to a double and back.
  pub round_double : ℕ → ℕ
  -- The readings of the clocks, by the number of readings so far: micro-seconds of
  -- `clock_gettime`, `timer_frequency()` and `timer_ms()`.
  pub clock : ℕ → ℕ
  pub timer_frequency : ℕ → ℕ
  pub timer_ms : ℕ → ℕ
  -- The descriptor that `tap_create`, `raw_create` and `physical_send_port_create` get from the
  -- kernel for a name; the number tells one call from another.
  pub tap_create : ℕ → Name → Option ℕ
  pub raw_create : ℕ → Name → Option ℕ
  pub send_socket : ℕ → Name → Option ℕ
