-- ===== src/Cable.antt =====
-- src/cable.c: the attributes of a cable, its creation, and the way of a packet through it.
pub mod Arguments
pub mod Create
pub mod Forward
use netemul.Base.{
  leb, ℕ, ◌+◌, ◌-◌, ◌*◌, ◌%◌, ◌^◌, Bool, true, false, ◌&&◌, ◌||◌, Option, none, some, List, [], ◌∷◌,
  if◌then◌else◌, ltb, ◌==◌, codes, same, ◌++◌,
}
use Prim.Native.Nat.{bit_xor}
use netemul.Node.{NodeType, Ptr, Name, cable_forward, cable_set}
use netemul.Env.{Env}
use netemul.World.{CableState, Packet}
use netemul.World.Run.{
  Cmd, pure, ◌>>=◌, ◌>>◌, fails, fault, ok, deref, modify, load, load_packet, store, store_packet,
  update, free_packet, malloc, read_clock,
}
use netemul.Component.{zeroed, inherit, destroy_component}

-- The words that `set` compares an argument with.
abbrev pub is_attribute : Name → Bool
is_attribute k =
    same k (codes "band:")
    || same k (codes "error:")
    || same k (codes "drop:")
    || same k (codes "latency:")
    || same k (codes "jitter:")

-- A double, if `strtod` leaves nothing of its text.
abbrev double : Env → Name → Option ℕ
double e v = let (d, rest) = e.strtod v in elim rest [ [] ↦ some d | c ∷ cs ↦ none ]

-- A number of 64 bits, if the text is one.
abbrev uint64 : Env → Name → Option ℕ
uint64 e v = if e.is_uint64 v then some (e.parse_uint64 v) else none

abbrev map_option : {A B : Type 0} → (A → B) → Option A → Option B
map_option f none = none
map_option f (some a) = some (f a)

-- One round of the loop of `set`: the value is refused with `none`.
unfoldable pub assign : Env → Name → Name → CableState → Option CableState
assign e k v s =
    if same k (codes "band:")
    then map_option (λ n. record s { bandwidth = n }) (uint64 e v)
    else if same k (codes "error:")
    then map_option (λ d. record s { error_rate = d }) (double e v)
    else if same k (codes "drop:")
    then map_option (λ d. record s { drop_rate = d }) (double e v)
    else if same k (codes "latency:")
    then map_option (λ n. record s { latency = n }) (uint64 e v)
    else map_option (λ n. record s { jitter = n }) (uint64 e v)

-- A word that is no attribute and a value that is refused end the loop.
abbrev pub attempt :
    Bool
    → Option CableState
    → CableState
    → (CableState → Option (Bool × CableState))
    → Option (Bool × CableState)
attempt false o s f = some (false, s)
attempt true none s f = some (false, s)
attempt true (some s') s f = f s'

-- The loop of `set` over `argv`: its result and what it has written by then. `none` is a read
-- past the last argument.
unfoldable pub set_args : Env → List Name → CableState → Option (Bool × CableState)
unfolding assign
set_args e [] s = some (true, s)
set_args e (k ∷ []) s = if is_attribute k then none else some (false, s)
set_args e (k ∷ v ∷ rest) s = attempt (is_attribute k) (assign e k v s) s λ s'. set_args e rest s'

-- `set` of a cable
unfoldable pub set_cable : Env → Ptr → List Name → Cmd Bool
unfolding load store set_args
set_cable e this argv = do
  c ← load this
  elim (set_args e argv c.cable) [
    | none ↦ fails
    | some (done, s) ↦ (do store this (record c { cable = s }); pure done)
  ]

-- `endian16(ip->length)` and `ip->ihl` of the IP header behind the Ethernet header at an offset.
abbrev ether_len : ℕ
ether_len = 14

abbrev ip_length : Packet → ℕ → ℕ
ip_length p at = p.buffer (at + ether_len + 2) * 256 + p.buffer (at + ether_len + 3)

abbrev ip_ihl : Packet → ℕ → ℕ
ip_ihl p at = p.buffer (at + ether_len) % 16

-- The error of a packet: one bit of its IP body flips, at an index that a reading chooses. The
-- remainder by an empty body is undefined, and so is a byte behind the packet's block, which the
-- length that the packet says of itself can lead to.
unfoldable pub flip_bit : ℕ → Packet → Cmd Packet
flip_bit reading p w =
    let body_size = (ip_length p p.start + 2 ^ 16 - ip_ihl p p.start * 4) % 2 ^ 16 in
    if body_size == 0
    then fault
    else let index = reading % body_size in
      let at = p.start + ether_len + ip_ihl p p.start * 4 + index in
      let flipped = bit_xor (2 ^ (index % 8)) (p.buffer at) in
      if leb p.capacity at
      then fault
      else ok (record p { buffer = λ i. if i == at then flipped else p.buffer i }) w

module _ (e : Env) where
  -- `timer_frequency() % 100 <= rate`, for a rate that is not zero
  unfoldable pub strikes : ℕ → Cmd Bool
  unfolding read_clock
  strikes rate =
      if e.double_nonzero rate
      then (do t ← read_clock e.timer_frequency; pure (e.le_double (t % 100) rate))
      else pure false

  -- The error rate
  unfoldable pub spoil : Ptr → CableState → Cmd (Unit {0})
  unfolding strikes read_clock load_packet store_packet flip_bit
  spoil packet s = do
    hit ← strikes s.error_rate
    if hit
        then (do
          p ← load_packet packet
          t ← read_clock e.timer_frequency
          p' ← flip_bit t p
          store_packet packet p')
        else pure tt

  -- The delay of a packet, in micro-seconds.
  unfoldable pub delay_of : CableState → Cmd ℕ
  unfolding read_clock
  delay_of s =
      if s.jitter == 0
      then pure (e.round_double s.latency)
      else read_clock (λ t. e.noise t s.latency s.jitter)

  -- `_packet_forward`: the timer of a delayed packet fires. `next` calls a component's method.
  unfoldable pub deliver : (Ptr → Ptr → Cmd (Unit {0})) → Ptr → Ptr → Cmd (Unit {0})
  unfolding load
  deliver next this packet = do c ← load this; out ← deref c.output; next out packet

  -- Latency and jitter: the packet goes on at once or waits for a timer.
  unfoldable pub delay_packet : (Ptr → Ptr → Cmd (Unit {0})) → Ptr → Ptr → Cmd (Unit {0})
  unfolding load malloc delay_of deliver
  delay_packet next this packet = do
    c ← load this
    if (c.cable.latency == 0) && (c.cable.jitter == 0) then deliver next this packet else (do
      context ← malloc e
      deref context
      delay ← delay_of c.cable
      modify λ w. record w {
        timers = w.timers ++ record { cable = this; packet = packet; delay = delay } ∷ [];
      })

  -- The bandwidth: is the cable busy longer than the grace allows? The difference wraps.
  abbrev pub overrun : CableState → ℕ → Bool
  overrun s time = ltb time ((s.output_closed + (2 ^ 64 - 1000)) % 2 ^ 64)

  -- When the cable will be free after this packet.
  abbrev pub closed_after : CableState → ℕ → ℕ → ℕ
  closed_after s time size =
      e.add_wire_time (if ltb time s.output_closed then s.output_closed else time) s.bandwidth size

  -- `packet_forward` of a cable
  unfoldable pub forward_cable : (Ptr → Ptr → Cmd (Unit {0})) → Ptr → Ptr → Cmd (Unit {0})
  unfolding load load_packet update strikes spoil delay_packet read_clock free_packet
  forward_cable next this packet = do
    time ← read_clock e.clock
    c ← load this
    if overrun c.cable time then free_packet packet else (do
      p ← load_packet packet
      let closed = closed_after c.cable time (ether_len + ip_length p 0)
      update this (λ d. record d { cable = record (d.cable) { output_closed = closed } })
      spoil packet c.cable
      dropped ← strikes c.cable.drop_rate
      if dropped then free_packet packet else delay_packet next this packet)

  -- `cable_create`; the drop rate of the call is not stored.
  unfoldable pub cable_create :
      (bandwidth error_rate drop_rate jitter latency : ℕ) → Cmd (Option Ptr)
  unfolding malloc store inherit read_clock update destroy_component
  cable_create bandwidth error_rate drop_rate jitter latency = do
    m ← malloc e
    elim m [
      | none ↦ pure none
      | some this ↦ (do
        store this (record zeroed { type = NodeType.cable })
        inherited ← inherit e this
        if inherited
            then (do
              time ← read_clock e.clock
              update this λ c. record c {
                cable = record (c.cable) {
                  output_closed = time;
                  bandwidth = bandwidth;
                  error_rate = error_rate;
                  jitter = jitter;
                  latency = latency;
                };
                set = cable_set;
                packet_forward = cable_forward;
              }
              pure (some this))
            else (do destroy_component this; pure none))
    ]
