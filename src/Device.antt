-- ===== src/Device.antt =====
-- The devices behind the interfaces of src/ni.c: `do_chflags`, `raw_create` and `tap_create`. What
-- they ask of the kernel is a parameter; so is the kernel's state.
pub mod Laws
pub mod Flags
pub mod Open
use netemul.Base.{
  ℕ, zero, suc, ◌+◌, Bool, true, false, ◌&&◌, ◌||◌, not, Option, none, some, if◌then◌else◌, length,
  take, ltb, ◌==◌,
}
use netemul.Node.{Name}

-- The bits of a number by their places: `ifr_flags` has 16, its promotion to `int` 32.
abbrev pub Bits : Type 0
Bits = ℕ → Bool

abbrev pub short_bits : ℕ
short_bits = 16

abbrev pub int_bits : ℕ
int_bits = 32

abbrev pub ifnamsiz : ℕ
ifnamsiz = 16

pub data Family : Type 0 where
  inet packet inet6 : Family

-- The calls of the kernel, with `none` for the result -1. An `ioctl` that succeeds has a result too.
pub record Kernel (K : Type 0) : Type 0 where
  -- A datagram socket of a family, and the raw one of `raw_create`
  pub socket : Family → K → Option ℕ × K
  pub raw_socket : K → Option ℕ × K
  -- `open` of /dev/net/tun
  pub open_tun : K → Option ℕ × K
  pub close : ℕ → K → K
  -- `SIOCGIFFLAGS`, `SIOCSIFFLAGS`, and `TUNSETIFF`, which gives the interface's name
  pub get_flags : ℕ → Name → K → Option (ℕ × Bits) × K
  pub set_flags : ℕ → Name → Bits → K → Option ℕ × K
  pub set_tun : ℕ → Name → Bits → K → Option Name × K
  -- `SO_REUSEADDR` and `SO_BINDTODEVICE`
  pub set_reuse : ℕ → K → Option (Unit {0}) × K
  pub bind_device : ℕ → Name → K → Option (Unit {0}) × K
  pub malloc_ok : K → Bool × K
  pub iff_up : Bits
  -- What an `ifreq` that is not set holds.
  pub garbage : Bits

-- A call returns, reads a text past its end, or ends the process.
pub data Outcome (A K : Type 0) : Type 0 where
  returned : A → K → Outcome A K
  faults : Outcome A K
  exits : ℕ → K → Outcome A K

-- A bit of the promotion to `int`, which repeats the sign.
abbrev pub promoted : Bits → Bits
promoted b i = if ltb i short_bits then b i else b 15

abbrev pub differs : Bool → Bool → Bool
differs a b = (a && not b) || (not a && b)

-- Is one of the lowest bits of `(a ^ b) & mask` set?
unfoldable pub any_differs : ℕ → Bits → Bits → Bits → Bool
any_differs zero a b mask = false
any_differs (suc n) a b mask = (differs (a n) (b n) && mask n) || any_differs n a b mask

-- `(a & ~mask) | (mask & b)`
abbrev pub merged : Bits → Bits → Bits → Bits
merged a b mask i = if mask i then b i else a i

abbrev pub either_bits : Bits → Bits → Bits
either_bits a b i = a i || b i

module _ {K : Type 0} (k : Kernel K) where
  abbrev pub or_else : Option ℕ × K → (K → Option ℕ × K) → Option ℕ × K
  or_else (none, s) next = next s
  or_else (some fd, s) next = (some fd, s)

  -- `get_ctl_fd`
  abbrev pub get_ctl_fd : K → Option ℕ × K
  get_ctl_fd s = or_else (k.socket inet s) λ s. or_else (k.socket packet s) λ s. k.socket inet6 s

  abbrev pub closed : ℕ → Option ℕ × K → Option ℕ × K
  closed fd (err, s) = (err, k.close fd s)

  abbrev pub change_flags : Name → Bits → Bits → ℕ → Option (ℕ × Bits) × K → Option ℕ × K
  change_flags dev flags mask fd (none, s) = (none, k.close fd s)
  change_flags dev flags mask fd (some (err, old), s) =
      if any_differs int_bits (promoted old) flags mask
      then closed fd (k.set_flags fd dev (merged old flags mask) s)
      else (some err, k.close fd s)

  abbrev pub with_control : Name → Bits → Bits → Option ℕ × K → Option ℕ × K
  with_control dev flags mask (none, s) = (none, s)
  with_control dev flags mask (some fd, s) = change_flags dev flags mask fd (k.get_flags fd dev s)

  -- `do_chflags`: the name is cut to the bytes that `ifr_name` has.
  unfoldable pub do_chflags : Name → Bits → Bits → K → Option ℕ × K
  unfolding any_differs
  do_chflags dev flags mask s = with_control (take ifnamsiz dev) flags mask (get_ctl_fd s)

  -- The interface is set up, or the process ends.
  abbrev pub up_or_exit : ℕ → Option ℕ × K → Outcome (Option ℕ) K
  up_or_exit fd (none, s) = exits 1 s
  up_or_exit fd (some err, s) = returned (some fd) s

  abbrev pub bring_up : ℕ → Name → K → Outcome (Option ℕ) K
  bring_up fd name s = up_or_exit fd (do_chflags name k.iff_up k.iff_up s)

  -- A call with the descriptor -1 fails and does nothing.
  abbrev pub on : {A : Type 0} → Option ℕ → (ℕ → K → Option A × K) → K → Option A × K
  on none call s = (none, s)
  on (some fd) call s = call fd s

  abbrev pub bits_of : Option (ℕ × Bits) → Bits
  bits_of none = k.garbage
  bits_of (some (err, b)) = b

  abbrev pub bound : Option ℕ → Name → Option (Unit {0}) × K → Outcome (Option ℕ) K
  bound fd name (none, s) = returned none s
  bound none name (some _, s) = returned none s
  bound (some fd) name (some _, s) = bring_up fd name s

  abbrev pub reused : Option ℕ → Name → Option (Unit {0}) × K → Outcome (Option ℕ) K
  reused fd name (none, s) = returned none s
  reused fd name (some _, s) = bound fd name (on fd (λ fd. k.bind_device fd name) s)

  -- The flags of the device are read and written without a test.
  abbrev pub add_flags : Option ℕ → Name → Bits → K → K
  add_flags fd name flags s =
      let (old, t) = on fd (λ fd. k.get_flags fd name) s in
      (on fd (λ fd. k.set_flags fd name (either_bits (bits_of old) flags)) t).1

  abbrev pub raw_context : Option ℕ → Name → Bits → Bool × K → Outcome (Option ℕ) K
  raw_context fd name flags (false, s) = returned none s
  raw_context fd name flags (true, s) =
      reused fd name (on fd k.set_reuse (add_flags fd name flags s))

  -- The descriptor is compared with 1 for an error.
  abbrev pub raw_opened : Name → Bits → Option ℕ × K → Outcome (Option ℕ) K
  raw_opened name flags (none, s) = raw_context none name flags (k.malloc_ok s)
  raw_opened name flags (some fd, s) =
      if fd == 1 then returned none s else raw_context (some fd) name flags (k.malloc_ok s)

  -- `raw_create`: a context is its descriptor. Behind a name of 15 bytes a byte is not set.
  unfoldable pub raw_create : Name → Bits → K → Outcome (Option ℕ) K
  unfolding do_chflags
  raw_create name flags s =
      if ltb (length name + 1) ifnamsiz then raw_opened name flags (k.raw_socket s) else faults

  abbrev pub tap_context : ℕ → Name → Bool × K → Outcome (Option ℕ) K
  tap_context fd name (false, s) = returned none s
  tap_context fd name (true, s) = bring_up fd name s

  abbrev pub tap_named : ℕ → Option Name × K → Outcome (Option ℕ) K
  tap_named fd (none, s) = exits 1 (k.close fd s)
  tap_named fd (some name, s) = tap_context fd name (k.malloc_ok s)

  abbrev pub tap_opened : Name → Bits → Option ℕ × K → Outcome (Option ℕ) K
  tap_opened name flags (none, s) = exits 1 s
  tap_opened name flags (some fd, s) = tap_named fd (k.set_tun fd name flags s)

  -- `tap_create`; a name of 16 bytes is copied without its end.
  unfoldable pub tap_create : Name → Bits → K → Outcome (Option ℕ) K
  unfolding do_chflags
  tap_create name flags s =
      if ltb (length name) ifnamsiz then tap_opened name flags (k.open_tun s) else faults
