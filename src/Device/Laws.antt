-- ===== src/Device/Laws.antt =====
-- What src/ni.c relies on of the kernel: the descriptors that are open, and the flags of the
-- interfaces, as the manual pages of these calls describe them.
use netemul.Base.{ℕ, false, Option, none, some, List, ◌∷◌, ◌≡◌, same}
use netemul.Node.{Name}
use netemul.Env.Laws.{erase}
use netemul.Device.{Bits, Family, Kernel}

-- What can be seen of the kernel's state
pub record View (K : Type 0) : Type 0 where
  pub opened : K → List ℕ
  pub flags : K → Name → Bits

-- The descriptor that a call gives is open, and new at the front.
abbrev pub with_fd : Option ℕ → List ℕ → List ℕ
with_fd none fds = fds
with_fd (some fd) fds = fd ∷ fds

module _ {K : Type 0} (v : View K) where
  -- Nothing that can be seen has changed.
  abbrev pub Unchanged : K → K → Type 0
  Unchanged s t = (v.opened t ≡ v.opened s) × (v.flags t ≡ v.flags s)

  abbrev pub Opens : K → Option ℕ × K → Type 0
  Opens s (fd, t) = (v.opened t ≡ with_fd fd (v.opened s)) × (v.flags t ≡ v.flags s)

  -- The flags that are read are those of the interface.
  abbrev pub Reads : Name → K → Option (ℕ × Bits) → Type 0
  Reads name s none = Unit
  Reads name s (some (err, b)) = b ≡ v.flags s name

  -- The flags of this interface are written, or nothing changes.
  abbrev pub Writes : Name → Bits → K → Option ℕ × K → Type 0
  Writes name b s (none, t) = Unchanged s t
  Writes name b s (some err, t) =
      (v.opened t ≡ v.opened s)
      × (v.flags t name ≡ b)
      × ((n : Name) → same n name ≡ false → v.flags t n ≡ v.flags s n)

pub record KernelLaws {K : Type 0} (k : Kernel K) (v : View K) : Type 0 where
  pub socket_lem : (f : Family) (s : K) → Opens v s (k.socket f s)
  pub raw_socket_lem : (s : K) → Opens v s (k.raw_socket s)
  pub open_tun_lem : (s : K) → Opens v s (k.open_tun s)
  pub close_opened : (fd : ℕ) (s : K) → v.opened (k.close fd s) ≡ erase fd (v.opened s)
  pub close_flags : (fd : ℕ) (s : K) → v.flags (k.close fd s) ≡ v.flags s
  pub get_unchanged : (fd : ℕ) (name : Name) (s : K) → Unchanged v s (k.get_flags fd name s).1
  pub get_reads : (fd : ℕ) (name : Name) (s : K) → Reads v name s (k.get_flags fd name s).0
  pub set_writes :
      (fd : ℕ) (name : Name) (b : Bits) (s : K) → Writes v name b s (k.set_flags fd name b s)
  pub tun_opened :
      (fd : ℕ) (name : Name) (b : Bits) (s : K) → v.opened (k.set_tun fd name b s).1 ≡ v.opened s
  pub reuse_opened : (fd : ℕ) (s : K) → v.opened (k.set_reuse fd s).1 ≡ v.opened s
  pub bind_opened :
      (fd : ℕ) (name : Name) (s : K) → v.opened (k.bind_device fd name s).1 ≡ v.opened s
  pub malloc_opened : (s : K) → v.opened (k.malloc_ok s).1 ≡ v.opened s
