-- ===== src/Tests/Devices.antt =====
-- The theorems on devices at a small kernel: descriptors that are counted up, and flags by name.
use netemul.Base.{
  ℕ, suc, ◌≡◌, refl, true, false, Option, some, List, [], ◌∷◌, arith, codes, same, ◌==◌,
  if◌then◌else◌,
}
use netemul.Node.{Name}
use netemul.Env.Laws.{erase}
use netemul.Env.Model.{same_refl}
use netemul.Device.{Bits, Kernel, do_chflags, any_differs, raw_create, tap_create}
use netemul.Device.Laws.{View, KernelLaws}
use netemul.Device.Flags.{Changed, do_chflags-Changed}
use netemul.Device.Open.{Created, create-Created}

record State : Type 0 where
  fds : List ℕ
  next : ℕ
  flags : Name → Bits

abbrev fresh : State → Option ℕ × State
fresh s = (some s.next, record s { fds = s.next ∷ s.fds; next = suc s.next })

abbrev with_flags : Name → Bits → State → State
with_flags name b s = record s { flags = λ n. if same n name then b else s.flags n }

abbrev kernel : Kernel State
kernel = record {
  socket = λ f s. fresh s;
  raw_socket = fresh;
  open_tun = fresh;
  close = λ fd s. record s { fds = erase fd s.fds };
  get_flags = λ fd name s. (some (0, s.flags name), s);
  set_flags = λ fd name b s. (some 0, with_flags name b s);
  set_tun = λ fd name b s. (some name, s);
  set_reuse = λ fd s. (some tt, s);
  bind_device = λ fd name s. (some tt, s);
  malloc_ok = λ s. (true, s);
  iff_up = λ i. i == 0;
  garbage = λ i. false;
}

abbrev view : View State
view = record { opened = λ s. s.fds; flags = λ s. s.flags }

kernel-KernelLaws : KernelLaws kernel view
kernel-KernelLaws = record {
  socket_lem = λ f s. (refl, refl);
  raw_socket_lem = λ s. (refl, refl);
  open_tun_lem = λ s. (refl, refl);
  close_opened = λ fd s. refl;
  close_flags = λ fd s. refl;
  get_unchanged = λ fd name s. (refl, refl);
  get_reads = λ fd name s. refl;
  set_writes = λ fd name b s. (refl, rw (same_refl name) refl, λ n h. rw h refl);
  tun_opened = λ fd name b s. refl;
  reuse_opened = λ fd s. refl;
  bind_opened = λ fd name s. refl;
  malloc_opened = λ s. refl;
}

-- Two descriptors are open, and no interface is up.
abbrev quiet : State
quiet = record { fds = 5 ∷ 0 ∷ []; next = 6; flags = λ n i. false }

abbrev up : Bits
up i = i == 0

do_chflags-Changed_example :
    Changed kernel view kernel-KernelLaws
      (codes "eth0")
      up
      up
      quiet
      (do_chflags kernel (codes "eth0") up up quiet)
do_chflags-Changed_example =
    do_chflags-Changed kernel view kernel-KernelLaws (codes "eth0") up up quiet

-- The interface is up, and its other flags are not set.
flags_set : (do_chflags kernel (codes "eth0") up up quiet).1.flags (codes "eth0") 0 ≡ true
unfolding do_chflags any_differs
flags_set = refl

create-Created_example :
    Created kernel view kernel-KernelLaws quiet
      (some 6)
      (raw_create kernel (codes "eth0") (λ i. i == 8) quiet)
    × Created kernel view kernel-KernelLaws quiet
        (some 6)
        (tap_create kernel (codes "eth0") (λ i. i == 8) quiet)
create-Created_example =
    create-Created kernel view kernel-KernelLaws quiet (codes "eth0") (λ i. i == 8) (omega arith)
