-- ===== src/Device/Open.antt =====
-- `raw_create` and `tap_create` of src/ni.c.
use netemul.Base.{
  take, ℕ, ◌+◌, ◌<◌, ◌≡◌, refl, Bool, true, false, Option, none, some, ◌∷◌, arith, length, ltb, ◌∙◌,
  ◌==◌, Bool-cases, inl, inr,
}
use netemul.Node.{Name}
use netemul.Device.{
  Bits, Kernel, Outcome, returned, faults, exits, short_bits, ifnamsiz, do_chflags, up_or_exit,
  bring_up, on, bound, reused, add_flags, raw_context, raw_opened, raw_create, tap_context,
  tap_named, tap_opened, tap_create,
}
use netemul.Device.Laws.{View, KernelLaws, with_fd, Writes}
use netemul.Device.Flags.{Changed, do_chflags-Changed}

below_true : (m n : ℕ) → m < n → ltb m n ≡ true
below_true m n h = ground (arith, h)

module _ {K : Type 0} (k : Kernel K) (v : View K) (laws : KernelLaws k v) where
  -- The interface of this name is up.
  abbrev pub Up : Name → K → Type 0
  Up name t = (i : ℕ) → i < short_bits → k.iff_up i ≡ true → v.flags t name i ≡ true

  -- A call that opens a descriptor, or none, and how it ends.
  abbrev pub Created : K → Option ℕ → Outcome (Option ℕ) K → Type 0
  Created s fd (returned none t) = v.opened t ≡ with_fd fd (v.opened s)
  Created s fd (returned (some n) t) =
      (fd ≡ some n) × (v.opened t ≡ n ∷ v.opened s) × ((name : Name) × Up name t)
  Created s fd faults = ⊥
  Created s fd (exits n t) = n ≡ 1

  up_or_exit-Created :
      (s t : K) (fd : ℕ) (name : Name) (r : Option ℕ × K)
      → v.opened t ≡ fd ∷ v.opened s
      → Changed k v laws name k.iff_up k.iff_up t r
      → Created s (some fd) (up_or_exit k fd r)
  up_or_exit-Created s t fd name (none, u) o c = refl
  up_or_exit-Created s t fd name (some err, u) o (same, up, others) =
      (refl, same ∙ o, (name, λ i less y. up i less ∙ rw y refl))

  bring_up-Created :
      (s t : K) (fd : ℕ) (name : Name)
      → v.opened t ≡ fd ∷ v.opened s
      → Created s (some fd) (bring_up k fd name t)
  bring_up-Created s t fd name o =
      up_or_exit-Created s t fd (take ifnamsiz name) (do_chflags k name k.iff_up k.iff_up t) o
        (do_chflags-Changed k v laws name k.iff_up k.iff_up t)

  bound-Created :
      (s : K) (fd : Option ℕ) (name : Name) (r : Option (Unit {0}) × K)
      → v.opened r.1 ≡ with_fd fd (v.opened s)
      → Created s fd (bound k fd name r)
  bound-Created s fd name (none, t) o = o
  bound-Created s none name (some _, t) o = o
  bound-Created s (some fd) name (some _, t) o = bring_up-Created s t fd name o

  -- A call on a descriptor that opens and closes nothing
  on-opened :
      {A : Type 0}
      → (fd : Option ℕ) (call : ℕ → K → Option A × K)
      → ((fd : ℕ) (s : K) → v.opened (call fd s).1 ≡ v.opened s)
      → (s : K) → v.opened (on k fd call s).1 ≡ v.opened s
  on-opened none call h s = refl
  on-opened (some fd) call h s = h fd s

  reused-Created :
      (s : K) (fd : Option ℕ) (name : Name) (r : Option (Unit {0}) × K)
      → v.opened r.1 ≡ with_fd fd (v.opened s)
      → Created s fd (reused k fd name r)
  reused-Created s fd name (none, t) o = o
  reused-Created s fd name (some _, t) o =
      bound-Created s fd name (on k fd (λ fd. k.bind_device fd name) t)
        (on-opened fd (λ fd. k.bind_device fd name) (λ n u. laws.bind_opened n name u) t ∙ o)

  Writes-opened :
      (name : Name) (b : Bits) (s : K) (r : Option ℕ × K)
      → Writes v name b s r
      → v.opened r.1 ≡ v.opened s
  Writes-opened name b s (none, t) (o, f) = o
  Writes-opened name b s (some err, t) (o, f, g) = o

  write_opened :
      (fd : ℕ) (name : Name) (b : Bits) (s : K) → v.opened (k.set_flags fd name b s).1 ≡ v.opened s
  write_opened fd name b s =
      Writes-opened name b s (k.set_flags fd name b s) (laws.set_writes fd name b s)

  add_flags-opened :
      (fd : Option ℕ) (name : Name) (flags : Bits) (s : K)
      → v.opened (add_flags k fd name flags s) ≡ v.opened s
  add_flags-opened none name flags s = refl
  add_flags-opened (some fd) name flags s =
      write_opened fd name _ (k.get_flags fd name s).1 ∙ (laws.get_unchanged fd name s).0

  raw_context-Created :
      (s : K) (fd : Option ℕ) (name : Name) (flags : Bits) (r : Bool × K)
      → v.opened r.1 ≡ with_fd fd (v.opened s)
      → Created s fd (raw_context k fd name flags r)
  raw_context-Created s fd name flags (false, t) o = o
  raw_context-Created s fd name flags (true, t) o =
      reused-Created s fd name (on k fd k.set_reuse (add_flags k fd name flags t)) (
        on-opened fd k.set_reuse laws.reuse_opened (add_flags k fd name flags t)
        ∙ add_flags-opened fd name flags t
        ∙ o)

  raw_opened-Created :
      (s : K) (name : Name) (flags : Bits) (r : Option ℕ × K)
      → v.opened r.1 ≡ with_fd r.0 (v.opened s)
      → Created s r.0 (raw_opened k name flags r)
  raw_opened-Created s name flags (none, t) o =
      raw_context-Created s none name flags (k.malloc_ok t) (laws.malloc_opened t ∙ o)
  raw_opened-Created s name flags (some fd, t) o = elim (Bool-cases (fd == 1)) [
    | inl y ↦ rw y o
    | inr n ↦
        rw n (raw_context-Created s (some fd) name flags (k.malloc_ok t) (laws.malloc_opened t ∙ o))
  ]

  tap_context-Created :
      (s : K) (fd : ℕ) (name : Name) (r : Bool × K)
      → v.opened r.1 ≡ fd ∷ v.opened s
      → Created s (some fd) (tap_context k fd name r)
  tap_context-Created s fd name (false, t) o = o
  tap_context-Created s fd name (true, t) o = bring_up-Created s t fd name o

  tap_named-Created :
      (s : K) (fd : ℕ) (r : Option Name × K)
      → v.opened r.1 ≡ fd ∷ v.opened s
      → Created s (some fd) (tap_named k fd r)
  tap_named-Created s fd (none, t) o = refl
  tap_named-Created s fd (some name, t) o =
      tap_context-Created s fd name (k.malloc_ok t) (laws.malloc_opened t ∙ o)

  tap_opened-Created :
      (s : K) (name : Name) (flags : Bits) (r : Option ℕ × K)
      → v.opened r.1 ≡ with_fd r.0 (v.opened s)
      → Created s r.0 (tap_opened k name flags r)
  tap_opened-Created s name flags (none, t) o = refl
  tap_opened-Created s name flags (some fd, t) o =
      tap_named-Created s fd (k.set_tun fd name flags t) (laws.tun_opened fd name flags t ∙ o)

  -- Opening a raw or a tap device, by a name that fits: if a context is returned, its descriptor is
  -- the one that was opened, no other is open that was not before, and an interface is up. If null is
  -- returned, the descriptor that was opened, if there is one, is still open, and nobody holds it.
  -- The process ends with 1 only.
  pub create-Created :
      (s : K) (name : Name) (flags : Bits)
      → length name + 1 < ifnamsiz
      → Created s (k.raw_socket s).0 (raw_create k name flags s)
        × Created s (k.open_tun s).0 (tap_create k name flags s)
  unfolding raw_create tap_create
  create-Created s name flags fits = (
    rw (below_true (length name + 1) ifnamsiz fits)
        (raw_opened-Created s name flags (k.raw_socket s) (laws.raw_socket_lem s).0),
    rw (below_true (length name) ifnamsiz (omega (arith, fits)))
        (tap_opened-Created s name flags (k.open_tun s) (laws.open_tun_lem s).0),
  )
