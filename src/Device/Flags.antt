-- ===== src/Device/Flags.antt =====
-- `do_chflags` of src/ni.c.
use netemul.Base.{
  take, ℕ, zero, suc, ◌<◌, ◌≡◌, refl, Bool, true, false, ◌&&◌, ◌||◌, Option, none, some, List, ◌∷◌,
  arith, same, sym, ap, ◌∙◌, subst, ◌==◌, if◌then◌else◌, Bool-cases, inl, inr,
}
use netemul.Node.{Name}
use netemul.Env.Laws.{erase}
use netemul.Device.{
  Bits, inet, packet, inet6, Kernel, short_bits, int_bits, promoted, differs, any_differs, merged,
  closed, or_else, get_ctl_fd, change_flags, with_control, do_chflags, ifnamsiz,
}
use netemul.Device.Laws.{View, KernelLaws, with_fd, Unchanged, Opens, Reads, Writes}

same_bit : (a b m r : Bool) → (differs a b && m) || r ≡ false → m ≡ true → a ≡ b
same_bit a b m r h t = ground (arith, h, t)

eq_of : (i n : ℕ) → (i == n) ≡ true → i ≡ n
eq_of i n h = ground (arith, h)

-- Where no bit differs, each one is as it is asked for.
same_bits :
    (n : ℕ) (a b mask : Bits)
    → any_differs n a b mask ≡ false
    → (i : ℕ) → i < n
    → mask i ≡ true
    → a i ≡ b i
unfolding any_differs
same_bits zero a b mask h i less m = ground (arith, less)
same_bits (suc n) a b mask h i less m = elim (Bool-cases (i == n)) [
  | inl y ↦
      let eq = eq_of i n y in
      ap a eq
      ∙ same_bit (a n) (b n) (mask n) (any_differs n a b mask) h (ap mask (sym eq) ∙ m)
      ∙ ap b (sym eq)
  | inr f ↦ same_bits n a b mask (ground (arith, h)) i (ground (arith, f, less)) m
]

module _ {K : Type 0} (k : Kernel K) (v : View K) (laws : KernelLaws k v) where
  or_else-Opens :
      (s : K) (r : Option ℕ × K) (next : K → Option ℕ × K)
      → Opens v s r
      → ((t : K) → Opens v t (next t))
      → Opens v s (or_else k r next)
  or_else-Opens s (none, t) next (same_open, same_flags) each =
      let (open', flags') = each t in
      (open' ∙ ap (with_fd (next t).0) same_open, flags' ∙ same_flags)
  or_else-Opens s (some fd, t) next here each = here

  get_ctl_fd-Opens : (s : K) → Opens v s (get_ctl_fd k s)
  get_ctl_fd-Opens s = or_else-Opens s (k.socket inet s) _ (laws.socket_lem inet s) λ t.
      or_else-Opens t (k.socket packet t) _ (laws.socket_lem packet t) λ u. laws.socket_lem inet6 u

  -- What the flags of an interface are to be
  abbrev pub Changed : Name → Bits → Bits → K → Option ℕ × K → Type 0
  Changed dev flags mask s (none, t) = Unchanged v s t
  Changed dev flags mask s (some err, t) =
      (v.opened t ≡ v.opened s)
      × ((i : ℕ) → i < short_bits → v.flags t dev i ≡ (if mask i then flags i else v.flags s dev i))
      × ((n : Name) → same n dev ≡ false → v.flags t n ≡ v.flags s n)

  erase_head : (fd : ℕ) (fds : List ℕ) → erase fd (fd ∷ fds) ≡ fds
  erase_head fd fds = ground arith

  close-opened :
      (fd : ℕ) (fds : List ℕ) (s : K) → v.opened s ≡ fd ∷ fds → v.opened (k.close fd s) ≡ fds
  close-opened fd fds s h = laws.close_opened fd s ∙ ap (erase fd) h ∙ erase_head fd fds

  module _ (dev : Name) (flags mask : Bits) (s : K) (fd : ℕ) where
    -- The control socket is open, and nothing else has changed.
    abbrev Controlled : K → Type 0
    Controlled t = (v.opened t ≡ fd ∷ v.opened s) × (v.flags t ≡ v.flags s)

    closed-Changed :
        (t : K)
        → Controlled t
        → (r : Option ℕ × K) → Writes v dev (merged (v.flags s dev) flags mask) t r
        → Changed dev flags mask s (closed k fd r)
    closed-Changed t (open_t, flags_t) (none, w) (o, f) =
        (close-opened fd (v.opened s) w (o ∙ open_t), laws.close_flags fd w ∙ f ∙ flags_t)
    closed-Changed t (open_t, flags_t) (some err, w) (o, f, g) = (
      close-opened fd (v.opened s) w (o ∙ open_t),
      λ i less. ap (λ h. h dev i) (laws.close_flags fd w) ∙ ap (λ h. h i) f,
      λ n other. ap (λ h. h n) (laws.close_flags fd w) ∙ g n other ∙ ap (λ h. h n) flags_t,
    )

    as_asked :
        any_differs int_bits (promoted (v.flags s dev)) flags mask ≡ false
        → (i : ℕ) → i < short_bits
        → v.flags s dev i ≡ (if mask i then flags i else v.flags s dev i)
    as_asked h i less = elim (Bool-cases (mask i)) [
      | inl y ↦ rw y (
          ground (
            arith,
            same_bits int_bits (promoted (v.flags s dev)) flags mask h i (omega (arith, less)) y,
            less,
          ))
      | inr f ↦ rw f refl
    ]

    change_flags-Changed :
        (r : Option (ℕ × Bits) × K)
        → Controlled r.1
        → Reads v dev s r.0
        → Changed dev flags mask s (change_flags k dev flags mask fd r)
    change_flags-Changed (none, t) (open_t, flags_t) reads =
        (close-opened fd (v.opened s) t open_t, laws.close_flags fd t ∙ flags_t)
    change_flags-Changed (some (err, old), t) (open_t, flags_t) reads =
        elim (Bool-cases (any_differs int_bits (promoted old) flags mask)) [
          | inl y ↦ rw y (
              closed-Changed t (open_t, flags_t) (k.set_flags fd dev (merged old flags mask) t)
                (subst
                  (λ b.
                    Writes v dev (merged b flags mask) t
                      (k.set_flags fd dev (merged old flags mask) t))
                  reads (laws.set_writes fd dev (merged old flags mask) t)))
          | inr n ↦ rw n (
            close-opened fd (v.opened s) t open_t,
            λ i less.
                ap (λ h. h dev i) (laws.close_flags fd t ∙ flags_t)
                ∙ as_asked (ap (λ b. any_differs int_bits (promoted b) flags mask) (sym reads) ∙ n)
                    i less,
            λ m other. ap (λ h. h m) (laws.close_flags fd t ∙ flags_t),
          )
        ]

  carry-Reads :
      (dev : Name) (s t : K) (r : Option (ℕ × Bits))
      → v.flags t ≡ v.flags s
      → Reads v dev t r
      → Reads v dev s r
  carry-Reads dev s t none same_flags reads = tt
  carry-Reads dev s t (some (err, b)) same_flags reads = reads ∙ ap (λ h. h dev) same_flags

  with_control-Changed :
      (dev : Name) (flags mask : Bits) (s : K) (r : Option ℕ × K)
      → Opens v s r
      → Changed dev flags mask s (with_control k dev flags mask r)
  with_control-Changed dev flags mask s (none, t) opens = opens
  with_control-Changed dev flags mask s (some fd, t) (o, f) =
      let (kept, kept_flags) = laws.get_unchanged fd dev t in
      change_flags-Changed dev flags mask s fd (k.get_flags fd dev t) (kept ∙ o, kept_flags ∙ f)
        (carry-Reads dev s t (k.get_flags fd dev t).0 f (laws.get_reads fd dev t))

  -- Setting flags of an interface, whose name is the first 16 bytes of the one that is given, closes
  -- the control socket on every path: the same descriptors are
  -- open behind it. If it succeeds, each of the interface's 16 flags that is in the mask is as asked
  -- for, and the others are as they were; if it fails, no flag has changed. The flags of the other
  -- interfaces stay.
  pub do_chflags-Changed :
      (dev : Name) (flags mask : Bits) (s : K)
      → Changed (take ifnamsiz dev) flags mask s (do_chflags k dev flags mask s)
  unfolding do_chflags
  do_chflags-Changed dev flags mask s =
      with_control-Changed (take ifnamsiz dev) flags mask s (get_ctl_fd k s) (get_ctl_fd-Opens s)
