-- ===== src/Manager/Poll.antt =====
-- The descriptors that src/manager.c polls.
use netemul.Base.{
  ℕ, ◌+◌, ◌-◌, ◌<◌, ◌≤◌, ◌≡◌, refl, true, false, some, List, [], ◌∷◌, ◌++◌, arith, has,
}
use netemul.Env.{Env}
use netemul.Env.Laws.{ListLaws, erase}
use netemul.World.{World}
use netemul.World.Run.{ok, ◌>>◌}
use netemul.Manager.{fd_add, fd_remove, get_last, update_fd_info}

get_last-append : (xs : List ℕ) (x : ℕ) → get_last (xs ++ x ∷ []) ≡ x
unfolding get_last
get_last-append [] x = refl
get_last-append (y ∷ []) x = refl
get_last-append (y ∷ z ∷ xs) x = get_last-append (z ∷ xs) x

erase-append : (xs : List ℕ) (x : ℕ) → has x xs ≡ false → erase x (xs ++ x ∷ []) ≡ xs
erase-append [] x h = ground arith
erase-append (y ∷ xs) x h = ground (arith, erase-append xs x)

has-append : (xs : List ℕ) (x : ℕ) → has x (xs ++ x ∷ []) ≡ true
has-append [] x = ground arith
has-append (y ∷ xs) x = ground (arith, has-append xs x)

module _ (e : Env) (laws : ListLaws e) (w : World) (fd : ℕ) (fds : List ℕ)
    (added : e.list_add w.manager.fds fd ≡ some fds) where
  -- The manager with another list of descriptors and another count.
  abbrev polling : List ℕ → ℕ → World
  polling xs n = record w {
    manager = record (w.manager) { fds = xs; fd_count = n; nfds = get_last xs + 1; read_fds = xs };
  }

  fd_add-polling : fd_add e fd w ≡ ok true (polling fds (w.manager.fd_count + 1))
  unfolding fd_add update_fd_info
  fd_add-polling = rw added

  -- A descriptor that the list takes is polled: it stands last in the list, it and those before it
  -- are the ones in `read_fds`, it is counted, and is below `nfds`. But `nfds` follows the last descriptor, not the greatest: a greater one that was there
  -- before is not polled any more.
  pub fd_add-nfds :
      (w' : World) × (fd_add e fd w ≡ ok true w')
      × (w'.manager.fds ≡ w.manager.fds ++ fd ∷ [])
      × (w'.manager.read_fds ≡ w.manager.fds ++ fd ∷ [])
      × (w'.manager.fd_count ≡ w.manager.fd_count + 1)
      × (fd < w'.manager.nfds)
      × ((x : ℕ) → has x w.manager.fds ≡ true → fd < x → w'.manager.nfds ≤ x)
  fd_add-nfds = (
    polling fds (w.manager.fd_count + 1),
    fd_add-polling,
    laws.add_lem w.manager.fds fds fd added,
    laws.add_lem w.manager.fds fds fd added,
    refl,
    ground (arith, laws.add_lem w.manager.fds fds fd added, get_last-append w.manager.fds fd),
    λ x h lt.
        ground (arith, laws.add_lem w.manager.fds fds fd added, get_last-append w.manager.fds fd),
  )

  -- Adding a descriptor that was not polled and removing it again succeeds, and the manager polls
  -- what it polled before.
  pub fd_add-fd_remove :
      has fd w.manager.fds ≡ false
      → (w' : World) × ((fd_add e fd >> fd_remove e fd) w ≡ ok true w')
        × (w'.manager.fds ≡ w.manager.fds)
        × (w'.manager.read_fds ≡ w.manager.fds)
        × (w'.manager.fd_count ≡ w.manager.fd_count)
        × (w'.manager.nfds ≡ get_last w.manager.fds + 1)
  unfolding fd_remove update_fd_info
  fd_add-fd_remove new = (
    polling w.manager.fds (w.manager.fd_count + 1 - 1),
    rw fd_add-polling (rw removed),
    refl,
    refl,
    omega arith,
    refl,
  )
    where
      removed : e.list_remove_data fds fd ≡ some w.manager.fds
      removed = rw (laws.add_lem w.manager.fds fds fd added) (
          rw (laws.remove_lem (w.manager.fds ++ fd ∷ []) fd)
            (rw (has-append w.manager.fds fd) (rw (erase-append w.manager.fds fd new))))
