-- ===== src/Switch/Dup.antt =====
-- What `packet_dup` of src/switch.c makes: a copy with the same bytes, or a write past its block.
use netemul.Base.{◌≤◌, ◌<◌, ◌^◌, ◌≡◌, refl, true, ◌⊎◌, inl, inr, some, arith, ℕ, suc, Bool-cases}
use netemul.Node.{Ptr}
use netemul.Env.{Env}
use netemul.World.{World, Packet}
use netemul.World.Run.{ok, fault, write}
use netemul.Switch.{packet_dup, copy, can_copy, slack}

-- The same bytes from `start` to `end`, at the same places.
pub record SameBytes (k k' : Packet) : Type 0 where
  pub start : k'.start ≡ k.start
  pub end : k'.end ≡ k.end
  pub bytes : (i : ℕ) → k.start ≤ i → i < k.end → k'.buffer i ≡ k.buffer i
  pub within : k'.end ≤ k'.capacity

copy-SameBytes :
    (k : Packet) → k.start ≤ k.end → k.end < 2 ^ 16 → k.start ≤ slack → SameBytes k (copy k)
unfolding copy
copy-SameBytes k order bound small = record {
  start = refl;
  end = omega (arith, order, bound);
  bytes = λ i from to. ground (arith, order, bound);
  within = ground (arith, order, bound, small);
}

-- A packet whose bytes lie in order within its block, when there is memory, is copied to a new
-- address, with the same bytes at the same places and within the copy's block, and nothing else
-- changes, if its `start` is two at most; if its `start` is greater, the copy is written past its
-- block.
pub packet_dup-SameBytes :
    (e : Env) (w : World) (p : Ptr) (k : Packet)
    → w.packet p ≡ some k
    → e.malloc_ok w.next ≡ true
    → k.start ≤ k.end
    → k.end < 2 ^ 16
    → k.end ≤ k.capacity
    → ((k.start ≤ 2)
        × ((k' : Packet) × SameBytes k k'
            × (packet_dup e p w
                ≡ ok
                    (some w.next)
                    (record w { next = suc w.next; packet = write w.packet w.next (some k') }))))
      ⊎ ((2 < k.start) × (packet_dup e p w ≡ fault))
unfolding packet_dup
packet_dup-SameBytes e w p k there memory order bound fits = elim (Bool-cases (can_copy k)) [
  | inl y ↦
      let small : k.start ≤ 2 = ground (arith, y, order, bound) in
      inl (small, (copy k, copy-SameBytes k order bound small, rw (memory, there, y) refl))
  | inr n ↦ inr (ground (arith, n, order, bound, fits), rw (memory, there, n) refl)
]
