-- ===== src/Cable/Forward.antt =====
-- What becomes of a packet in a cable, src/cable.c.
use netemul.Base.{
  ℕ, suc, ◌+◌, ◌≡◌, refl, Bool, true, false, ◌&&◌, some, arith, ◌==◌, if◌then◌else◌, inl, inr,
  Bool-cases,
}
use netemul.Node.{Ptr}
use netemul.Env.{Env}
use netemul.World.{World, Component, CableState}
use netemul.World.Run.{Cmd, write, free_packet, read_clock}
use netemul.World.Ends.{Ends, ends, follow, weaken}
use netemul.Ownership.{Owned, Held, Sound, Shape-components, Taken, is_cable}
use netemul.Ownership.Hold.{
  Keeps, Keeps-quiet, Keeps-trans, Keeps-Taken, Keeps-refl, free_packet-Taken,
}
use netemul.Ownership.Delay.{delayed-Taken}
use netemul.Cable.{
  forward_cable, delay_packet, delay_of, deliver, spoil, strikes, overrun, closed_after, ip_length,
  ether_len,
}

-- A state that differs in the readings of the clocks only.
abbrev pub Read : World → World → Type 0
Read w u = (n : ℕ) × (u ≡ record w { readings = n })

module _ (w v : World) (p : Ptr) (k : Keeps w p v) where
  pub read-Keeps : (n : ℕ) → Keeps w p (record v { readings = n })
  read-Keeps n = Keeps-trans k (
      Keeps-quiet v (record v { readings = n }) p (λ a r. refl) refl refl (omega arith)
        (Shape-components v (record v { readings = n }) (λ a. refl) (λ a. refl) refl refl refl
          (λ h. h))
        k.owned k.sound k.held)

strikes-Read : (e : Env) (rate : ℕ) (w : World) → Ends (λ _ u. Read w u) (strikes e rate w)
unfolding strikes read_clock
strikes-Read e rate w = elim (Bool-cases (e.double_nonzero rate)) [
  | inl y ↦ rw y (ends (suc w.readings, refl))
  | inr n ↦ rw n (ends (w.readings, refl))
]

delay_of-Read : (e : Env) (s : CableState) (w : World) → Ends (λ _ u. Read w u) (delay_of e s w)
unfolding delay_of read_clock
delay_of-Read e s w = elim (Bool-cases (s.jitter == 0)) [
  | inl y ↦ rw y (ends (w.readings, refl))
  | inr n ↦ rw n (ends (suc w.readings, refl))
]

module _ (e : Env) (next : Ptr → Ptr → Cmd (Unit {0})) (w : World) (this p o : Ptr) (c : Component)
    (there : w.component this ≡ some c) (leads : c.output ≡ some o)
    (cable : is_cable (w.component this) ≡ true)
    (exact : e.double_nonzero c.cable.error_rate ≡ false)
    (memory : (a : Ptr) → e.malloc_ok a ≡ true) (owned : Owned w) (sound : Sound w)
    (held : Held w p)
    (passes : (v : World) → Keeps w p v → Ends (λ _ u. Taken v p u) (next o p v)) where
  -- The cable after the time until which it is busy was set.
  abbrev busy : ℕ → Component
  busy closed = record c { cable = record (c.cable) { output_closed = closed } }

  module _ (closed : ℕ) (v : World) (k : Keeps w p v)
      (at : v.component this ≡ some (busy closed)) where
    delay_packet-Taken : Ends (λ _ u. Taken w p u) (delay_packet e next this p v)
    unfolding delay_packet deliver
    delay_packet-Taken = elim (Bool-cases ((c.cable.latency == 0) && (c.cable.jitter == 0))) [
      | inl y ↦ rw at (rw y (rw at (rw leads (weaken (passes v k) λ _ u t. Keeps-Taken k t))))
      | inr n ↦ rw at (
          rw n (
            rw (memory v.next) (
              follow (delay_of-Read e c.cable (record v { next = suc v.next })) λ d u (m, q). rw q (
                ends (
                  delayed-Taken w (record v { next = suc v.next; readings = m })
                    (record { cable = this; packet = p; delay = d }) (allocated m) cable)))))
    ]
      where
        allocated : (m : ℕ) → Keeps w p (record v { next = suc v.next; readings = m })
        allocated m = Keeps-trans k (
            Keeps-quiet v (record v { next = suc v.next; readings = m }) p (λ a r. refl) refl refl
              (omega arith)
              (Shape-components v (record v { next = suc v.next; readings = m }) (λ a. refl)
                (λ a. refl) refl refl refl (λ h. h))
              k.owned k.sound k.held)

    after_drop :
        (dropped : Bool)
        → Ends
            (λ _ u. Taken w p u)
            ((if dropped then free_packet p else delay_packet e next this p) v)
    after_drop true = free_packet-Taken w v p k
    after_drop false = delay_packet-Taken

  -- The state after the cable was set busy.
  abbrev busied : ℕ → World
  busied closed = record w {
    component = write w.component this (some (busy closed));
    readings = suc w.readings;
  }

  busied-Keeps : (closed : ℕ) → Keeps w p (busied closed)
  busied-Keeps closed =
      Keeps-quiet w (busied closed) p (λ a r. ground (arith, there)) refl refl (omega arith)
        (Shape-components w (busied closed) (λ a. ground (arith, there)) (λ a. refl) refl refl refl
          (λ h. h))
        owned sound held

  -- A cable that leads somewhere, without an error rate, never fails, if there is memory: the
  -- packet is freed, waits for a timer, or has been passed on.
  pub forward_cable-Taken : Ends (λ _ u. Taken w p u) (forward_cable e next this p w)
  unfolding forward_cable read_clock spoil strikes
  forward_cable-Taken = elim (Bool-cases (overrun e c.cable (e.clock w.readings))) [
    | inl y ↦ rw there (
        rw y (
          free_packet-Taken w (record w { readings = suc w.readings }) p
            (read-Keeps w w p (Keeps-refl w p owned sound held) (suc w.readings))))
    | inr n ↦ rw there (
        rw n (
          rw held.allocated (
            rw there (
              rw exact (
                follow (strikes-Read e c.cable.drop_rate (busied closed)) λ dropped u (m, q). rw q (
                  after_drop closed (record (busied closed) { readings = m })
                    (read-Keeps w (busied closed) p (busied-Keeps closed) m) (ground arith)
                    dropped))))))
  ]
    where
      closed : ℕ
      closed = closed_after e c.cable (e.clock w.readings) (ether_len + ip_length held.packet 0)
