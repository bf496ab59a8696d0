-- ===== src/Cable/Create.antt =====
-- What `cable_create` of src/cable.c leaves.
use netemul.Base.{ℕ, ◌≡◌, refl, true, Option, none, some, arith, inl, inr, Bool-cases, Option-cases}
use netemul.Node.{NodeType, Ptr, packet_queue_size, cable_set, cable_forward}
use netemul.Env.{Env}
use netemul.Env.Laws.{FifoLaws}
use netemul.World.{World, CableState}
use netemul.World.Run.{load, store, update, malloc, free_component, read_clock}
use netemul.World.Ends.{Ends, ends}
use netemul.Component.{inherit, destroy_component, zeroed}
use netemul.Port.Create.{Fresh, New, self}
use netemul.Cable.{cable_create}

-- A new cable with these attributes, or nothing has changed.
abbrev pub CableCreated : CableState → World → Option Ptr → World → Type 0
CableCreated s w none w' = (a : Ptr) → w'.component a ≡ w.component a
CableCreated s w (some p) w' = (new : New NodeType.cable w p w') × (new.component.cable ≡ s)

-- Creating a cable ends. It gives a new cable, connected with nothing and with an empty queue,
-- that has the bandwidth, error rate, jitter and latency that were asked for, is free from now on,
-- and never drops a packet, whatever drop rate was asked for; or it gives none, and changes nothing.
pub cable_create-Created :
    (e : Env) (laws : FifoLaws e) (w : World) (bandwidth error_rate drop_rate jitter latency : ℕ)
    → Fresh w
    → Ends
        (CableCreated
          (record {
            bandwidth = bandwidth;
            output_closed = e.clock w.readings;
            error_rate = error_rate;
            drop_rate = 0;
            jitter = jitter;
            latency = latency;
          })
          w)
        (cable_create e bandwidth error_rate drop_rate jitter latency w)
unfolding cable_create malloc store inherit update load destroy_component free_component read_clock
cable_create-Created e laws w bandwidth error_rate drop_rate jitter latency fresh =
    elim (Bool-cases (e.malloc_ok w.next)) [
      | inr m ↦ rw m (ends λ a. refl)
      | inl m ↦ rw m (elim (Option-cases (e.fifo_create packet_queue_size)) [
        | inl f ↦ rw f (
            rw (self w.next) (
              rw (self w.next)
                (rw (self w.next) (rw (self w.next) (ends λ a. ground (arith, fresh w.next))))))
        | inr (q, f) ↦ rw f (
            rw (self w.next) (
              rw (self w.next) (
                rw (self w.next) (
                  ends (
                    record {
                      unused = fresh w.next (omega arith);
                      component = record zeroed {
                        type = NodeType.cable;
                        is_active = true;
                        queue = some q;
                        set = cable_set;
                        packet_forward = cable_forward;
                        cable = record {
                          bandwidth = bandwidth;
                          output_closed = e.clock w.readings;
                          error_rate = error_rate;
                          drop_rate = 0;
                          jitter = jitter;
                          latency = latency;
                        };
                      };
                      queue = q;
                      there = ground arith;
                      has_type = refl;
                      active = refl;
                      free = (refl, refl);
                      has_queue = refl;
                      empty = (laws.create_empty packet_queue_size q f).0;
                      others = λ a n. ground arith;
                      fresh = λ a h. ground (arith, fresh a);
                      later = omega arith;
                      forwards = refl;
                      destroys = refl;
                      beyond = record {
                        composites = refl;
                        packets = refl;
                        interfaces = refl;
                        manager = refl;
                        timers = refl;
                        sent = refl;
                      };
                    },
                    refl,
                  )))))
      ])
    ]
