-- ===== src/Network/Rounds.antt =====
-- The callbacks of the event machine, `network_control` of src/network.c and `_packet_forward` of
-- src/cable.c, in a network that is safe.
use netemul.Base.{
  ℕ, zero, suc, ◌≡◌, refl, true, Option, none, some, List, [], ◌∷◌, arith, inl, inr, has,
  if◌then◌else◌, ◌==◌, ap, sym, ◌∙◌,
}
use netemul.Node.{Ptr}
use netemul.Env.{Env, Fifo}
use netemul.Env.Laws.{FifoLaws, CacheLaws}
use netemul.World.{World, Component, Timer}
use netemul.World.Run.{load, store}
use netemul.World.Ends.{Ends, ends, follow, weaken}
use netemul.Component.Wiring.{output_of}
use netemul.Cable.{deliver}
use netemul.Ownership.{Copyable, Held, Taken, count_timers, delays, has_queue, is_there, is_cable}
use netemul.Ownership.Push.{get_queue}
use netemul.Ownership.Take.{dequeued, dequeued-Got, fired-Got}
use netemul.Network.{control_loop, network_control, behind, take_timer, fire, fire_taken, expire}
use netemul.Network.Methods.{forward-Taken}
use netemul.Network.Safe.{Safe, Sane, Sane-Shape, Sane-Taken, Steady, Stays-refl, Taken-Steady}

is_there_of_queue : (o : Option Component) → has_queue o ≡ true → is_there o ≡ true
is_there_of_queue none h = h
is_there_of_queue (some c) h = refl

-- What is known of the timers when one is taken.
record Chosen (ts : List Timer) (t : Timer) (rest : List Timer) : Type 0 where
  pub counts :
      (r : Ptr)
      → count_timers r ts
        ≡ (if r == t.packet then suc (count_timers r rest) else count_timers r rest)
  pub remain : (a : Ptr) → delays a rest ≡ true → delays a ts ≡ true
  pub delayed : delays t.cable ts ≡ true

take_timer-Chosen :
    (n : ℕ) (ts : List Timer) (t : Timer) (rest : List Timer)
    → take_timer n ts ≡ some (t, rest)
    → Chosen ts t rest
unfolding take_timer
take_timer-Chosen n [] t rest h = absurd (ground (arith, h))
take_timer-Chosen zero (s ∷ ts) t rest h = record {
  counts = λ r. ground (arith, h);
  remain = λ a q. ground (arith, h, q);
  delayed = ground (arith, h);
}
take_timer-Chosen (suc n) (s ∷ ts) t rest h = go (take_timer n ts) (take_timer-Chosen n ts) h
  where
    go :
        (o : Option (Timer × List Timer))
        → ((u : Timer) (us : List Timer) → o ≡ some (u, us) → Chosen ts u us)
        → behind s o ≡ some (t, rest)
        → Chosen (s ∷ ts) t rest
    go none q h = absurd (ground (arith, h))
    go (some (u, us)) q h =
        let c = q u us refl in
        record {
          counts = λ r. ground (arith, h, c.counts r);
          remain = λ a k. ground (arith, h, k, c.remain a);
          delayed = ground (arith, h, c.delayed);
        }

module _ (e : Env) (fifo : FifoLaws e) (laws : CacheLaws e)
    (memory : (a : Ptr) → e.malloc_ok a ≡ true) (w : World) (sizes : Copyable w)
    (safe : Safe e w) where
  control_loop-Steady :
      (ps : List Ptr)
      → ((p : Ptr) → has p ps ≡ true → has_queue (w.component p) ≡ true)
      → Ends (λ _ u. Steady e w u) (control_loop e ps w)
  unfolding control_loop load store
  control_loop-Steady [] queues = ends (record { stays = Stays-refl e w safe; sizes = sizes })
  control_loop-Steady (p ∷ ps) queues =
      let (c, q, there, queue) = get_queue (w.component p) (queues p (ground arith)) in
      go c q there queue q.items refl (control_loop-Steady ps (λ a h. queues a (ground (arith, h))))
    where
      go :
          (c : Component) (q : Fifo)
          → w.component p ≡ some c
          → c.queue ≡ some q
          → (xs : List Ptr) → q.items ≡ xs
          → Ends (λ _ u. Steady e w u) (control_loop e ps w)
          → Ends (λ _ u. Steady e w u) (control_loop e (p ∷ ps) w)
      go c q there queue [] items rest = rw there (rw queue (rw (fifo.pop_lem q) (rw items rest)))
      go c q there queue (x ∷ xs) items rest =
          let got = dequeued-Got w p x c q xs there queue items safe.sane.owned safe.sane.sound in
          rw there (
            rw queue (
              rw (fifo.pop_lem q) (
                rw items (
                  weaken
                    (Sane-Taken e fifo laws memory (dequeued w p c q xs) p x
                      (got.shape.packets sizes)
                      (Sane-Shape e w (dequeued w p c q xs) got.shape got.owned got.sound safe.sane)
                      (ground arith) got.held)
                    λ _ u t. Taken-Steady e w (dequeued w p c q xs) u x sizes safe got t))))

  -- A round of the event loop does not fail in a safe state whose packets can be copied, if there is
  -- memory, and leaves such a state, with the same manager.
  pub network_control-Steady : Ends (λ _ u. Steady e w u) (network_control e w)
  unfolding network_control
  network_control-Steady =
      follow (control_loop-Steady w.manager.components safe.sane.listed) λ _ u s. ends s

  fire-Taken :
      (v : World) (t : Timer)
      → Copyable v
      → Sane e v
      → Held v t.packet
      → is_cable (v.component t.cable) ≡ true
      → Ends (λ _ u. Taken v t.packet u) (fire e t v)
  unfolding fire deliver load
  fire-Taken v t sizes sane held cable = go (v.component t.cable) refl
    where
      go :
          (o : Option Component)
          → v.component t.cable ≡ o
          → Ends (λ _ u. Taken v t.packet u) (fire e t v)
      go none q = absurd (ground (arith, cable))
      go (some c) q = elim (sane.works t.cable (ground (arith, q))) [
        | inl port ↦ absurd (ground (arith, port.not_cable, cable))
        | inr line ↦ rw q (
            rw (ap output_of (sym q) ∙ line.leads) (
              follow
                (forward-Taken e fifo laws memory v line.out t.packet line.port sizes sane.owned
                  sane.sound sane.tables held 0)
                λ _ u taken. ends taken))
      ]

  -- So does a timer that fires, whichever it is.
  pub expire-Steady : (n : ℕ) → Ends (λ _ u. Steady e w u) (expire e n w)
  unfolding expire fire_taken
  expire-Steady n = go (take_timer n w.timers) refl
    where
      go :
          (o : Option (Timer × List Timer))
          → take_timer n w.timers ≡ o
          → Ends (λ _ u. Steady e w u) (fire_taken e o w)
      go none q = ends (record { stays = Stays-refl e w safe; sizes = sizes })
      go (some (t, rest)) q =
          let c = take_timer-Chosen n w.timers t rest q in
          let got = fired-Got w t rest c.counts c.remain safe.sane.owned safe.sane.sound in
          let v : World = record w { timers = rest } in
          weaken
            (fire-Taken v t (got.shape.packets sizes)
              (Sane-Shape e w v got.shape got.owned got.sound safe.sane) got.held
              (safe.sane.waiting t.cable c.delayed))
            λ _ u taken. Taken-Steady e w v u t.packet sizes safe got taken
