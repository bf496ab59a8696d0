-- ===== src/Network/Safe.antt =====
-- The network as a whole: what makes a state of it sound, and that the call of `packet_forward` of
-- any of its components leads to such a state.
use netemul.Base.{
  ℕ, ◌≡◌, ◌≢◌, refl, Bool, true, false, Option, none, some, arith, sym, ap, ◌∙◌, ◌⊎◌, inl, inr, has,
}
use netemul.Node.{
  Ptr, ForwardMethod, component_forward, hub_send, ether_switch_send, virtual_forward,
  physical_forward, cable_forward,
}
use netemul.Env.{Env}
use netemul.Env.Laws.{FifoLaws, CacheLaws}
use netemul.World.{World, Component, Composite, Ni, Manager}
use netemul.World.Ends.{Ends}
use netemul.Component.Wiring.{output_of}
use netemul.Ownership.{
  Copyable, Owned, Held, Sound, Tables, Waiting, Shape, Taken, is_cable, is_there, has_queue,
  same_output, same_queue, same_cable, same_there, skeleton, outline,
}
use netemul.Ownership.Take.{Got}
use netemul.Cable.Forward.{forward_cable-Taken}
use netemul.Network.{forward, forward_by}
use netemul.Network.Methods.{Port, Port-Shape, forward-Taken}

abbrev pub error_of : Option Component → ℕ
error_of none = 0
error_of (some c) = c.cable.error_rate

-- A cable that works: it leads to a port, and flips no bits.
pub record Line (e : Env) (w : World) (p : Ptr) : Type 0 where
  pub out : Ptr
  pub leads : output_of (w.component p) ≡ some out
  pub exact : e.double_nonzero (error_of (w.component p)) ≡ false
  pub cable : is_cable (w.component p) ≡ true
  pub port : Port w out

-- The interface behind a descriptor, and its port.
pub record Attached (w : World) (fd : ℕ) : Type 0 where
  pub ni : Ptr
  pub interface : Ni
  pub listed : w.manager.nis fd ≡ some ni
  pub there : w.ni ni ≡ some interface
  pub port : Port w interface.port

-- Every component works, those in the manager's list are there with a queue, and every polled
-- descriptor but that of the commands has its interface.
pub record Sane (e : Env) (w : World) : Type 0 where
  pub owned : Owned w
  pub sound : Sound w
  pub tables : Tables w
  pub waiting : Waiting w
  pub works : (p : Ptr) → is_there (w.component p) ≡ true → Port w p ⊎ Line e w p
  pub listed : (p : Ptr) → has p w.manager.components ≡ true → has_queue (w.component p) ≡ true
  pub polled : (fd : ℕ) → has fd w.manager.fds ≡ true → fd ≢ 0 → Attached w fd

-- A sound state in which every packet is in a queue, or waits for a timer: none is lost.
pub record Safe (e : Env) (w : World) : Type 0 where
  pub sane : Sane e w
  pub kept : (p : Ptr) → Held w p → ⊥

error_of-skeleton : (o : Option Component) → error_of (skeleton o) ≡ error_of o
error_of-skeleton none = refl
error_of-skeleton (some c) = refl

module _ (e : Env) (w v : World) (s : Shape w v) where
  Line-Shape : (p : Ptr) → Line e w p → Line e v p
  Line-Shape p l = record {
    out = l.out;
    leads = same_output _ _ (s.same p) ∙ l.leads;
    exact =
        ap e.double_nonzero (
          sym (error_of-skeleton (v.component p))
          ∙ ap error_of (s.same p)
          ∙ error_of-skeleton (w.component p))
        ∙ l.exact;
    cable = same_cable _ _ (s.same p) ∙ l.cable;
    port = Port-Shape w v l.out s l.port;
  }

  Attached-Shape : (fd : ℕ) → Attached w fd → Attached v fd
  Attached-Shape fd a = record {
    ni = a.ni;
    interface = a.interface;
    listed = ap (λ (m : Manager). m.nis fd) s.manager ∙ a.listed;
    there = ap (λ (f : Ptr → Option Ni). f a.ni) s.interfaces ∙ a.there;
    port = Port-Shape w v a.interface.port s a.port;
  }

  pub Sane-Shape : Owned v → Sound v → Sane e w → Sane e v
  Sane-Shape owned sound sane = record {
    owned = owned;
    sound = sound;
    tables = s.tables sane.tables;
    waiting = s.waiting sane.waiting;
    works = λ p h. elim (sane.works p (sym (same_there _ _ (s.same p)) ∙ h)) [
      | inl port ↦ inl (Port-Shape w v p s port)
      | inr line ↦ inr (Line-Shape p line)
    ];
    listed = λ p h.
        same_queue _ _ (s.same p)
        ∙ sane.listed p (ap (λ (m : Manager). has p m.components) (sym s.manager) ∙ h);
    polled = λ fd h n.
        Attached-Shape fd
          (sane.polled fd (ap (λ (m : Manager). has fd m.fds) (sym s.manager) ∙ h) n);
  }

module _ (e : Env) (fifo : FifoLaws e) (laws : CacheLaws e)
    (memory : (a : Ptr) → e.malloc_ok a ≡ true) where
  Line-Taken :
      (w : World) (this p : Ptr)
      → Copyable w
      → Sane e w
      → Line e w this
      → Held w p
      → Ends (λ _ u. Taken w p u) (forward e 2 this p w)
  unfolding forward forward_by
  Line-Taken w this p sizes sane line held = go (w.component this) refl
    where
      by_method :
          (c : Component)
          → w.component this ≡ some c
          → (m : ForwardMethod) → c.packet_forward ≡ m
          → Ends (λ _ u. Taken w p u) (forward_by e (forward e 1) m this p w)
      by_method c q cable_forward method =
          forward_cable-Taken e (forward e 1) w this p line.out c q
            (ap output_of (sym q) ∙ line.leads) line.cable
            (ap (λ o. e.double_nonzero (error_of o)) (sym q) ∙ line.exact) memory sane.owned
            sane.sound held
            λ v k.
              forward-Taken e fifo laws memory v line.out p
                (Port-Shape w v line.out k.shape line.port) (k.shape.packets sizes) k.owned k.sound
                (k.shape.tables sane.tables) k.held 0
      by_method c q component_forward method = absurd (ground (arith, line.cable))
      by_method c q hub_send method = absurd (ground (arith, line.cable))
      by_method c q ether_switch_send method = absurd (ground (arith, line.cable))
      by_method c q virtual_forward method = absurd (ground (arith, line.cable))
      by_method c q physical_forward method = absurd (ground (arith, line.cable))

      go :
          (o : Option Component)
          → w.component this ≡ o
          → Ends (λ _ u. Taken w p u) (forward e 2 this p w)
      go none q = absurd (ground (arith, line.cable))
      go (some c) q = rw q (by_method c q c.packet_forward refl)

  -- Each component of a sound state takes a packet.
  pub Sane-Taken :
      (w : World) (this p : Ptr)
      → Copyable w
      → Sane e w
      → is_there (w.component this) ≡ true
      → Held w p
      → Ends (λ _ u. Taken w p u) (forward e 2 this p w)
  Sane-Taken w this p sizes sane there held = elim (sane.works this there) [
    | inl port ↦
        forward-Taken e fifo laws memory w this p port sizes sane.owned sane.sound sane.tables held
          1
    | inr line ↦ Line-Taken w this p sizes sane line held
  ]

abbrev pub box_there : Option Composite → Bool
box_there none = false
box_there (some b) = true

box_there-outline : (o : Option Composite) → box_there (outline o) ≡ box_there o
box_there-outline none = refl
box_there-outline (some b) = refl

-- A step between safe states, which leaves the manager as it is, and the nodes where they are.
pub record Stays (e : Env) (w u : World) : Type 0 where
  pub safe : Safe e u
  pub manager : u.manager ≡ w.manager
  pub parts : (a : Ptr) → is_there (u.component a) ≡ is_there (w.component a)
  pub boxes : (a : Ptr) → box_there (u.composite a) ≡ box_there (w.composite a)

pub same_box :
    (w v : World) → Shape w v → (a : Ptr) → box_there (v.composite a) ≡ box_there (w.composite a)
same_box w v s a =
    sym (box_there-outline (v.composite a))
    ∙ ap box_there (s.boxes a)
    ∙ box_there-outline (w.composite a)

-- Where a packet was at hand and was taken, the state is safe again.
pub Taken-Stays :
    (e : Env) (w v u : World) (p : Ptr) → Safe e w → Got w p v → Taken v p u → Stays e w u
Taken-Stays e w v u p safe got taken = record {
  safe = record {
    sane =
        Sane-Shape e v u taken.shape taken.owned taken.sound
          (Sane-Shape e w v got.shape got.owned got.sound safe.sane);
    kept = λ x h. safe.kept x (got.lost x (taken.lost x h).0 (taken.lost x h).1);
  };
  manager = taken.shape.manager ∙ got.shape.manager;
  parts = λ a. same_there _ _ (taken.shape.same a) ∙ same_there _ _ (got.shape.same a);
  boxes = λ a. same_box v u taken.shape a ∙ same_box w v got.shape a;
}

-- Such a step where every packet can be copied, afterwards too.
pub record Steady (e : Env) (w u : World) : Type 0 where
  pub stays : Stays e w u
  pub sizes : Copyable u

pub Taken-Steady :
    (e : Env) (w v u : World) (p : Ptr)
    → Copyable w
    → Safe e w
    → Got w p v
    → Taken v p u
    → Steady e w u
Taken-Steady e w v u p sizes safe got taken = record {
  stays = Taken-Stays e w v u p safe got taken;
  sizes = taken.shape.packets (got.shape.packets sizes);
}

pub Stays-refl : (e : Env) (w : World) → Safe e w → Stays e w w
Stays-refl e w safe = record { safe = safe; manager = refl; parts = λ a. refl; boxes = λ a. refl }

pub Stays-trans : (e : Env) (w v u : World) → Stays e w v → Stays e v u → Stays e w u
Stays-trans e w v u s t = record {
  safe = t.safe;
  manager = t.manager ∙ s.manager;
  parts = λ a. t.parts a ∙ s.parts a;
  boxes = λ a. t.boxes a ∙ s.boxes a;
}
