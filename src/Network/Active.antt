-- ===== src/Network/Active.antt =====
-- `cmd_activate` and `cmd_deactivate` of src/command.c, and the remote calls that do the same, on a
-- safe network.
use netemul.Base.{
  ℕ, ◌≡◌, ◌≢◌, refl, Bool, true, false, Option, none, some, [], ◌∷◌, arith, sym, ap, ◌∙◌, inl, inr,
  has,
}
use netemul.Node.{Ptr, Name}
use netemul.Env.{Env, Cache}
use netemul.Env.Laws.{MapLaws, lookup}
use netemul.World.{World, Component, Composite, Ni, Manager}
use netemul.World.Run.{
  write, ◌>>◌, update, update_composite, load, store, load_composite, store_composite, pure,
}
use netemul.World.Ends.{Ends, ends, follow, weaken}
use netemul.Ownership.{Owned, Sound, Tables, Copyable, is_there, delays}
use netemul.Switch.Port.{owner_of}
use netemul.Network.Methods.{Port, is_ether, has_table}
use netemul.Network.Safe.{Safe, Sane, Line, Attached, error_of, box_there, Stays, Steady}
use netemul.Network.Alike.{
  Alike, by_part, by_box, table_of, there_alike, output_alike, queue_alike, cable_alike,
  Owned-Alike, Held-Alike, SwitchPort-Alike,
}
use netemul.Manager.{NodeRef, component, composite, fits_name}
use netemul.Manager.Names.{NoDots}
use netemul.Manager.Lookup.{get_node-name}
use netemul.Command.{done, set_active, cmd_activate, cmd_deactivate}
use netemul.Rpc.{on_handler, off_handler}

with_table :
    (o : Option Composite) (c : Cache)
    → table_of o ≡ some c
    → (b : Composite) × (o ≡ some b) × (b.table ≡ some c)
with_table none c h = absurd (ground (arith, h))
with_table (some b) c h = (b, refl, h)

module _ (e : Env) (w v : World) (s : Alike w v) where
  Port-Alike : (p : Ptr) → Port w p → Port v p
  Port-Alike p port = record {
    nodes = port.nodes;
    at = SwitchPort-Alike w v s p port.nodes port.at;
    not_cable = cable_alike w v s p ∙ port.not_cable;
    tabled = λ r ether owner.
        by_box has_table (λ b. refl) _ _ (s.boxes r)
        ∙ port.tabled r (sym (by_part is_ether (λ c. refl) _ _ (s.same p)) ∙ ether)
            (sym (by_part owner_of (λ c. refl) _ _ (s.same p)) ∙ owner);
  }

  Line-Alike : (p : Ptr) → Line e w p → Line e v p
  Line-Alike p l = record {
    out = l.out;
    leads = output_alike w v s p ∙ l.leads;
    exact = ap e.double_nonzero (by_part error_of (λ c. refl) _ _ (s.same p)) ∙ l.exact;
    cable = cable_alike w v s p ∙ l.cable;
    port = Port-Alike l.out l.port;
  }

  Attached-Alike : (fd : ℕ) → Attached w fd → Attached v fd
  Attached-Alike fd a = record {
    ni = a.ni;
    interface = a.interface;
    listed = ap (λ (m : Manager). m.nis fd) s.manager ∙ a.listed;
    there = ap (λ (f : Ptr → Option Ni). f a.ni) s.interfaces ∙ a.there;
    port = Port-Alike a.interface.port a.port;
  }

  Sound-Alike : Sound w → Sound v
  Sound-Alike sound a o h = queue_alike w v s o ∙ sound a o (sym (output_alike w v s a) ∙ h)

  Tables-Alike : Tables w → Tables v
  Tables-Alike tables r b c at table =
      let (b', at', table') =
        with_table (w.composite r) c
          (sym (by_box table_of (λ b. refl) _ _ (s.boxes r)) ∙ ap table_of at ∙ table) in
      let (keyed, known) = tables r b' c at' table' in
      (keyed, λ k x h. there_alike w v s x.port ∙ known k x h)

  pub Sane-Alike : Owned v → Sane e w → Sane e v
  Sane-Alike owned sane = record {
    owned = owned;
    sound = Sound-Alike sane.sound;
    tables = Tables-Alike sane.tables;
    waiting = λ a h. cable_alike w v s a ∙ sane.waiting a (ap (delays a) (sym s.timers) ∙ h);
    works = λ p h. elim (sane.works p (sym (there_alike w v s p) ∙ h)) [
      | inl port ↦ inl (Port-Alike p port)
      | inr line ↦ inr (Line-Alike p line)
    ];
    listed = λ p h.
        queue_alike w v s p
        ∙ sane.listed p (ap (λ (m : Manager). has p m.components) (sym s.manager) ∙ h);
    polled = λ fd h n.
        Attached-Alike fd
          (sane.polled fd (ap (λ (m : Manager). has fd m.fds) (sym s.manager) ∙ h) n);
  }

-- A node is found at a reference, with what `is_active` says.
abbrev pub active_of : World → NodeRef → Option Bool
active_of w (component p) = elim (w.component p) [ none ↦ none | some c ↦ some c.is_active ]
active_of w (composite p) = elim (w.composite p) [ none ↦ none | some b ↦ some b.is_active ]

-- One node is switched on or off. No other node is, and nothing else changes.
pub record Switched (w : World) (active : Bool) (n : NodeRef) (u : World) : Type 0 where
  pub switched : active_of u n ≡ some active
  pub others : (m : NodeRef) → m ≢ n → active_of u m ≡ active_of w m
  pub alike : Alike w u
  pub packets : u.packet ≡ w.packet
  pub next : u.next ≡ w.next
  pub readings : u.readings ≡ w.readings
  pub sent : u.sent ≡ w.sent

Switched-Stays :
    (e : Env) (w : World) (active : Bool) (n : NodeRef) (u : World)
    → Safe e w
    → Switched w active n u
    → Stays e w u
Switched-Stays e w active n u safe s = record {
  safe = record {
    sane =
        Sane-Alike e w u s.alike (Owned-Alike w u s.alike s.packets s.next safe.sane.owned)
          safe.sane;
    kept = λ p h. safe.kept p (Held-Alike w u s.alike s.packets p h);
  };
  manager = s.alike.manager;
  parts = there_alike w u s.alike;
  boxes = λ a. by_box box_there (λ b. refl) _ _ (s.alike.boxes a);
}

abbrev pub node_there : World → NodeRef → Bool
node_there w (component p) = is_there (w.component p)
node_there w (composite p) = box_there (w.composite p)

part_at : (o : Option Component) → is_there o ≡ true → (c : Component) × (o ≡ some c)
part_at none h = absurd (ground (arith, h))
part_at (some c) h = (c, refl)

box_at : (o : Option Composite) → box_there o ≡ true → (b : Composite) × (o ≡ some b)
box_at none h = absurd (ground (arith, h))
box_at (some b) h = (b, refl)

abbrev switched : World → Bool → Ptr → Component → World
switched w active p c = record w {
  component = write w.component p (some (record c { is_active = active }));
}

abbrev switched_box : World → Bool → Ptr → Composite → World
switched_box w active p b = record w {
  composite = write w.composite p (some (record b { is_active = active }));
}

part-Switched :
    (w : World) (active : Bool) (p : Ptr) (c : Component)
    → w.component p ≡ some c
    → Switched w active (component p) (switched w active p c)
part-Switched w active p c at = record {
  switched = ground arith;
  others = others;
  alike = record {
    same = λ a. ground (arith, at);
    boxes = λ a. refl;
    interfaces = refl;
    manager = refl;
    timers = refl;
  };
  packets = refl;
  next = refl;
  readings = refl;
  sent = refl;
}
  where
    others : (m : NodeRef) → m ≢ component p → active_of (switched w active p c) m ≡ active_of w m
    others (component a) n = ground (arith, n)
    others (composite a) n = refl

box-Switched :
    (w : World) (active : Bool) (p : Ptr) (b : Composite)
    → w.composite p ≡ some b
    → Switched w active (composite p) (switched_box w active p b)
box-Switched w active p b at = record {
  switched = ground arith;
  others = others;
  alike = record {
    same = λ a. refl;
    boxes = λ a. ground (arith, at);
    interfaces = refl;
    manager = refl;
    timers = refl;
  };
  packets = refl;
  next = refl;
  readings = refl;
  sent = refl;
}
  where
    others :
        (m : NodeRef) → m ≢ composite p → active_of (switched_box w active p b) m ≡ active_of w m
    others (component a) n = refl
    others (composite a) n = ground (arith, n)

-- Switching a node that is there on or off does not fail, and switches it alone: a port, a cable,
-- or a whole device.
pub set_active-Switched :
    (w : World) (active : Bool) (n : NodeRef)
    → node_there w n ≡ true
    → Ends (λ _ u. Switched w active n u) (set_active active n w)
unfolding set_active update load store update_composite load_composite store_composite
set_active-Switched w active (component p) there =
    let (c, at) = part_at (w.component p) there in rw at (ends (part-Switched w active p c at))
set_active-Switched w active (composite p) there =
    let (b, at) = box_at (w.composite p) there in rw at (ends (box-Switched w active p b at))

-- So a network stays safe, and its packets as they are.
pub set_active-Steady :
    (e : Env) (w : World) (active : Bool) (n : NodeRef)
    → Copyable w
    → Safe e w
    → node_there w n ≡ true
    → Ends (λ _ u. Steady e w u) (set_active active n w)
set_active-Steady e w active n sizes safe there =
    weaken (set_active-Switched w active n there) λ _ u s. record {
      stays = Switched-Stays e w active n u safe s;
      sizes = λ p k at. sizes p k (ap (λ f. f p) (sym s.packets) ∙ at);
    }

-- What a call that switches a node leaves: the node alone is switched, and the network is safe.
pub record Turned (e : Env) (w : World) (active : Bool) (n : NodeRef) (u : World) : Type 0 where
  pub only : Switched w active n u
  pub stays : Stays e w u

module _ (e : Env) (w : World) (safe : Safe e w) where
  then_ends :
      {A : Type 0} (active : Bool) (result : A) (n : NodeRef)
      → node_there w n ≡ true
      → Ends (λ r u. (r ≡ result) × Turned e w active n u) ((do set_active active n; pure result) w)
  then_ends active result n there =
      follow (set_active-Switched w active n there)
        λ _ u s. ends (refl, record { only = s; stays = Switched-Stays e w active n u safe s })

  module _ (maps : MapLaws e) (c : ℕ) (s : Name) (plain : NoDots (c ∷ s)) (box : Ptr)
      (registered : lookup w.manager.nodes (c ∷ s) ≡ some box) (fits : fits_name (c ∷ s) ≡ true)
      (there : box_there (w.composite box) ≡ true) where
    -- In a safe network, the commands and the remote calls that switch a device on or off, by the name
    -- with which it is registered, succeed if the name has no dot and fewer than eight bytes and the
    -- device is there: the device is on, or off, afterwards, no other node is switched, nothing else of
    -- the state changes, and the network stays safe.
    pub switching-Turned :
        (command : Name)
        → Ends
            (λ r u. (r ≡ done) × Turned e w true (composite box) u)
            (cmd_activate e (command ∷ (c ∷ s) ∷ []) w)
          × Ends
              (λ r u. (r ≡ done) × Turned e w false (composite box) u)
              (cmd_deactivate e (command ∷ (c ∷ s) ∷ []) w)
          × Ends (λ r u. (r ≡ true) × Turned e w true (composite box) u) (on_handler e (c ∷ s) w)
          × Ends (λ r u. (r ≡ true) × Turned e w false (composite box) u) (off_handler e (c ∷ s) w)
    unfolding cmd_activate cmd_deactivate on_handler off_handler
    switching-Turned command =
        let looked = get_node-name e maps w c s plain box registered fits in
        (
          rw looked (then_ends true done (composite box) there),
          rw looked (then_ends false done (composite box) there),
          rw looked (then_ends true true (composite box) there),
          rw looked (then_ends false true (composite box) there),
        )
