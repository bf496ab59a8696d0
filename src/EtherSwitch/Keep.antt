-- ===== src/EtherSwitch/Keep.antt =====
-- What the changes of a switch's table keep, src/ether_switch.c.
use netemul.Base.{
  ℕ, ◌≡◌, refl, Bool, true, Option, some, List, inl, inr, Bool-cases, arith, ap, subst, sym, ◌∙◌,
  ◌==◌,
}
use netemul.Node.{Ptr}
use netemul.Env.{Cache}
use netemul.Env.Laws.{Keyed}
use netemul.World.{World, Component, Composite, Packet}
use netemul.World.Run.{write}
use netemul.Ownership.{
  keep-Waiting, Owned, Held, Sound, Shape, Shape-trans, Tables, is_there, skeleton,
}
use netemul.Ownership.Hold.{Keeps, Held-same}
use netemul.Switch.Broadcast.{SwitchPort}
use netemul.EtherSwitch.Learn.{retable_outline, Learnt}
use netemul.EtherSwitch.Ports.{Known}

-- The state with another table of a switch.
abbrev pub tabled : World → Ptr → Composite → Cache → World
tabled u s b t = record u { composite = write u.composite s (some (record b { table = some t })) }

module _ (u : World) (s : Ptr) (b : Composite) (t : Cache) (there : u.composite s ≡ some b)
    (old : Cache) (had : b.table ≡ some old)
    (good : Tables u → Keyed t.entries × Known (λ a. is_there (u.component a)) t.entries) where
  tabled-Tables : Tables u → Tables (tabled u s b t)
  tabled-Tables tables r d c at has = elim (Bool-cases (r == s)) [
    | inl y ↦
        subst (λ (x : Cache). Keyed x.entries × Known (λ a. is_there (u.component a)) x.entries)
          (same y) (good tables)
    | inr n ↦ tables r d c (ground (arith, at)) has
  ]
    where
      same : (r == s) ≡ true → t ≡ c
      same y = ground (arith, at, has)

  pub tabled-Shape : Shape u (tabled u s b t)
  tabled-Shape = record {
    same = λ a. refl;
    boxes = λ a. ground (arith, there, retable_outline b t old had);
    manager = refl;
    interfaces = refl;
    waiting = λ h. h;
    packets = λ h. h;
    tables = tabled-Tables;
  }

  pub tabled-Keeps : {w : World} {p : Ptr} → Keeps w p u → Keeps w p (tabled u s b t)
  tabled-Keeps k = record {
    owned = record {
      stored = k.owned.stored;
      once = k.owned.once;
      apart = k.owned.apart;
      fresh = k.owned.fresh;
      timed_stored = k.owned.timed_stored;
      timed_once = k.owned.timed_once;
      timed_apart = k.owned.timed_apart;
    };
    held = Held-same u (tabled u s b t) refl refl refl _ k.held;
    sound = k.sound;
    shape = Shape-trans k.shape tabled-Shape;
    lost = λ x h. k.lost x (Held-same (tabled u s b t) u refl refl refl x h);
  }

module _ (w : World) (this p : Ptr) (ns : List (Option Ptr)) (at : SwitchPort w this ns) (c : Cache)
    (mac : ℕ) (owned : Owned w) (sound : Sound w) (held : Held w p) (done : Bool) (u : World)
    (l : Learnt w at.switch at.composite c mac this done u) where
  pub same_component : (a : Ptr) → u.component a ≡ w.component a
  same_component a = ap (λ (h : Ptr → Option Component). h a) l.components

  pub same_packet : (a : Ptr) → u.packet a ≡ w.packet a
  same_packet a = ap (λ (h : Ptr → Option Packet). h a) l.packets

  update-Tables :
      is_there (w.component this) ≡ true
      → Known (λ a. is_there (w.component a)) c.entries
      → Tables w
      → Tables u
  update-Tables there known tables r d t at_r has = elim (Bool-cases (r == at.switch)) [
    | inl y ↦
        subst (λ (x : Cache). Keyed x.entries × Known (λ a. is_there (u.component a)) x.entries)
          (same y)
          (
            l.keyed,
            λ k v h.
                ap is_there (same_component v.port)
                ∙ l.ports (λ a. is_there (w.component a)) there known k v h,
          )
    | inr n ↦
        let (keyed, ports) = tables r d t (sym (l.others r (ground arith)) ∙ at_r) has in
        (keyed, λ k v h. ap is_there (same_component v.port) ∙ ports k v h)
  ]
    where
      same : (r == at.switch) ≡ true → l.table ≡ t
      same y = ground (arith, l.there, l.has_table, at_r, has)

  -- An update of the table keeps everything that the rest of the switch relies on.
  pub Learnt-Keeps :
      is_there (w.component this) ≡ true
      → Known (λ a. is_there (w.component a)) c.entries
      → Keeps w p u
  Learnt-Keeps there known = record {
    owned = record {
      stored = λ a r n. ground (arith, same_component a, same_packet r, owned.stored a r);
      once = λ a r. ground (arith, same_component a, owned.once a r);
      apart = λ a b r n. ground (arith, same_component a, same_component b, owned.apart a b r n);
      fresh = λ r n. ground (arith, same_packet r, owned.fresh r, l.next);
      timed_stored = λ r n. rw l.timers (owned.timed_stored r (sym (same_packet r) ∙ n));
      timed_once = λ r. rw l.timers (owned.timed_once r);
      timed_apart = λ a r. rw l.timers (rw (same_component a) (owned.timed_apart a r));
    };
    held = Held-same w u (sym l.components) (sym l.packets) (sym l.timers) p held;
    sound = λ a o h. ground (arith, same_component a, same_component o, sound a o);
    shape = record {
      same = λ a. ap skeleton (same_component a);
      boxes = λ a. ground (arith, l.others a, l.there, l.outlined, at.switch_there);
      manager = l.manager;
      interfaces = l.interfaces;
      waiting = keep-Waiting w u (λ a. ap skeleton (same_component a)) l.timers;
      tables = update-Tables there known;
      packets = λ h a k at. h a k (sym (same_packet a) ∙ at);
    };
    lost = λ x h. Held-same u w l.components l.packets l.timers x h;
  }
