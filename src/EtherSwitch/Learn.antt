-- ===== src/EtherSwitch/Learn.antt =====
-- `update_table` and the routing of src/ether_switch.c.
use netemul.Base.{ℕ, ◌≤◌, ◌≢◌, ◌≡◌, refl, Bool, true, Option, none, some, arith, ◌∙◌, sym, suc}
use netemul.Node.{Ptr}
use netemul.Env.{Env, MacTableEntity, Cache}
use netemul.Env.Laws.{CacheLaws, entry, Keyed}
use netemul.World.{World, Composite, Packet}
use netemul.World.Run.{write}
use netemul.World.Ends.{Ends, ends, weaken}
use netemul.EtherSwitch.{update_table, learn, put_entry, refresh, smac, new_entry, deadline}
use netemul.Ownership.{outline}
use netemul.EtherSwitch.Ports.{Known, put-Known, refresh-Known}
use netemul.EtherSwitch.Table.{refresh_learns, refresh-Keyed}

-- A switch with another table has the same outline.
pub retable_outline :
    (b : Composite) (t c : Cache)
    → b.table ≡ some c
    → outline (some (record b { table = some t })) ≡ outline (some b)
retable_outline b t c has = ground (arith, has)

-- The state with another table of a switch.
abbrev pub with_table : World → Ptr → Composite → Cache → World
with_table w s b t = record w {
  composite = write w.composite s (some (record b { table = some t }));
}

-- What a table update leaves: components and packets as they were, a table with each address
-- once, and if it succeeded the source's address with the port it was seen at.
pub record Learnt (w : World) (s : Ptr) (b : Composite) (c : Cache) (mac : ℕ) (port : Ptr)
    (done : Bool) (w' : World) : Type 0 where
  pub components : w'.component ≡ w.component
  pub packets : w'.packet ≡ w.packet
  pub next : w.next ≤ w'.next
  pub timers : w'.timers ≡ w.timers
  pub manager : w'.manager ≡ w.manager
  pub interfaces : w'.ni ≡ w.ni
  pub others : (a : Ptr) → a ≢ s → w'.composite a ≡ w.composite a
  pub switch : Composite
  pub table : Cache
  pub entity : MacTableEntity
  pub there : w'.composite s ≡ some switch
  pub outlined : outline (some switch) ≡ outline (some b)
  pub has_table : switch.table ≡ some table
  pub keyed : Keyed table.entries
  pub learnt : done ≡ true → (entry table.entries mac ≡ some entity) × (entity.port ≡ port)
  pub ports :
      (known : Ptr → Bool) → known port ≡ true → Known known c.entries → Known known table.entries

module _ (e : Env) (laws : CacheLaws e) (s : Ptr) (mac : ℕ) (port : Ptr) (current : ℕ)
    (table : Cache) (keyed : Keyed table.entries) where
  put_entry-Learnt :
      (w : World) (b : Composite) (r : Option Cache)
      → w.composite s ≡ some b
      → b.table ≡ some table
      → e.cache_set table mac (new_entry mac port current) ≡ r
      → Ends (Learnt w s b table mac port) (put_entry e s r w)
  unfolding put_entry
  put_entry-Learnt w b none there has q = ends (record {
    components = refl;
    packets = refl;
    switch = b;
    table = table;
    entity = new_entry mac port current;
    there = there;
    has_table = has;
    keyed = keyed;
    learnt = λ q. cc;
    ports = λ known new ports. ports;
    next = omega arith;
    others = λ a n. refl;
    outlined = refl;
    timers = refl;
    manager = refl;
    interfaces = refl;
  })
  put_entry-Learnt w b (some t) there has q = rw there (
      ends (record {
        components = refl;
        packets = refl;
        switch = record b { table = some t };
        table = t;
        entity = new_entry mac port current;
        there = ground arith;
        has_table = refl;
        keyed = laws.set_keyed table t mac (new_entry mac port current) q refl keyed;
        learnt = λ _. (laws.set_lem table t mac (new_entry mac port current) q, refl);
        ports = λ known new ports. put-Known known e laws table t mac port current q new ports;
        next = omega arith;
        others = λ a n. ground arith;
        outlined = retable_outline b t table has;
        timers = refl;
        manager = refl;
        interfaces = refl;
      }))

  learn-Learnt :
      (w : World) (b : Composite) (r : Option MacTableEntity)
      → w.composite s ≡ some b
      → b.table ≡ some table
      → e.malloc_ok w.next ≡ true
      → entry table.entries mac ≡ r
      → Ends (Learnt w s b table mac port) (learn e s mac port current table r w)
  unfolding learn
  learn-Learnt w b none there has memory q = rw memory (
      weaken
        (put_entry-Learnt (record w { next = suc w.next }) b
          (e.cache_set table mac (new_entry mac port current)) there has refl)
        λ done u l. record {
          components = l.components;
          packets = l.packets;
          switch = l.switch;
          table = l.table;
          entity = l.entity;
          there = l.there;
          has_table = l.has_table;
          keyed = l.keyed;
          learnt = l.learnt;
          ports = l.ports;
          next = omega (arith, l.next);
          others = l.others;
          outlined = l.outlined;
          timers = l.timers;
          manager = l.manager;
          interfaces = l.interfaces;
        })
  learn-Learnt w b (some v) there has memory q = rw there (
      ends (record {
        components = refl;
        packets = refl;
        switch = record b { table = some (refresh e mac port current table).1 };
        table = (refresh e mac port current table).1;
        entity = record v { timeout = deadline current v.age; port = port };
        there = ground arith;
        has_table = refl;
        keyed = refresh-Keyed e laws table mac current port keyed;
        learnt = λ done. (refresh_learns e laws table mac current port keyed v q done, refl);
        ports = λ known new ports. refresh-Known known e laws table mac current port new ports;
        next = omega arith;
        others = λ a n. ground arith;
        outlined = retable_outline b (refresh e mac port current table).1 table has;
        timers = refl;
        manager = refl;
        interfaces = refl;
      }))

-- Updating the table of a switch by a packet does not fail if there is memory for an entry. It
-- changes nothing but the table, keeps each address in it once, and if it succeeds the table
-- leads from the packet's source to the port that the packet came by. It brings in no other port.
pub update_table-Learnt :
    (e : Env) (laws : CacheLaws e) (w : World) (s packet port : Ptr) (b : Composite) (c : Cache)
    (p : Packet)
    → w.composite s ≡ some b
    → b.table ≡ some c
    → Keyed c.entries
    → w.packet packet ≡ some p
    → e.malloc_ok w.next ≡ true
    → Ends (Learnt w s b c (smac p) port) (update_table e s packet port w)
unfolding update_table
update_table-Learnt e laws w s packet port b c p there has keyed at memory = rw at (
    rw there (
      rw has (
        rw there (
          weaken
            (learn-Learnt e laws s (smac p) port (e.timer_ms w.readings) (e.cache_get c (smac p)).1
              (laws.get_keyed c (smac p) keyed) read
              (record b { table = some (e.cache_get c (smac p)).1 }) (e.cache_get c (smac p)).0
              (ground arith) refl memory
              (laws.kept_lem c (smac p) (smac p) ∙ sym (laws.get_lem c (smac p))))
            λ done u l. record {
              components = l.components;
              packets = l.packets;
              switch = l.switch;
              table = l.table;
              entity = l.entity;
              there = l.there;
              has_table = l.has_table;
              keyed = l.keyed;
              learnt = l.learnt;
              ports = λ known new ports.
                  l.ports known new λ j v h. ports j v (sym (laws.kept_lem c (smac p) j) ∙ h);
              next = omega (arith, l.next);
              others = λ a n. ground (arith, l.others a n);
              outlined = l.outlined;
              timers = l.timers;
              manager = l.manager;
              interfaces = l.interfaces;
            }))))
  where
    read : World
    read = record w {
      composite = write w.composite s (some (record b { table = some (e.cache_get c (smac p)).1 }));
      readings = suc w.readings;
    }
