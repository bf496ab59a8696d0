-- ===== src/EtherSwitch.antt =====
-- src/ether_switch.c: the MAC filtering table, and how a switch sends a packet on by it. The table
-- keeps pointers to its entries in the source, so a write to an entry is a write in the table.
pub mod Table
pub mod Ports
pub mod Route
pub mod Keep
pub mod Send
pub mod Learn
use netemul.Base.{
  ℕ, ◌+◌, ◌*◌, ◌^◌, Bool, true, false, Option, none, some, List, [], ◌∷◌, ltb, ◌==◌, if◌then◌else◌,
}
use netemul.Node.{Ptr}
use netemul.Env.{Env, MacTableEntity, Cache}
use netemul.World.{Packet}
use netemul.World.Run.{
  Cmd, pure, ◌>>=◌, ◌>>◌, deref, found, load, load_composite, load_packet, update_composite,
  free_packet, malloc, read_clock,
}
use netemul.Component.{is_up}
use netemul.Switch.{unicast, broadcast}

-- Six bytes of the buffer, the first the least significant: a bit field of 48 bits.
unfoldable pub mac_at : Packet → ℕ → ℕ
mac_at p at =
    p.buffer at
    + 2 ^ 8 * p.buffer (at + 1)
    + 2 ^ 16 * p.buffer (at + 2)
    + 2 ^ 24 * p.buffer (at + 3)
    + 2 ^ 32 * p.buffer (at + 4)
    + 2 ^ 40 * p.buffer (at + 5)

-- `ether->dmac` and `ether->smac`
abbrev pub dmac : Packet → ℕ
dmac p = mac_at p p.start

abbrev pub smac : Packet → ℕ
smac p = mac_at p (p.start + 6)

-- A write to the entry that a key leads to.
unfoldable pub write_entry :
    ℕ → (MacTableEntity → MacTableEntity) → List (ℕ × MacTableEntity) → List (ℕ × MacTableEntity)
write_entry k f [] = []
write_entry k f ((j, v) ∷ es) = if j == k then (j, f v) ∷ es else (j, v) ∷ write_entry k f es

abbrev pub write_cache : ℕ → (MacTableEntity → MacTableEntity) → Cache → Cache
write_cache k f c = record c { entries = write_entry k f c.entries }

-- `current + 1000 * entity->age`
abbrev pub deadline : ℕ → ℕ → ℕ
deadline current age = current + 1000 * age

abbrev pub default_age : ℕ
default_age = 120

abbrev pub new_entry : ℕ → Ptr → ℕ → MacTableEntity
new_entry mac port current = record {
  port = port;
  mac = mac;
  age = default_age;
  timeout = deadline current default_age;
}

-- A loop ends where a removal fails, and goes on with what is left otherwise.
abbrev pub after_removal : Option Cache → Cache → (Cache → Bool × Cache) → Bool × Cache
after_removal none c f = (false, c)
after_removal (some c') c f = f c'

abbrev pub port_of : Option MacTableEntity → Option Ptr
port_of none = none
port_of (some v) = some v.port

module _ (e : Env) where
  -- The loop over the table: entries whose deadline has passed are removed.
  unfoldable pub purge : ℕ → List (ℕ × MacTableEntity) → Cache → Bool × Cache
  purge current [] c = (true, c)
  purge current ((k, v) ∷ es) c = elim (ltb v.timeout current) [
    | false ↦ purge current es c
    | true ↦ after_removal (e.cache_remove c v.mac) c (purge current es)
  ]

  -- An entry that is there: its deadline is renewed, the table purged, its port renewed.
  unfoldable pub refresh : ℕ → Ptr → ℕ → Cache → Bool × Cache
  unfolding write_entry purge
  refresh mac port current c =
      let renewed = write_cache mac (λ v. record v { timeout = deadline current v.age }) c in
      let (done, purged) = purge current renewed.entries renewed in
      if done
      then (true, write_cache mac (λ v. record v { port = port }) purged)
      else (false, purged)

  -- The result of `cache_set`
  unfoldable pub put_entry : Ptr → Option Cache → Cmd Bool
  unfolding update_composite
  put_entry switch none = pure false
  put_entry switch (some t) = do
    update_composite switch (λ c. record c { table = some t })
    pure true

  -- A source that is not in the table gets an entry, and one that is there is refreshed.
  unfoldable pub learn : Ptr → ℕ → Ptr → ℕ → Cache → Option MacTableEntity → Cmd Bool
  unfolding malloc put_entry update_composite refresh
  learn switch mac port current table none = do
    m ← malloc e
    deref m
    put_entry switch (e.cache_set table mac (new_entry mac port current))
  learn switch mac port current table (some _) = do
    let (done, t) = refresh mac port current table
    update_composite switch (λ c. record c { table = some t })
    pure done

  -- `update_table`, on the table of a switch
  unfoldable pub update_table : Ptr → Ptr → Ptr → Cmd Bool
  unfolding load_packet load_composite update_composite read_clock learn
  update_table switch packet port = do
    p ← load_packet packet
    s ← load_composite switch
    table ← found s.table
    let (entity, table) = e.cache_get table (smac p)
    update_composite switch (λ c. record c { table = some table })
    current ← read_clock e.timer_ms
    learn switch (smac p) port current table entity

  -- `cache_get` of the destination
  unfoldable pub lookup_port : Ptr → ℕ → Cmd (Option Ptr)
  unfolding load_composite update_composite
  lookup_port switch mac = do
    s ← load_composite switch
    table ← found s.table
    let (entity, table) = e.cache_get table mac
    update_composite switch (λ c. record c { table = some table })
    pure (port_of entity)

  -- To a port that is known, but not to the one it came from; to all ports otherwise.
  unfoldable pub send_to : Option Ptr → Ptr → Ptr → Cmd Bool
  unfolding broadcast unicast
  send_to none this packet = broadcast e this packet
  send_to (some d) this packet = if d == this then pure false else unicast e d packet

  -- Where a packet goes whose source has been learnt: `false` if it has to be freed.
  unfoldable pub route : Ptr → Ptr → Ptr → Cmd Bool
  unfolding load_packet lookup_port send_to
  route switch this packet = do
    p ← load_packet packet
    dst ← lookup_port switch (dmac p)
    send_to dst this packet

  -- `ether_switch_send`
  unfoldable pub send_ether : Ptr → Ptr → Cmd (Unit {0})
  unfolding is_up load update_table route free_packet
  send_ether this packet = do
    up ← is_up this
    if up
        then (do
          c ← load this
          s ← deref c.owner
          learnt ← update_table s packet this
          if learnt
              then (do sent ← route s this packet; if sent then pure tt else free_packet packet)
              else free_packet packet)
        else free_packet packet
