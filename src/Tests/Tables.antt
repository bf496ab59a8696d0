-- ===== src/Tests/Tables.antt =====
-- The theorems on the MAC filtering table at the example network.
use netemul.Base.{◌≡◌, refl, some, arith}
use netemul.World.Ends.{Ends}
use netemul.Env.Model.{example_env, example_env-CacheLaws}
use netemul.Env.Laws.{entry}
use netemul.EtherSwitch.{mac_at, update_table, refresh}
use netemul.EtherSwitch.Learn.{Learnt, update_table-Learnt}
use netemul.EtherSwitch.Table.{refresh_keeps}
use netemul.Env.{Cache, MacTableEntity}
use netemul.Base.{[], ◌∷◌}
use netemul.Tests.{ether_switch, table, frame, known, linked}

update_table-Learnt_example :
    Ends (Learnt linked 13 ether_switch table 9 21) (update_table example_env 13 40 21 linked)
unfolding example_env mac_at
update_table-Learnt_example =
    update_table-Learnt example_env example_env-CacheLaws linked 13 40 21 ether_switch table frame
      refl refl (refl, refl, tt) refl refl

-- A second address, seen at the port 21.
abbrev other : MacTableEntity
other = record { port = 21; mac = 9; age = 120; timeout = 4000 }

abbrev full_table : Cache
full_table = record { capacity = 32; entries = (6, known) ∷ (9, other) ∷ [] }

refresh_keeps_example : entry (refresh example_env 9 20 4500 full_table).1.entries 6 ≡ some known
refresh_keeps_example =
    refresh_keeps example_env example_env-CacheLaws full_table 9 4500 20
      (refl, refl, (refl, refl, tt)) 6 known (omega arith) refl (omega arith)
