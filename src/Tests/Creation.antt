-- ===== src/Tests/Creation.antt =====
-- The theorems on new components at the example network.
use netemul.Base.{refl, arith}
use netemul.Node.{NodeType}
use netemul.World.Ends.{Ends}
use netemul.Env.Model.{example_env, example_env-FifoLaws}
use netemul.Port.{port_create}
use netemul.Port.Create.{Fresh, Created, port_create-Created}
use netemul.Cable.{cable_create}
use netemul.Cable.Create.{CableCreated, cable_create-Created}
use netemul.Tests.{linked}

linked-Fresh : Fresh linked
linked-Fresh a h = ground arith

port_create-Created_example :
    Ends (Created NodeType.port linked) (port_create example_env NodeType.port linked)
    × Ends
        (Created NodeType.virtual_port linked)
        (port_create example_env NodeType.virtual_port linked)
    × Ends
        (Created NodeType.physical_port linked)
        (port_create example_env NodeType.physical_port linked)
unfolding example_env
port_create-Created_example =
    port_create-Created example_env example_env-FifoLaws linked linked-Fresh λ a h. refl

-- A cable of 1 GB/s that is to drop a third of the packets.
cable_create-Created_example :
    Ends
      (CableCreated
        (record {
          bandwidth = 1_000_000_000;
          output_closed = 0;
          error_rate = 0;
          drop_rate = 0;
          jitter = 0;
          latency = 7;
        })
        linked)
      (cable_create example_env 1_000_000_000 0 33 0 7 linked)
unfolding example_env
cable_create-Created_example =
    cable_create-Created example_env example_env-FifoLaws linked 1_000_000_000 0 33 0 7 linked-Fresh
