-- ===== src/Node/Tests.antt =====
-- A node with an RPC port, and one whose service is held by nothing else.
use irn.Base.{◌≡◌, refl, some, List, [], ◌∷◌, ok, Eq-String, filter_map}
use irn.Bus
use irn.JsonRpc
use irn.Primitives
use irn.JsonRpc.Service
use irn.Cli.{CliOpts, IpAddr}
use irn.JsonRpc.Service.{Received, RpcEvent, RpcService}
use irn.Network
use irn.Network.{Task, Network, NetworkCommand, Wake}
use irn.Node.{Node, Branch, start, turn, handle_rpc}
use irn.OptionNext
use irn.Node.Happening.{Happening, arrivals, run, happen}
use irn.Node.Conservation
use irn.Node.Flowing
use irn.Node.Pipeline
use irn.Node.Taking
use irn.Node.Unheard
use irn.Node.Waiting
use irn.Primitives.Keys.{zeros, key_size}
use irn.Samples.{host}
use irn.Samples.Crates.{bincode, hasher, formats}

program : Unit {0}
unfolding run happen turn handle_rpc Bus.new Bus.create_subscription JsonRpc.parse_request
    JsonRpc.parse_method JsonRpc.parse_publish JsonRpc.parse_subscribe JsonRpc.get_string
    Service.serve_rpc_socket Service.event_of Service.poll_next OptionNext.poll_next Network.send
    Network.wake Network.wake_task Network.execute Network.poll_events Primitives.new
program = tt

abbrev options : CliOpts
options = record {
  network_id = "irn";
  secret = record { secret = zeros key_size; public = zeros key_size };
  verbose = 0;
  peer = record { ip = IpAddr.v4 0x0a000002; port = 44668 } ∷ [];
  addr = IpAddr.v4 0 ∷ [];
  port = 44668;
  rpc = some 8080;
  data_dir = "~/.walletconnect/";
}

-- Two clients, and the turns of the loop between what they send.
abbrev happenings : List Happening
happenings =
    Happening.opens
    ∷ Happening.serves 1 (Received.text "publish")
    ∷ Happening.turns Branch.rpc
    ∷ Happening.serves 2 (Received.text "subscribe")
    ∷ Happening.turns Branch.rpc
    ∷ Happening.turns Branch.bus
    ∷ []

run-IsUnheard_example :
    (u : Node) × (run host bincode hasher formats (start options 0) happenings ≡ ok u)
    × Unheard.IsUnheard u (arrivals hasher formats happenings)
run-IsUnheard_example =
    Unheard.run-IsUnheard host bincode hasher formats options 0 8080 (IpAddr.v4 0) [] happenings
      refl refl

-- The same with no websocket left open, so that the service is heard.
abbrev flowing : List Happening
flowing =
    Happening.serves 1 (Received.text "publish")
    ∷ Happening.serves 2 (Received.text "subscribe")
    ∷ Happening.turns Branch.rpc
    ∷ Happening.turns Branch.rpc
    ∷ Happening.turns Branch.bus
    ∷ []

abbrev service : RpcService
service = record {
  shared_state = record { identity = record { bytes = zeros key_size }; events = [] };
  servers = 0;
  sockets = 0;
}

abbrev task : Task
task = record { network_id = "irn"; swarm = Network.start "irn" 0; dialled = [] }

abbrev node : Node
node = record {
  network = record { netin = []; netout = []; task = some task };
  bus = Bus.new;
  apisvc = some service;
}

run-pipeline_example :
    let arrived = arrivals hasher formats flowing in
    (u : Node) × (run host bincode hasher formats node flowing ≡ ok u)
    × Flowing.Flows u
        (filter_map Waiting.message_event arrived)
        (filter_map Waiting.subscription_event arrived)
unfolding Bus.new
run-pipeline_example =
    Pipeline.run-pipeline host bincode hasher formats node task service flowing refl refl
      (tt, (tt, (tt, (tt, (tt, tt)))))

-- The same node with a connect command, which the task takes in between.
abbrev connecting : Node
connecting = record node {
  network = record { netin = []; netout = NetworkCommand.connect [] ∷ []; task = some task };
}

abbrev busy : List Happening
busy =
    Happening.serves 1 (Received.text "publish")
    ∷ Happening.turns Branch.rpc
    ∷ Happening.wakes (Wake.commanded 0)
    ∷ Happening.serves 2 (Received.text "subscribe")
    ∷ []

-- The node after it: the message waits for the network, the subscription for the service.
abbrev after : Node
after = record {
  network = record {
    netin = [];
    netout = NetworkCommand.gossip_message (Primitives.new 7 (104 ∷ 105 ∷ [])) ∷ [];
    task = some (record task { dialled = [] ∷ [] });
  };
  bus = Bus.new;
  apisvc = some (record service {
    shared_state = record {
      identity = record { bytes = zeros key_size };
      events = RpcEvent._subscription 7 2 ∷ [];
    };
  });
}

run-Conserves_example :
    Conservation.Conserves connecting after service
      (Taking.taken host bincode hasher formats connecting busy)
      (arrivals hasher formats busy)
unfolding program
run-Conserves_example =
    Conservation.run-Conserves host bincode hasher formats busy connecting after service
      {t = record task { dialled = [] ∷ [] }} refl refl refl
