-- ===== src/Client/Program.antt =====
-- main of source/src/client_main.cc after its command line: the client is created, asks, prints, and in the continuous
-- mode sleeps and asks again.
pub mod Shown
use link_layer_discovery.Base.{ℕ, List, [], ◌∷◌, Option, none, some, if◌then◌else◌, ◌>>=◌}
use link_layer_discovery.Base.Ints.{ℤ}
use link_layer_discovery.Base.Stream.{Stream}
use link_layer_discovery.Lldp.Log.{Ntop}
use link_layer_discovery.Opening.{Answers, Created, failed, created, create_client_receiver}
use link_layer_discovery.Client.Main.{Options, default_options, parse_args}
use link_layer_discovery.Client.Table.{print_table}
use link_layer_discovery.Client.Transport.{Received, ClientReceiverSocket, get_data_method}

-- The client, std::cout, and the arguments of sleep, the last one first.
pub record Running : Type 0 where
  pub client : ClientReceiverSocket
  pub cout : Stream
  pub sleeps : List ℤ

-- dumpNeighbourData of a client that receives these packets.
unfoldable pub dump_round : Ntop → List Received → Running → Option Running
dump_round ntop received r = do
  answer ← get_data_method received r.client
  some (record r { client = answer.1; cout = print_table ntop answer.0 r.cout })

-- The endless loop, as far as it has come: what GetData receives in each round.
unfoldable pub run_rounds : Ntop → ℤ → List (List Received) → Running → Option Running
run_rounds ntop timeout [] r = some r
run_rounds ntop timeout (received ∷ rest) r = do
  next ← dump_round ntop received r
  run_rounds ntop timeout rest (record next { sleeps = timeout ∷ next.sleeps })

-- Without "-c" there is one round.
unfoldable pub run_once : Ntop → List (List Received) → Running → Option Running
run_once ntop [] r = some r
run_once ntop (received ∷ rest) r = dump_round ntop received r

-- A client is made with the request id 1. Where it could not be made main uses it all the same.
unfoldable pub run_created :
    Ntop → Options → List (List Received) → Stream → Created → Option Running
run_created ntop o rounds cout failed = none
run_created ntop o rounds cout (created fd) =
    let r : Running = record {
      client = record { request_id = 1; requests = [] };
      cout = cout;
      sleeps = [];
    } in
    if o.run_continuous
    then run_rounds ntop o.continuous_timeout rounds r
    else run_once ntop rounds r

-- main
unfoldable pub run_client :
    Ntop → List (List ℕ) → Answers → List (List Received) → Stream → Option Running
run_client ntop args a rounds cout =
    run_created ntop (parse_args args default_options) rounds cout (create_client_receiver a []).0
