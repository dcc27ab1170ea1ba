-- ===== src/Client/Program/Shown.antt =====
-- The client in its continuous mode, source/src/client_main.cc, with a server whose neighbour list changes between the
-- rounds.
use link_layer_discovery.Base.{
  ℕ, suc, ◌<◌, ◌≡◌, refl, ◌∙◌, true, false, List, [], ◌∷◌, ◌++◌, map, Option, some, arith, ◌>>=◌,
}
use link_layer_discovery.Base.Words.{u16}
use link_layer_discovery.Base.Ints.{ℤ}
use link_layer_discovery.Base.Key.{nat_key}
use link_layer_discovery.Base.Map.{Map}
use link_layer_discovery.Base.Stream.{Stream, Prints, Prints-append, Prints-nothing, codes}
use link_layer_discovery.Sender.{LldpSender}
use link_layer_discovery.Monitor.Neighbours.{NeighbourList}
use link_layer_discovery.Lldp.Log.{Ntop}
use link_layer_discovery.Descriptor.{is_valid}
use link_layer_discovery.Opening.{Answers, create_client_receiver}
use link_layer_discovery.Client.Packet.{ClientPacket}
use link_layer_discovery.Client.Dump.{dump_data}
use link_layer_discovery.Client.EndToEnd.{AreChassis, weight}
use link_layer_discovery.Client.Main.{default_options, parse_args}
use link_layer_discovery.Client.Table.{heading, dump_neighbour_data}
use link_layer_discovery.Client.Table.Shown.{AreBytes, lines, dump_neighbour_data-dump_data}
use link_layer_discovery.Client.Transport.{
  Received, ClientReceiverSocket, reading_of, get_data_method, whole, readings_whole,
}
use link_layer_discovery.Client.Program.{Running, dump_round, run_rounds, run_created, run_client}

-- The client after one more request.
abbrev pub asked : ClientReceiverSocket → ClientReceiverSocket
asked c = record { request_id = u16 (suc c.request_id); requests = c.request_id ∷ c.requests }

-- The client and its sleeps after a round for each list.
abbrev pub asked_each : List NeighbourList → ClientReceiverSocket → ClientReceiverSocket
asked_each [] c = c
asked_each (m ∷ ms) c = asked_each ms (asked c)

abbrev pub sleeps_each : ℤ → List NeighbourList → List ℤ → List ℤ
sleeps_each timeout [] sleeps = sleeps
sleeps_each timeout (m ∷ ms) sleeps = sleeps_each timeout ms (timeout ∷ sleeps)

-- What the client receives of these dumps.
abbrev pub received_each : List (List ClientPacket) → List (List Received)
received_each [] = []
received_each (packets ∷ dumps) = map whole packets ∷ received_each dumps

dump_round_lem :
    (ntop : Ntop) (received : List Received) (r : Running) (t : Stream)
    → dump_neighbour_data ntop (map reading_of received) r.cout ≡ some t
    → dump_round ntop received r ≡ some (record r { client = asked r.client; cout = t })
unfolding dump_round dump_neighbour_data get_data_method
dump_round_lem ntop received r t shown = grind (arith, shown)

module _ (ntop : Ntop) (device_info : Map ℕ LldpSender) where
  -- The dumps of the server, which has one of these lists at each request.
  abbrev pub serve : ℕ → List NeighbourList → Option (List (List ClientPacket))
  serve request_id [] = some []
  serve request_id (m ∷ ms) = do
    packets ← dump_data device_info request_id m
    rest ← serve (u16 (suc request_id)) ms
    some (packets ∷ rest)

  -- What identifies the neighbours fits the packets, and the ports are bytes.
  pub record IsShown (m : NeighbourList) : Type 0 where
    pub fits : AreChassis device_info m
    pub small : weight device_info m < 65536
    pub bytes : AreBytes m

  abbrev pub AreShown : List NeighbourList → Type 0
  AreShown [] = Unit {0}
  AreShown (m ∷ ms) = IsShown m × AreShown ms

  abbrev pub page : NeighbourList → List ℕ
  page m = (heading ++ lines ntop device_info m) ++ codes "\n"

  abbrev pub pages : List NeighbourList → List ℕ
  pages [] = []
  pages (m ∷ ms) = page m ++ pages ms

  run_rounds-serve :
      (timeout : ℤ) (ms : List NeighbourList) (r : Running)
      → AreShown ms
      → r.cout.hex ≡ false
      → (dumps : List (List ClientPacket)) × (serve r.client.request_id ms ≡ some dumps)
        × ((t : Stream) × (run_rounds ntop timeout (received_each dumps) r
              ≡ some (record {
                client = asked_each ms r.client;
                cout = t;
                sleeps = sleeps_each timeout ms r.sleeps;
              }))
            × Prints (pages ms) r.cout t)
  unfolding run_rounds
  run_rounds-serve timeout [] r shown decimal = ([], refl, (r.cout, refl, Prints-nothing r.cout))
  run_rounds-serve timeout (m ∷ ms) r shown decimal =
      let now = shown.0 in
      let (packets, sent, printed) =
        dump_neighbour_data-dump_data ntop device_info r.client.request_id m r.cout now.fits
          now.small now.bytes decimal in
      let (t, written, first) = printed in
      let after : Running = record {
        client = asked r.client;
        cout = t;
        sleeps = timeout ∷ r.sleeps;
      } in
      let (dumps, served, (u, ran, rest)) =
        run_rounds-serve timeout ms after shown.1 (first.same_base ∙ decimal) in
      let round =
        dump_round_lem ntop (map whole packets) r t (rw (readings_whole packets) written) in
      (packets ∷ dumps, rw (sent, served) refl, (u, rw round ran, Prints-append first rest))

  -- A client in the continuous mode that could be created, and that receives whole what the server dumps to it, whose lists fit
  -- the packets, are not too long for the counters, and have ports of bytes: the dumps are defined, and on a stream in
  -- decimal the client prints, for each of the server's lists in turn, exactly the heading, one line for each
  -- neighbour, in the order of the list, and an empty line. It has sent one request for each list, with the ids from
  -- 1 on, which wrap around, and has slept after each for the time of the command line.
  pub run_client-serve :
      (args : List (List ℕ)) (a : Answers) (ms : List NeighbourList) (cout : Stream)
      → (parse_args args default_options).run_continuous ≡ true
      → is_valid a.fd ≡ true
      → a.set_up ≡ true
      → AreShown ms
      → cout.hex ≡ false
      → (dumps : List (List ClientPacket)) × (serve 1 ms ≡ some dumps)
        × ((r : Running) × (run_client ntop args a (received_each dumps) cout ≡ some r)
            × (r.client ≡ asked_each ms (record { request_id = 1; requests = [] }))
            × (r.sleeps ≡ sleeps_each (parse_args args default_options).continuous_timeout ms [])
            × Prints (pages ms) cout r.cout)
  unfolding run_client run_created create_client_receiver
  run_client-serve args a ms cout continuous opened set_up shown decimal =
      let timeout = (parse_args args default_options).continuous_timeout in
      let start : Running = record {
        client = record { request_id = 1; requests = [] };
        cout = cout;
        sleeps = [];
      } in
      let (dumps, served, (t, ran, printed)) = run_rounds-serve timeout ms start shown decimal in
      let end : Running = record {
        client = asked_each ms start.client;
        cout = t;
        sleeps = sleeps_each timeout ms [];
      } in
      (dumps, served, (end, simp (opened, set_up, continuous) ran, refl, refl, printed))
