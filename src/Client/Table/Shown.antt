-- ===== src/Client/Table/Shown.antt =====
-- From the server's neighbour list to what the client prints: DumpData and GetData of source/src/client.cc, and
-- dumpNeighbourData of source/src/client_main.cc.
use link_layer_discovery.Base.{
  ℕ, suc, ◌+◌, ◌≤◌, ◌<◌, ◌≡◌, refl, sym, false, List, [], ◌∷◌, ◌++◌, append_assoc, append-nil, map,
  some, arith, All, All-append, length,
}
use link_layer_discovery.Base.Words.{IsByte}
use link_layer_discovery.Base.Key.{nat_key}
use link_layer_discovery.Base.Map.{Map, insert}
use link_layer_discovery.Base.Stream.{Stream, Prints, codes}
use link_layer_discovery.Sender.{LldpSender}
use link_layer_discovery.Monitor.Neighbours.{PortMap, NeighbourList}
use link_layer_discovery.Lldp.Log.{Ntop}
use link_layer_discovery.Client.Packet.{ClientPacket}
use link_layer_discovery.Client.Dump.{dump_data}
use link_layer_discovery.Client.Receive.{NeighbourDeviceData, Tables, packet}
use link_layer_discovery.Client.Yield.{with_neighbour}
use link_layer_discovery.Client.EndToEnd.{
  AreChassis, row_of, add_ports, add_chassis, no_tables, weight, get_data-dump_data,
}
use link_layer_discovery.Client.Table.{heading, print_table, dump_neighbour_data}
use link_layer_discovery.Client.Table.Text.{row_text, rows_text, HasPort, print_table-Prints}

-- Every key is below `n`.
abbrev IsBelow : ℕ → ℕ × NeighbourDeviceData → Type 0
IsBelow n p = p.0 < n

abbrev AllBelow : ℕ → Map ℕ NeighbourDeviceData → Type 0
AllBelow n m = All (IsBelow n) m

-- A key above all others goes to the end.
insert_last :
    (n : ℕ) (d : NeighbourDeviceData) (m : Map ℕ NeighbourDeviceData)
    → AllBelow n m
    → insert n d m ≡ m ++ ((n, d) ∷ [])
unfolding insert
insert_last n d [] below = refl
insert_last n d ((k, e) ∷ m) below = ground (arith, below.0, insert_last n d m below.1)

AllBelow-mono : (n l : ℕ) (m : Map ℕ NeighbourDeviceData) → n ≤ l → AllBelow n m → AllBelow l m
AllBelow-mono n l [] le below = tt
AllBelow-mono n l ((k, e) ∷ m) le below = (omega (arith, below.0), AllBelow-mono n l m le below.1)

-- The ports of the list are bytes.
abbrev pub PortBytes : PortMap → Type 0
PortBytes [] = Unit {0}
PortBytes ((p, e) ∷ ports) = All IsByte p × PortBytes ports

abbrev pub AreBytes : NeighbourList → Type 0
AreBytes [] = Unit {0}
AreBytes ((c, ports) ∷ m) = PortBytes ports × AreBytes m

module _ (ntop : Ntop) where
  rows_text-append :
      (xs ys : Map ℕ NeighbourDeviceData)
      → rows_text ntop (xs ++ ys) ≡ rows_text ntop xs ++ rows_text ntop ys
  rows_text-append [] ys = refl
  rows_text-append ((k, d) ∷ xs) ys =
      rw (rows_text-append xs ys)
        (sym (append_assoc (row_text ntop d) (rows_text ntop xs) (rows_text ntop ys)))

module _ (ntop : Ntop) (device_info : Map ℕ LldpSender) where
  -- The lines of the neighbours of one chassis, and of all, in the order of the list.
  abbrev pub port_lines : List ℕ → PortMap → List ℕ
  port_lines c [] = []
  port_lines c ((p, e) ∷ ports) = row_text ntop (row_of device_info c p e) ++ port_lines c ports

  abbrev pub lines : NeighbourList → List ℕ
  lines [] = []
  lines ((c, ports) ∷ m) = port_lines c ports ++ lines m

  -- The tables hold neighbours below `n`, whose lines are `out`.
  record Shows (n : ℕ) (out : List ℕ) (t : Tables) : Type 0 where
    below : AllBelow n t.neighbour_device_map
    ports : All HasPort t.neighbour_device_map
    text : rows_text ntop t.neighbour_device_map ≡ out

  with_neighbour-Shows :
      (n : ℕ) (out : List ℕ) (d : NeighbourDeviceData) (t : Tables)
      → All IsByte d.port
      → Shows n out t
      → Shows (suc n) (out ++ row_text ntop d) (with_neighbour n d t)
  with_neighbour-Shows n out d t bytes s =
      let m = t.neighbour_device_map in
      let last = insert_last n d m s.below in
      let one : Map ℕ NeighbourDeviceData = (n, d) ∷ [] in
      record {
        below = rw last (
            All-append (IsBelow (suc n)) m one (AllBelow-mono n (suc n) m (omega arith) s.below)
              (omega arith, tt));
        ports = rw last (All-append HasPort m one s.ports (bytes, tt));
        text = rw (last, rows_text-append ntop m one, s.text, append-nil) refl;
      }

  Shows-cast :
      (n l : ℕ) (out out' : List ℕ) (t : Tables)
      → n ≡ l
      → out ≡ out'
      → Shows n out t
      → Shows l out' t
  Shows-cast n l out out' t e e' s = rw (sym e, sym e') s

  add_ports-Shows :
      (c : List ℕ) (n : ℕ) (out : List ℕ) (ports : PortMap) (t : Tables)
      → PortBytes ports
      → Shows n out t
      → Shows (n + length ports) (out ++ port_lines c ports) (add_ports device_info c n ports t)
  add_ports-Shows c n out [] t bytes s =
      Shows-cast n (n + 0) out (out ++ []) t (omega arith) (sym (append-nil out)) s
  add_ports-Shows c n out ((p, e) ∷ ports) t bytes s =
      let d = row_of device_info c p e in
      let u = with_neighbour n d t in
      let line = row_text ntop d in
      let first = with_neighbour-Shows n out d t bytes.0 s in
      let rest = add_ports-Shows c (suc n) (out ++ line) ports u bytes.1 first in
      Shows-cast (suc n + length ports) (n + length ((p, e) ∷ ports)) _ _
        (add_ports device_info c (suc n) ports u) (omega arith)
        (append_assoc out line (port_lines c ports)) rest

  add_chassis-Shows :
      (k n : ℕ) (out : List ℕ) (m : NeighbourList) (t : Tables)
      → AreBytes m
      → Shows n out t
      → (l : ℕ) × Shows l (out ++ lines m) (add_chassis device_info k n m t)
  add_chassis-Shows k n out [] t bytes s =
      (n, Shows-cast n n out (out ++ []) t refl (sym (append-nil out)) s)
  add_chassis-Shows k n out ((c, ports) ∷ m) t bytes s =
      let named = record t { chassis_map = insert k c t.chassis_map } in
      let s' : Shows n out named = record { below = s.below; ports = s.ports; text = s.text } in
      let first = add_ports-Shows c n out ports named bytes.0 s' in
      let (l, rest) =
        add_chassis-Shows (suc k) (n + length ports) (out ++ port_lines c ports) m
          (add_ports device_info c n ports named) bytes.1 first in
      (
        l,
        Shows-cast l l _ _
            (add_chassis device_info (suc k) (n + length ports) m
              (add_ports device_info c n ports named))
            refl (append_assoc out (port_lines c ports) (lines m)) rest,
      )

  -- Where the identifiers, names and addresses fit the arrays of the packets, the list is not too long for the counters, and
  -- the ports are bytes, the server's dump is defined, and a client that receives it on a stream in decimal prints
  -- exactly the heading, one line for each neighbour of the server's list, in the order of the list, and an
  -- empty line.
  pub dump_neighbour_data-dump_data :
      (request_id : ℕ) (m : NeighbourList) (s : Stream)
      → AreChassis device_info m
      → weight device_info m < 65536
      → AreBytes m
      → s.hex ≡ false
      → (packets : List ClientPacket) × (dump_data device_info request_id m ≡ some packets)
        × ((t : Stream) × (dump_neighbour_data ntop (map packet packets) s ≡ some t)
            × Prints ((heading ++ lines m) ++ codes "\n") s t)
  unfolding dump_neighbour_data
  dump_neighbour_data-dump_data request_id m s fits small bytes decimal =
      let (packets, sent, received) = get_data-dump_data device_info request_id m fits small in
      let start : Shows 0 [] no_tables = record { below = tt; ports = tt; text = refl } in
      let (l, shown) = add_chassis-Shows 0 0 [] m no_tables bytes start in
      let table = (add_chassis device_info 0 0 m no_tables).neighbour_device_map in
      let printed = print_table-Prints ntop table s shown.ports decimal in
      (packets, sent, (print_table ntop table s, rw (received) refl, rw (sym shown.text) printed))
