-- ===== src/Client/EndToEnd.antt =====
-- A dump of source/src/client.cc from end to end: DumpData on the server, GetData on the client.
use link_layer_discovery.Base.{
  ℕ, zero, suc, ◌+◌, ◌-◌, ◌*◌, ◌≤◌, ◌<◌, List, [], ◌∷◌, ◌++◌, map, Option, none, some, length, ◌≡◌,
  refl, ap, arith, All, take-append_self,
}
use link_layer_discovery.Base.Words.{u16}
use link_layer_discovery.Base.Key.{nat_key}
use link_layer_discovery.Base.Map.{Map, lookup, insert, lookup-insert}
use link_layer_discovery.Sender.{LldpSender}
use link_layer_discovery.Sender.Delivery.{HasSize}
use link_layer_discovery.Monitor.Entry
use link_layer_discovery.Monitor.Neighbours.{PortMap, NeighbourList}
use link_layer_discovery.Client.Packet.{
  ChassisEntry, end_of_data, chassis_entry, ClientPacket, client_packet, read_data_packet, zeros,
}
use link_layer_discovery.Client.Packet
use link_layer_discovery.Client.Packet.RoundTrip.{FitsPacket, read_data_packet-client_packet}
use link_layer_discovery.Client.Dump.{
  chassis_entries, ip_entries, ipv6_entries, name_of, dump_neighbour, dump_ports, dump_chassis,
  dump_data,
}
use link_layer_discovery.Client.Receive.{
  NeighbourDeviceData, Tables, Step, undefined, stop, next, process_data_packet, packet,
  process_reading, get_data_from, get_data,
}
use link_layer_discovery.Client.Yield.{
  process_all, Yields, Yields-append, with_neighbour, IsName, padded,
}
use link_layer_discovery.Client.Parts.{
  row, Sends, ip_entries-Yields, ipv6_entries-Yields, local_interface_entries-Sends,
  neighbour_entries-Sends,
}

u16_small : (n : ℕ) → n < 65536 → u16 n ≡ n
u16_small n h = omega arith

chassis_entries-Yields :
    (k : ℕ) (c : List ℕ) (t : Tables)
    → k < 65536
    → length c ≤ 508
    → Yields (chassis_entries k c) 1 t (record t { chassis_map = insert k c t.chassis_map })
unfolding chassis_entries process_data_packet
chassis_entries-Yields k c t small fits =
    let zs = zeros (508 - length c) in
    let e : ChassisEntry = record { chassis_id = k; name_length = length c; name = c ++ zs } in
    let whole : Yields (chassis_entry e ∷ []) 1 t
        (record t { chassis_map = insert k c t.chassis_map }) =
      record {
        fits = ((small, omega arith, padded 508 c fits), tt);
        short = omega arith;
        run = ground (arith, fits, take-append_self c zs);
      } in
    ground (arith, fits, whole)

module _ (device_info : Map ℕ LldpSender) where
  -- The name of the local interface of an entry.
  abbrev pub local_name : Entry.NeighbourEntry → Option (List ℕ)
  local_name e = name_of (lookup e.interface_index device_info)

  -- The sizes that fit the arrays of the packets.
  pub record IsDeliverable (p : List ℕ) (e : Entry.NeighbourEntry) : Type 0 where
    pub port_fits : length p ≤ 506
    pub index_fits : e.interface_index < 65536
    pub name_fits : IsName (local_name e)
    pub ipv4_size : HasSize 4 e.ipv4_address
    pub ipv6_size : HasSize 16 e.ipv6_address

  abbrev pub ArePorts : PortMap → Type 0
  ArePorts [] = Unit {0}
  ArePorts ((p, e) ∷ ports) = IsDeliverable p e × ArePorts ports

  abbrev pub AreChassis : NeighbourList → Type 0
  AreChassis [] = Unit {0}
  AreChassis ((c, ports) ∷ m) = (length c ≤ 508) × ArePorts ports × AreChassis m

  -- The record that stands for a neighbour.
  abbrev pub row_of : List ℕ → List ℕ → Entry.NeighbourEntry → NeighbourDeviceData
  row_of c p e = row c p (local_name e) e.ipv4_address e.ipv6_address

  -- The specification: the neighbours, numbered from `n`.
  abbrev pub add_ports : List ℕ → ℕ → PortMap → Tables → Tables
  add_ports c n [] t = t
  add_ports c n ((p, e) ∷ ports) t = add_ports c (suc n) ports (with_neighbour n (row_of c p e) t)

  abbrev pub add_chassis : ℕ → ℕ → NeighbourList → Tables → Tables
  add_chassis k n [] t = t
  add_chassis k n ((c, ports) ∷ m) t =
      add_chassis (suc k) (n + length ports) m
        (add_ports c n ports (record t { chassis_map = insert k c t.chassis_map }))

  dump_neighbour-Sends :
      (k n : ℕ) (c p : List ℕ) (e : Entry.NeighbourEntry) (t : Tables)
      → k < 65536
      → n < 65536
      → IsDeliverable p e
      → lookup k t.chassis_map ≡ some c
      → Sends (dump_neighbour device_info k n p e) 4 t (with_neighbour n (row_of c p e) t)
  unfolding dump_neighbour
  dump_neighbour-Sends k n c p e t known small d found =
      let first = neighbour_entries-Sends k n c p t known small d.port_fits found in
      let second =
        local_interface_entries-Sends n e.interface_index c p (local_name e) t small d.index_fits
          d.name_fits in
      let third = ip_entries-Yields n c p (local_name e) e.ipv4_address t small d.ipv4_size in
      let fourth =
        ipv6_entries-Yields n c p (local_name e) e.ipv4_address e.ipv6_address t small
          d.ipv6_size in
      record {
        entries =
            first.entries
            ++ (second.entries ++ (ip_entries n e.ipv4_address ++ ipv6_entries n e.ipv6_address));
        defined = rw (first.defined, second.defined) refl;
        yields =
            Yields-append first.yields (Yields-append second.yields (Yields-append third fourth));
      }

  -- A part of the dump that also returns the next number.
  record SendsPorts (o : Option (List Packet.Entry × ℕ)) (last bound : ℕ) (t t' : Tables)
      : Type 0 where
    entries : List Packet.Entry
    defined : o ≡ some (entries, last)
    yields : Yields entries bound t t'

  dump_ports-Sends :
      (k n : ℕ) (c : List ℕ) (ports : PortMap) (t : Tables)
      → k < 65536
      → n + length ports < 65536
      → ArePorts ports
      → lookup k t.chassis_map ≡ some c
      → SendsPorts
          (dump_ports device_info k n ports)
          (n + length ports)
          (4 * length ports)
          t
          (add_ports c n ports t)
  unfolding dump_ports
  dump_ports-Sends k n c [] t known small d found = record {
    entries = [];
    defined = ground arith;
    yields = record { fits = tt; short = omega arith; run = refl };
  }
  dump_ports-Sends k n c ((p, e) ∷ ports) t known small d found =
      let one = with_neighbour n (row_of c p e) t in
      let first = dump_neighbour-Sends k n c p e t known (omega arith) d.0 found in
      let rest = dump_ports-Sends k (suc n) c ports one known (omega arith) d.1 found in
      let all = Yields-append first.yields rest.yields in
      record {
        entries = first.entries ++ rest.entries;
        defined = rw (first.defined, u16_small (suc n) (omega arith), rest.defined) (ground arith);
        yields = record { fits = all.fits; short = omega (arith, all.short); run = all.run };
      }

  -- How many entries a list may take.
  abbrev pub weight : NeighbourList → ℕ
  weight [] = 0
  weight ((c, ports) ∷ m) = suc (4 * length ports + weight m)

  dump_chassis-Sends :
      (k n : ℕ) (m : NeighbourList) (t : Tables)
      → k + weight m < 65536
      → n + weight m < 65536
      → AreChassis m
      → Sends (dump_chassis device_info k n m) (weight m) t (add_chassis k n m t)
  unfolding dump_chassis
  dump_chassis-Sends k n [] t known small d = record {
    entries = [];
    defined = refl;
    yields = record { fits = tt; short = omega arith; run = refl };
  }
  dump_chassis-Sends k n ((c, ports) ∷ m) t known small d =
      let named = record t { chassis_map = insert k c t.chassis_map } in
      let found : lookup k named.chassis_map ≡ some c =
        ground (arith, lookup-insert k k c t.chassis_map) in
      let first = chassis_entries-Yields k c t (omega arith) d.0 in
      let second = dump_ports-Sends k n c ports named (omega arith) (omega arith) d.1 found in
      let rest =
        dump_chassis-Sends (suc k) (n + length ports) m (add_ports c n ports named) (omega arith)
          (omega arith) d.2 in
      let all = Yields-append first (Yields-append second.yields rest.yields) in
      record {
        entries = chassis_entries k c ++ (second.entries ++ rest.entries);
        defined = rw (second.defined, u16_small (suc k) (omega arith), rest.defined) refl;
        yields = record { fits = all.fits; short = omega (arith, all.short); run = all.run };
      }

-- What a read packet does, where it is known what it carries.
process_reading_lem :
    (rid : ℕ) (e : Packet.Entry) (t : Tables)
    → FitsPacket e
    → process_reading t (packet (client_packet rid e)) ≡ process_data_packet t e
unfolding process_reading
process_reading_lem rid e t fits =
    ap (λ o. elim o as (λ _. Step) [ none ↦ stop | some e' ↦ process_data_packet t e' ])
      (read_data_packet-client_packet rid e fits)

process_end :
    (rid : ℕ) (t : Tables) → process_reading t (packet (client_packet rid end_of_data)) ≡ stop
unfolding process_data_packet
process_end rid t = process_reading_lem rid end_of_data t tt

get_data_from_lem :
    (fuel rid : ℕ) (l : List Packet.Entry) (t t' : Tables)
    → All FitsPacket l
    → length l < fuel
    → process_all l t ≡ next t'
    → get_data_from fuel (map packet (map (client_packet rid) (l ++ (end_of_data ∷ [])))) t
      ≡ some t'.neighbour_device_map
unfolding get_data_from
get_data_from_lem zero rid l t t' fits short run = absurd (omega arith)
get_data_from_lem (suc fuel) rid [] t t' fits short run =
    rw (process_end rid t, get_data_from) (ground (arith, run))
get_data_from_lem (suc fuel) rid (e ∷ l) t t' fits short run =
    let after = map packet (map (client_packet rid) (l ++ (end_of_data ∷ []))) in
    rw (process_reading_lem rid e t fits.0, get_data_from)
      (elim (process_data_packet t e)
          as (λ s.
            elim s as (λ _. Step) [ undefined ↦ undefined | stop ↦ stop | next u ↦ process_all l u ]
              ≡ next t'
            → elim s as (λ _. Option (Map ℕ NeighbourDeviceData)) [
              | undefined ↦ none
              | stop ↦ some t.neighbour_device_map
              | next u ↦ get_data_from fuel after u
            ]
              ≡ some t'.neighbour_device_map) [
                | undefined ↦ λ h. ground (arith, h)
                | stop ↦ λ h. ground (arith, h)
                | next u ↦ λ h. get_data_from_lem fuel rid l u t' fits.1 (omega arith) h
              ]
        run)

-- The tables before the first packet.
abbrev pub no_tables : Tables
no_tables = record { chassis_map = []; neighbour_device_map = [] }

-- Where the identifiers, names and addresses fit the arrays of the packets, and the list is not too
-- long for the counters, the dump is defined, and a client that receives it has exactly one record
-- for each neighbour, numbered in the order of the list: its chassis, its port, the name of the local
-- interface, and its addresses.
pub get_data-dump_data :
    (device_info : Map ℕ LldpSender) (request_id : ℕ) (m : NeighbourList)
    → AreChassis device_info m
    → weight device_info m < 65536
    → (packets : List ClientPacket) × (dump_data device_info request_id m ≡ some packets)
      × (get_data (map packet packets)
          ≡ some (add_chassis device_info 0 0 m no_tables).neighbour_device_map)
unfolding dump_data
get_data-dump_data device_info rid m d small =
    let all = dump_chassis-Sends device_info 0 0 m no_tables (omega arith) (omega arith) d in
    (
      map (client_packet rid) (all.entries ++ (end_of_data ∷ [])),
      rw (all.defined) refl,
      get_data_from_lem 100000 rid all.entries no_tables (add_chassis device_info 0 0 m no_tables)
          all.yields.fits (omega (arith, all.yields.short)) all.yields.run,
    )
