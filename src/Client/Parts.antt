-- ===== src/Client/Parts.antt =====
-- The parts of one neighbour's dump, source/src/client.cc, and what each adds to the record of the client.
use link_layer_discovery.Base.{
  ℕ, ◌-◌, ◌≤◌, ◌<◌, List, [], ◌∷◌, ◌++◌, Option, none, some, length, ◌≡◌, refl, ap, ◌∙◌, arith,
  take-append_self,
}
use link_layer_discovery.Base.Key.{nat_key}
use link_layer_discovery.Base.Map.{lookup}
use link_layer_discovery.Sender.Delivery.{HasSize}
use link_layer_discovery.Client.Packet.{
  end_of_data, chassis_entry, neighbour_entry, ip_entry, ipv6_entry, local_interface_entry,
  ClientPacket, client_packet, read_data_packet, zeros,
}
use link_layer_discovery.Client.Packet
use link_layer_discovery.Client.Dump.{
  neighbour_entries, local_interface_entries, ip_entries, ipv6_entries,
}
use link_layer_discovery.Client.Receive.{
  NeighbourDeviceData, Tables, next, process_data_packet, touch_chassis, until_nul,
}
use link_layer_discovery.Client.Yield.{
  Yields, with_neighbour, change_neighbour-with_neighbour, IsName, until_nul_name, padded,
}

-- A record as far as it is filled in.
abbrev pub row :
    List ℕ → List ℕ → Option (List ℕ) → Option (List ℕ) → Option (List ℕ) → NeighbourDeviceData
row chassis port name ipv4 ipv6 = record {
  chassis = chassis;
  port = port;
  local_interface_name = name;
  ipv4_address = ipv4;
  ipv6_address = ipv6;
}

pub ip_entries-Yields :
    (n : ℕ) (c p : List ℕ) (name a : Option (List ℕ)) (t : Tables)
    → n < 65536
    → HasSize 4 a
    → Yields
        (ip_entries n a)
        1
        (with_neighbour n (row c p name none none) t)
        (with_neighbour n (row c p name a none) t)
unfolding ip_entries process_data_packet
ip_entries-Yields n c p name none t small size = record {
  fits = tt;
  short = omega arith;
  run = refl;
}
ip_entries-Yields n c p name (some a) t small size = record {
  fits = ((small, size), tt);
  short = omega arith;
  run = ap next (
      change_neighbour-with_neighbour n (λ d. record d { ipv4_address = some a })
        (row c p name none none) t);
}

pub ipv6_entries-Yields :
    (n : ℕ) (c p : List ℕ) (name a b : Option (List ℕ)) (t : Tables)
    → n < 65536
    → HasSize 16 b
    → Yields
        (ipv6_entries n b)
        1
        (with_neighbour n (row c p name a none) t)
        (with_neighbour n (row c p name a b) t)
unfolding ipv6_entries process_data_packet
ipv6_entries-Yields n c p name a none t small size = record {
  fits = tt;
  short = omega arith;
  run = refl;
}
ipv6_entries-Yields n c p name a (some b) t small size = record {
  fits = ((small, size), tt);
  short = omega arith;
  run = ap next (
      change_neighbour-with_neighbour n (λ d. record d { ipv6_address = some b })
        (row c p name a none) t);
}

-- A part of the dump that is defined, and what it yields.
pub record Sends (o : Option (List Packet.Entry)) (bound : ℕ) (t t' : Tables) : Type 0 where
  pub entries : List Packet.Entry
  pub defined : o ≡ some entries
  pub yields : Yields entries bound t t'

pub local_interface_entries-Sends :
    (n index : ℕ) (c p : List ℕ) (name : Option (List ℕ)) (t : Tables)
    → n < 65536
    → index < 65536
    → IsName name
    → Sends
        (local_interface_entries n index name)
        1
        (with_neighbour n (row c p none none none) t)
        (with_neighbour n (row c p name none none) t)
unfolding local_interface_entries process_data_packet
local_interface_entries-Sends n index c p none t small short fits = record {
  entries = [];
  defined = refl;
  yields = record { fits = tt; short = omega arith; run = refl };
}
local_interface_entries-Sends n index c p (some name) t small short fits = record {
  entries =
      local_interface_entry
        (record { neighbour_id = n; if_index = index; name = name ++ zeros (16 - length name) })
      ∷ [];
  defined = ground (arith, fits);
  yields = record {
    fits = ((small, omega arith, padded 16 name fits.0), tt);
    short = omega arith;
    run = ap next (
        change_neighbour-with_neighbour n
          (λ d. record d {
            local_interface_name =
                some (until_nul ((name ++ zeros (16 - length name)) ++ zeros 490));
          })
          (row c p none none none) t
        ∙ ap (λ x. with_neighbour n (row c p (some x) none none) t)
            (until_nul_name name (16 - length name) 490 fits.1));
  };
}

pub neighbour_entries-Sends :
    (k n : ℕ) (c p : List ℕ) (t : Tables)
    → k < 65536
    → n < 65536
    → length p ≤ 506
    → lookup k t.chassis_map ≡ some c
    → Sends (neighbour_entries k n p) 1 t (with_neighbour n (row c p none none none) t)
unfolding neighbour_entries process_data_packet touch_chassis
neighbour_entries-Sends k n c p t known small fits found = record {
  entries =
      neighbour_entry (record {
        chassis_id = k;
        neighbour_id = n;
        port_size = length p;
        neighbour_port = p ++ zeros (506 - length p);
      })
      ∷ [];
  defined = ground (arith, fits);
  yields = record {
    fits = ((known, small, omega arith, padded 506 p fits), tt);
    short = omega arith;
    run = ground (arith, fits, found, take-append_self p (zeros (506 - length p)));
  };
}
