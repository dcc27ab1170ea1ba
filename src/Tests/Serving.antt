-- ===== src/Tests/Serving.antt =====
-- The server over events.
use link_layer_discovery.Base.{List, [], ◌∷◌, some, none, ◌≡◌, ◌≢◌, refl, arith, true}
use link_layer_discovery.Base.Ints.{pos, negsuc}
use link_layer_discovery.Base.Key.{nat_key}
use link_layer_discovery.Base.Map.{lookup}
use link_layer_discovery.Packet.Tlv
use link_layer_discovery.Packet.DataUnit
use link_layer_discovery.Monitor.Entry.{lldpdu_to_neighbour_entry, collect}
use link_layer_discovery.Monitor.Frames.{read_frame, entry_outcome, stored, undefined}
use link_layer_discovery.DeviceRepository.{World}
use link_layer_discovery.Server.{Server, Event, clock, frame, triggered, run}
use link_layer_discovery.Server.Run.{IsSound, run-IsSound}
use link_layer_discovery.Tests.{host, entry, neighbours, address, unit_bytes}

abbrev world : World
world = record {
  local = record {
    sync_timeout = negsuc 0;
    device_reader = record {
      reader_socket = record { is_valid = true; sequence_number = 1 };
      dump_request_sequence_number = none;
      dump_read_timeout = negsuc 0;
    };
    ip_reader = record {
      reader_socket = record { is_valid = true; sequence_number = 1 };
      dump_request_sequence_number = none;
      dump_read_timeout = negsuc 0;
    };
    devices = [];
  };
  kernel = record { pid = 1; sent = λ n. pos 32; requests = [] };
  senders = ([], host);
}

abbrev pub server : Server
server = record {
  neighbour_list = neighbours;
  world = world;
  dumping_enabled = true;
  dump_timer = 0;
  dumps = 0;
}

abbrev events : List Event
events = clock (triggered 1) ∷ frame address unit_bytes ∷ clock (triggered 2) ∷ []

frame_read : read_frame address unit_bytes ≡ stored entry
unfolding read_frame entry_outcome lldpdu_to_neighbour_entry collect DataUnit.from_span
    DataUnit.other_tlvs Tlv.from_span
frame_read = refl

frame_readable : read_frame address unit_bytes ≢ undefined
frame_readable = λ e. ground (arith, e, frame_read)

server-IsSound : IsSound server
unfolding lookup
server-IsSound = record {
  neighbours = record { ascending = (tt, tt); each = ((tt, tt), refl, tt) };
  local = record {
    indexed = record { ascending = tt; own_index = λ q d found. ground (arith, found) };
    covered = λ q h. ground (arith, h);
  };
}

run-IsSound_example : (s' : Server) × (run events server ≡ some s') × IsSound s'
run-IsSound_example = run-IsSound events server (tt, (frame_readable, (tt, tt))) server-IsSound
