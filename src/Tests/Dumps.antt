-- ===== src/Tests/Dumps.antt =====
-- Both dumps of the kernel, as bytes.
use link_layer_discovery.Base.{ℕ, [], ◌∷◌}
use link_layer_discovery.Netlink.{Header, AddrView}
use link_layer_discovery.Netlink.Batch.Addresses.{AddrDump}
use link_layer_discovery.Netlink.Batch.LinkDump.{LinkDump}
use link_layer_discovery.DeviceRepository.Cycle.{next_seq}
use link_layer_discovery.Tests.Packets.{link_message, waiting_world}

abbrev header : ℕ → ℕ → ℕ → Header
header len type seq = record {
  nlmsg_len = len;
  nlmsg_type = type;
  nlmsg_flags = 2;
  nlmsg_seq = seq;
  nlmsg_pid = 1;
}

-- The address 10.0.0.9 of the interface 3.
abbrev address_view : AddrView
address_view = record {
  header = header 32 20 (next_seq waiting_world);
  ifa_family = 2;
  ifa_flags = 0;
  ifa_index = 3;
  attributes = record { rta_type = 1; value = 10 ∷ 0 ∷ 0 ∷ 9 ∷ [] } ∷ [];
}

abbrev addresses : AddrDump
addresses = record {
  messages = record { prefix = 24; scope = 0; view = address_view } ∷ [];
  ending = header 20 3 (next_seq waiting_world);
  error = 0;
}

abbrev links : LinkDump
links = record { messages = link_message ∷ []; ending = header 20 3 2; error = 0 }
