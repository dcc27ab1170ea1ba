-- ===== src/DeviceRepository/Cycle.antt =====
-- A whole synchronisation, source/src/device_repository.cc with the sources below it: the kernel answers the dump of
-- the interfaces, the repository asks for the addresses, the kernel answers that, and the senders follow.
use link_layer_discovery.Base.{ℕ, suc, ◌-◌, ◌^◌, ◌<◌, ◌≡◌, true, false, ◌∷◌, some, All, length}
use link_layer_discovery.Base.Ints.{pos, ltb_int}
use link_layer_discovery.Base.Map.{Map}
use link_layer_discovery.Device.{DeviceData}
use link_layer_discovery.Netlink.{Request}
use link_layer_discovery.Netlink.Batch.{Queue}
use link_layer_discovery.Netlink.Batch.Delivery.{Holds}
use link_layer_discovery.Netlink.Batch.Addresses.{AddrDump, DumpFits, dump_bytes}
use link_layer_discovery.Netlink.Batch.LinkDump.{LinkDump, LinkDumpFits, link_dump_bytes}
use link_layer_discovery.DeviceRepository.{World}
use link_layer_discovery.DeviceRepository.Batch.{Answers}
use link_layer_discovery.DeviceRepository.AddressDump.{AnswersWith}

-- The sequence number of the next request for addresses.
abbrev pub next_seq : World → ℕ
next_seq w = suc w.local.ip_reader.reader_socket.sequence_number

-- The address reader's socket is open, and the kernel takes the next request whole.
pub record CanAsk (w : World) : Type 0 where
  pub is_open : w.local.ip_reader.reader_socket.is_valid ≡ true
  pub taken : ltb_int (w.kernel.sent (length w.kernel.requests)) (pos 24) ≡ false

-- The request for all addresses.
abbrev pub addr_request : World → Request
addr_request w = record {
  nlmsg_len = 24;
  nlmsg_type = 22;
  nlmsg_flags = 773;
  nlmsg_seq = next_seq w;
  nlmsg_pid = w.kernel.pid;
  family = 0;
}

-- The repository has asked for the addresses.
pub record HasAsked (devices : Map ℕ DeviceData) (w v : World) : Type 0 where
  pub same_devices : v.local.devices ≡ devices
  pub waits : v.local.ip_reader.dump_request_sequence_number ≡ some (next_seq w)
  pub asked : v.kernel.requests ≡ addr_request w ∷ w.kernel.requests

-- The kernel's two answers: the dump of the interfaces to the pending request, and that of the addresses to the request that
-- follows it.
pub record Answering (seq : ℕ) (w : World) (links : Queue) (l : LinkDump) (addresses : Queue)
    (a : AddrDump) : Type 0 where
  pub links_held : Holds links 0 (link_dump_bytes l)
  pub links_fit : LinkDumpFits l
  pub links_small : length (link_dump_bytes l) < 2 ^ 32 - 4
  pub links_answer : All (Answers seq) l.messages
  pub links_end : l.ending.nlmsg_seq ≡ seq
  pub addresses_held : Holds addresses 0 (dump_bytes a)
  pub addresses_fit : DumpFits a
  pub addresses_small : length (dump_bytes a) < 2 ^ 32 - 4
  pub addresses_answer : All (AnswersWith (next_seq w)) a.messages
  pub addresses_end : a.ending.nlmsg_seq ≡ next_seq w
