-- ===== src/Tests/Packets.antt =====
-- Netlink packets as bytes.
use link_layer_discovery.Base.{
  ℕ, List, [], ◌∷◌, none, some, ◌≡◌, refl, arith, true, length, drop, ◌++◌,
}
use link_layer_discovery.Base.Ints.{pos}
use link_layer_discovery.Netlink.{PacketView, TlvView, link_view, message_view}
use link_layer_discovery.Netlink.Fields.{read_field}
use link_layer_discovery.Netlink.Attributes.{attributes}
use link_layer_discovery.Netlink.Attributes.RoundTrip.{write_attribute}
use link_layer_discovery.Netlink.Attributes.Wrap.{attributes_unaligned}
use link_layer_discovery.Netlink.Parse.{packet_view_parser, read_header, parse_payload}
use link_layer_discovery.Netlink.Parse.RoundTrip.{
  LinkFits, write_link_message, packet_view_parser-write_link_message,
}
use link_layer_discovery.Netlink.Batch.{Queue, deliver_all, call}
use link_layer_discovery.Netlink.Batch.Delivery.{
  Holds, Delivers, deliver_all-Delivers, IsBatch, call_unaligned,
}
use link_layer_discovery.Netlink.Batch.Interfaces.{LinkMessage, MessageFits}
use link_layer_discovery.DeviceRepository.{World}
use link_layer_discovery.Tests.Local.{link, world, waiting_reader}

pub link-LinkFits : LinkFits link
link-LinkFits = record {
  header_fits = record {
    len_fits = omega arith;
    type_fits = omega arith;
    flags_fit = omega arith;
    seq_fits = omega arith;
    pid_fits = omega arith;
  };
  about_link = refl;
  index_fits = omega arith;
  ifi_type_fits = omega arith;
  ifi_flags_fit = omega arith;
  attributes_fit = (record { size_fits = omega arith; type_fits = omega arith }, tt);
  total = omega arith;
}

packet_view_parser-write_link_message_example :
    packet_view_parser (write_link_message 0 0 0 link) ≡ some (link_view link)
packet_view_parser-write_link_message_example =
    packet_view_parser-write_link_message 0 0 0 link link-LinkFits (omega arith) (omega arith)
      (omega arith)

abbrev pub link_message : LinkMessage
link_message = record { family = 0; pad = 0; change = 0; view = link }

pub link_message-MessageFits : MessageFits link_message
link_message-MessageFits = record {
  view_fits = link-LinkFits;
  family_fits = omega arith;
  pad_fits = omega arith;
  change_fits = omega arith;
}

abbrev pub waiting_world : World
waiting_world = record world { local = record (world.local) { device_reader = waiting_reader } }

abbrev pub queue_of : List ℕ → Queue
queue_of bytes = record {
  is_valid = true;
  peek = pos (length bytes);
  receive = λ size. (pos size, 0, bytes);
}

pub queue_of-Holds : (bytes : List ℕ) → Holds (queue_of bytes) 0 bytes
queue_of-Holds bytes = record { is_open = refl; peeks = refl; receives = refl }

-- An empty NLMSG_NOOP, the last message of a dump, and a message whose length is 17.
abbrev noop_bytes : List ℕ
noop_bytes = 16 ∷ 0 ∷ 0 ∷ 0 ∷ 1 ∷ 0 ∷ 0 ∷ 0 ∷ 0 ∷ 0 ∷ 0 ∷ 0 ∷ 0 ∷ 0 ∷ 0 ∷ 0 ∷ []

abbrev done_bytes : List ℕ
done_bytes = 20 ∷ 0 ∷ 0 ∷ 0 ∷ 3 ∷ 0 ∷ 0 ∷ 0 ∷ 2 ∷ 0 ∷ 0 ∷ 0 ∷ 0 ∷ 0 ∷ 0 ∷ 0 ∷ 0 ∷ 0 ∷ 0 ∷ 0 ∷ []

abbrev odd_bytes : List ℕ
odd_bytes = 17 ∷ 0 ∷ 0 ∷ 0 ∷ 1 ∷ 0 ∷ 0 ∷ 0 ∷ 0 ∷ 0 ∷ 0 ∷ 0 ∷ 0 ∷ 0 ∷ 0 ∷ 0 ∷ 7 ∷ []

deliver_all-Delivers_example :
    Delivers (noop_bytes ++ done_bytes) (deliver_all (noop_bytes ++ done_bytes))
deliver_all-Delivers_example = deliver_all-Delivers (noop_bytes ++ done_bytes) (omega arith)

odd_length : read_field 4 odd_bytes ≡ some (17, drop 4 odd_bytes)
unfolding read_field
odd_length = refl

noop_payload : read_field 4 noop_bytes ≡ some (16, drop 4 noop_bytes)
unfolding read_field
noop_payload = refl

abbrev noop_view : PacketView
noop_view =
    message_view
      (record { nlmsg_len = 16; nlmsg_type = 1; nlmsg_flags = 0; nlmsg_seq = 0; nlmsg_pid = 0 }) []

noop_parsed : packet_view_parser noop_bytes ≡ some noop_view
unfolding packet_view_parser parse_payload read_header read_field
noop_parsed = refl

-- The empty message, and behind it the one whose length is 17.
abbrev unaligned_batch : List (List ℕ × PacketView)
unaligned_batch = (noop_bytes, noop_view) ∷ []

unaligned_batch-IsBatch : IsBatch unaligned_batch
unaligned_batch-IsBatch = (
  record {
    payload = drop 4 noop_bytes;
    has_header = omega arith;
    len_field = noop_payload;
    aligned = refl;
  },
  noop_parsed,
  tt,
)

call_unaligned_example : call true (queue_of (noop_bytes ++ odd_bytes)) ≡ none
call_unaligned_example =
    call_unaligned (queue_of (noop_bytes ++ odd_bytes)) unaligned_batch odd_bytes (drop 4 odd_bytes)
      (queue_of-Holds (noop_bytes ++ odd_bytes)) unaligned_batch-IsBatch (omega arith) odd_length
      (λ e. absurd (omega (arith, e))) (omega arith)

abbrev short_attribute : TlvView
short_attribute = record { rta_type = 3; value = 101 ∷ [] }

attributes_unaligned_example : attributes 2 5 (write_attribute short_attribute) ≡ none
attributes_unaligned_example =
    attributes_unaligned short_attribute 0
      (record { size_fits = omega arith; type_fits = omega arith }) (λ e. absurd (omega (arith, e)))
