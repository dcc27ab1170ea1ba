-- ===== src/Sender/Delivery.antt =====
-- What source/src/lldp_sender.cc puts on the wire, read by source/src/lldp_monitor.cc of a neighbour.
use link_layer_discovery.Base.{
  ℕ, ◌+◌, ◌≤◌, ◌<◌, ◌≡◌, refl, List, [], ◌∷◌, ◌++◌, Option, none, some, arith, length,
  length-append, drop, drop-append_of_length, subst, append_assoc, All,
}
use link_layer_discovery.Base.Words.{u16, htons, htonl, ntohs}
use link_layer_discovery.Lldp.{if_subtype_ifindex, port_subtype_mac}
use link_layer_discovery.Device.{DeviceData}
use link_layer_discovery.Packet.DataUnit
use link_layer_discovery.Packet.DataUnit.{DataUnit}
use link_layer_discovery.Packet.DataUnit.RoundTrip.{
  IsOptional, IsWellFormed, from_span-to_frame_buffer_unit,
}
use link_layer_discovery.Packet.Frame
use link_layer_discovery.Packet.Frame.{header_bytes, header_size}
use link_layer_discovery.Monitor.Entry.{
  NeighbourEntry, collect, no_addresses, ttl_of, lldpdu_to_neighbour_entry,
}
use link_layer_discovery.Monitor.Entry.Shape.{
  management_address-ipv4, management_address-ipv6, management_address-mac,
}
use link_layer_discovery.Monitor.Frames.{SockaddrLl, stored, read_frame, entry_outcome}
use link_layer_discovery.Monitor.Frames.Stored.{IsLldpAddress, read_frame_accepted}
use link_layer_discovery.Sender.{LldpSender, Sending, Host, int_max, next_vector, send_lldp}
use link_layer_discovery.Sender.Build.{
  management_value, management_tlv, address_tlvs, lldpdu_optional_tlvs, construct_frame,
}

-- An array of `std::array<std::byte, size>`, where there is one.
abbrev pub HasSize : ℕ → Option (List ℕ) → Type 0
HasSize size none = Unit {0}
HasSize size (some a) = length a ≡ size

-- The sizes that the types of the source give.
pub record IsShaped (d : DeviceData) : Type 0 where
  pub ipv4_size : HasSize 4 d.ipv4_address
  pub ipv6_size : HasSize 16 d.ipv6_address
  pub mac_size : HasSize 6 d.mac_address

-- Where the bytes of an address begin, the rest of the value follows.
abbrev value_tail : ℕ → List ℕ
value_tail if_index = if_subtype_ifindex ∷ (htonl if_index ++ (0 ∷ []))

length-management_value :
    (size subtype if_index : ℕ) (a : List ℕ)
    → length a ≡ size
    → length (management_value size subtype a if_index) ≡ size + 8
unfolding management_value
length-management_value size subtype if_index a e =
    omega (arith, length-append a (value_tail if_index))

management_tlv-IsOptional :
    (size subtype if_index : ℕ) (a : List ℕ)
    → size ≤ 16
    → length a ≡ size
    → IsOptional (management_tlv size subtype if_index a)
management_tlv-IsOptional size subtype if_index a small e =
    let long = length-management_value size subtype if_index a e in ground arith

module _ (if_index : ℕ) where
  -- The TLVs that a sender adds fit their fields.
  address_tlvs-IsOptional :
      (o4 o6 om : Option (List ℕ))
      → HasSize 4 o4
      → HasSize 16 o6
      → HasSize 6 om
      → All IsOptional (address_tlvs if_index o4 o6 om)
  unfolding address_tlvs
  address_tlvs-IsOptional none none none p q r = tt
  address_tlvs-IsOptional none none (some m) p q r =
      (management_tlv-IsOptional 6 6 if_index m (omega arith) r, tt)
  address_tlvs-IsOptional (some a) none om p q r =
      (management_tlv-IsOptional 4 1 if_index a (omega arith) p, tt)
  address_tlvs-IsOptional none (some b) om p q r =
      (management_tlv-IsOptional 16 2 if_index b (omega arith) q, tt)
  address_tlvs-IsOptional (some a) (some b) om p q r = (
    management_tlv-IsOptional 4 1 if_index a (omega arith) p,
    (management_tlv-IsOptional 16 2 if_index b (omega arith) q, tt),
  )

  -- The addresses that the neighbour keeps.
  collect-address_tlvs :
      (o4 o6 om : Option (List ℕ))
      → HasSize 4 o4
      → HasSize 16 o6
      → HasSize 6 om
      → collect (address_tlvs if_index o4 o6 om) no_addresses
        ≡ record { ipv4_address = o4; ipv6_address = o6 }
  unfolding collect address_tlvs management_value
  collect-address_tlvs none none none p q r = refl
  collect-address_tlvs none none (some m) p q r =
      rw (management_address-mac m (value_tail if_index) r) refl
  collect-address_tlvs (some a) none om p q r =
      rw (management_address-ipv4 a (value_tail if_index) p) refl
  collect-address_tlvs none (some b) om p q r =
      rw (management_address-ipv6 b (value_tail if_index) q) refl
  collect-address_tlvs (some a) (some b) om p q r =
      rw
        (
          management_address-ipv4 a (value_tail if_index) p,
          management_address-ipv6 b (value_tail if_index) q,
        )
        refl

-- A span of a local array keeps its size.
abbrev pub KeepsLength : (List ℕ → List ℕ) → Type 0
KeepsLength gone = (l : List ℕ) → length (gone l) ≡ length l

-- The number that a neighbour reads in two bytes.
abbrev pub number_of : List ℕ → ℕ
number_of [] = 0
number_of (hi ∷ []) = 0
number_of (hi ∷ lo ∷ rest) = ntohs hi lo

ttl_of-number_of : (l : List ℕ) → length l ≡ 2 → ttl_of l ≡ some (number_of l)
unfolding ttl_of
ttl_of-number_of [] e = absurd (omega (arith, e))
ttl_of-number_of (hi ∷ []) e = absurd (omega (arith, e))
ttl_of-number_of (hi ∷ lo ∷ rest) e = refl

module _ (gone : List ℕ → List ℕ) (vector : List ℕ) (ttl : ℕ) (d : DeviceData) (m : List ℕ) where
  abbrev frame_unit : DataUnit
  frame_unit = (construct_frame gone vector ttl d m).data_unit

  construct_frame-IsWellFormed :
      KeepsLength gone → IsShaped d → length m ≡ 6 → length vector < 512 → IsWellFormed frame_unit
  unfolding construct_frame lldpdu_optional_tlvs
  construct_frame-IsWellFormed keeps h e long = record {
    chassis_encodable = omega arith;
    chassis_type = refl;
    port_encodable = omega (arith, keeps (port_subtype_mac ∷ m));
    port_type = refl;
    ttl_encodable = omega (arith, keeps (htons ttl));
    ttl_type = refl;
    others_optional =
        address_tlvs-IsOptional d.if_index d.ipv4_address d.ipv6_address d.mac_address h.ipv4_size
          h.ipv6_size h.mac_size;
  }

  -- What the neighbour stores for this device.
  abbrev pub advertised : ℕ → NeighbourEntry
  advertised if_index = record {
    chassis_id = vector;
    port_id = gone (port_subtype_mac ∷ m);
    interface_index = u16 if_index;
    time_to_live = number_of (gone (htons ttl));
    ipv4_address = d.ipv4_address;
    ipv6_address = d.ipv6_address;
  }

  entry-construct_frame :
      (if_index : ℕ)
      → KeepsLength gone
      → IsShaped d
      → lldpdu_to_neighbour_entry frame_unit if_index ≡ some (advertised if_index)
  unfolding lldpdu_to_neighbour_entry construct_frame lldpdu_optional_tlvs
  entry-construct_frame if_index keeps h = ground (
    arith,
    collect-address_tlvs d.if_index d.ipv4_address d.ipv6_address d.mac_address h.ipv4_size
        h.ipv6_size h.mac_size,
    ttl_of-number_of (gone (htons ttl)) (keeps (htons ttl)),
  )

-- SendLldp, where there is a MAC address and the index fits, hands the kernel one frame more, for
-- that interface.
send_lldp-log :
    (ttl : ℕ) (s : LldpSender) (h : Host) (m : List ℕ)
    → s.device_data.mac_address ≡ some m
    → s.device_data.if_index ≤ int_max
    → (send_lldp ttl (s, h)).1.log
      ≡ record {
        if_index = s.device_data.if_index;
        buffer =
            Frame.to_frame_buffer
              (construct_frame (h.gone (length h.log)) (next_vector h) ttl s.device_data m);
      }
        ∷ h.log
unfolding send_lldp
send_lldp-log ttl s h m e i = ground arith

header_size_lem :
    (gone : List ℕ → List ℕ) (vector : List ℕ) (ttl : ℕ) (d : DeviceData) (m : List ℕ)
    → length m ≡ 6
    → length (header_bytes (construct_frame gone vector ttl d m).header) ≡ header_size
unfolding construct_frame
header_size_lem gone vector ttl d m e = omega (arith, length-append m (0x88 ∷ 0xcc ∷ []))

-- The payload behind the Ethernet header of a frame.
payload :
    (gone : List ℕ → List ℕ) (vector : List ℕ) (ttl : ℕ) (d : DeviceData) (m : List ℕ)
    (padding : List ℕ)
    → length m ≡ 6
    → drop 14 (Frame.to_frame_buffer (construct_frame gone vector ttl d m) ++ padding)
      ≡ DataUnit.to_frame_buffer (frame_unit gone vector ttl d m) ++ padding
unfolding Frame.to_frame_buffer
payload gone vector ttl d m padding e =
    let header = (construct_frame gone vector ttl d m).header in
    rw (append_assoc)
      (drop-append_of_length 14 (header_bytes header) _ (header_size_lem gone vector ttl d m e))

-- From one sender to another host's monitor: the frame that SendLldp hands to the kernel, stripped of its Ethernet header and
-- perhaps padded, is accepted there, and the entry that is stored has the sender's chassis id and addresses. Its
-- port id and time to live are whatever the memory of two local arrays of constructFrame holds when sendFrame reads
-- it: they are the sender's MAC address and time to live only if that memory is not used before. The chassis id must
-- fit a TLV, the arrays have the sizes of their types, and a span keeps its size.
pub read_frame-send_lldp :
    (ttl : ℕ) (s : LldpSender) (h : Host) (m : List ℕ) (a : SockaddrLl) (padding : List ℕ)
    → s.device_data.mac_address ≡ some m
    → s.device_data.if_index ≤ int_max
    → IsShaped s.device_data
    → length (next_vector h) < 512
    → KeepsLength (h.gone (length h.log))
    → IsLldpAddress a
    → (b : Sending) × ((send_lldp ttl (s, h)).1.log ≡ b ∷ h.log)
      × (b.if_index ≡ s.device_data.if_index)
      × (read_frame a (drop 14 (b.buffer ++ padding))
          ≡ stored (
              advertised (h.gone (length h.log)) (next_vector h) ttl s.device_data m a.sll_ifindex))
unfolding entry_outcome
read_frame-send_lldp ttl s h m a padding e i shape long keeps accepted =
    let d = s.device_data in
    let gone = h.gone (length h.log) in
    let vector = next_vector h in
    let e6 : length m ≡ 6 = subst (HasSize 6) e shape.mac_size in
    let unit = frame_unit gone vector ttl d m in
    (
      record {
        if_index = d.if_index;
        buffer = Frame.to_frame_buffer (construct_frame gone vector ttl d m);
      },
      send_lldp-log ttl s h m e i,
      refl,
      rw
          (
            payload gone vector ttl d m padding e6,
            read_frame_accepted a (DataUnit.to_frame_buffer unit ++ padding) unit accepted (
                from_span-to_frame_buffer_unit unit padding
                  (construct_frame-IsWellFormed gone vector ttl d m keeps shape e6 long)),
            entry-construct_frame gone vector ttl d m a.sll_ifindex keeps shape,
          )
          refl,
    )
