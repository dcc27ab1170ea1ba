-- ===== src/Netlink/Batch/Interfaces.antt =====
-- The kernel's answer to a dump of the interfaces, as NetlinkSocket::Call of source/src/netlink_monitor.cc
-- gets it: one datagram with several messages.
use link_layer_discovery.Base.{
  ℕ, ◌-◌, ◌^◌, ◌%◌, ◌<◌, ◌≡◌, refl, sym, ap, subst, true, List, [], ◌∷◌, ◌++◌, some, arith, All,
  length, length-append, append_assoc, append-nil,
}
use link_layer_discovery.Netlink.{Header, LinkView, PacketView, link_view}
use link_layer_discovery.Netlink.Fields.{read_field, write_field, read_field-write_field}
use link_layer_discovery.Netlink.Attributes.RoundTrip.{
  attributes_size, write_attributes, length-write_attributes,
}
use link_layer_discovery.Netlink.Parse.RoundTrip.{
  write_header, write_ifinfomsg, write_link_message, LinkFits, length-write_header,
  length-write_ifinfomsg, packet_view_parser-write_link_message,
}
use link_layer_discovery.Netlink.Batch.{Queue, call}
use link_layer_discovery.Netlink.Batch.Delivery.{
  IsMessage, concat, views, IsBatch, Holds, call-concat,
}
use link_layer_discovery.Netlink

-- A message with the three fields of ifinfomsg that a view drops.
pub record LinkMessage : Type 0 where
  pub family : ℕ
  pub pad : ℕ
  pub change : ℕ
  pub view : LinkView

pub record MessageFits (m : LinkMessage) : Type 0 where
  pub view_fits : LinkFits m.view
  pub family_fits : m.family < 256
  pub pad_fits : m.pad < 256
  pub change_fits : m.change < 2 ^ 32

abbrev pub bytes_of : LinkMessage → List ℕ
bytes_of m = write_link_message m.family m.pad m.change m.view

pub attributes_size_aligned : (ts : List Netlink.TlvView) → attributes_size ts % 4 ≡ 0
attributes_size_aligned [] = refl
attributes_size_aligned (t ∷ ts) = omega (arith, attributes_size_aligned ts)

length-bytes_of : (m : LinkMessage) → MessageFits m → length (bytes_of m) ≡ m.view.header.nlmsg_len
length-bytes_of m h =
    let v = m.view in
    let info = write_ifinfomsg m.family m.pad m.change v in
    let total = h.view_fits.total in
    omega (
      arith,
      length-append (write_header v.header ++ info) (write_attributes v.attributes),
      length-append (write_header v.header) info,
      length-write_header v.header,
      length-write_ifinfomsg m.family m.pad m.change v,
      length-write_attributes v.attributes h.view_fits.attributes_fit,
    )

-- What stands after the first field of a message.
abbrev pub after_len : Header → List ℕ → List ℕ → List ℕ
after_len h info tlvs =
    write_field 2 h.nlmsg_type
    ++ (write_field 2 h.nlmsg_flags
        ++ (write_field 4 h.nlmsg_seq ++ (write_field 4 h.nlmsg_pid ++ (info ++ tlvs))))

pub read_len :
    (h : Header) (info tlvs : List ℕ)
    → h.nlmsg_len < 2 ^ 32
    → read_field 4 ((write_header h ++ info) ++ tlvs) ≡ some (h.nlmsg_len, after_len h info tlvs)
read_len h info tlvs fits =
    simp (append_assoc) (read_field-write_field 4 h.nlmsg_len (after_len h info tlvs) fits)

pub bytes_of-IsMessage : (m : LinkMessage) → MessageFits m → IsMessage (bytes_of m)
bytes_of-IsMessage m h =
    let v = m.view in
    let info = write_ifinfomsg m.family m.pad m.change v in
    let tlvs = write_attributes v.attributes in
    let whole = length-bytes_of m h in
    let total = h.view_fits.total in
    record {
      payload = after_len v.header info tlvs;
      has_header = omega arith;
      len_field = rw whole (read_len v.header info tlvs h.view_fits.header_fits.len_fits);
      aligned = omega (arith, attributes_size_aligned v.attributes);
    }

-- The datagram, and the views.
abbrev pub datagram_of : List LinkMessage → List ℕ
datagram_of [] = []
datagram_of (m ∷ ms) = bytes_of m ++ datagram_of ms

abbrev pub views_of : List LinkMessage → List PacketView
views_of [] = []
views_of (m ∷ ms) = link_view m.view ∷ views_of ms

paired : List LinkMessage → List (List ℕ × PacketView)
paired [] = []
paired (m ∷ ms) = (bytes_of m, link_view m.view) ∷ paired ms

paired-IsBatch :
    (ms : List LinkMessage)
    → All MessageFits ms
    → IsBatch (paired ms)
      × (concat (paired ms) ≡ datagram_of ms)
      × (views (paired ms) ≡ views_of ms)
unfolding paired
paired-IsBatch [] h = (tt, refl, refl)
paired-IsBatch (m ∷ ms) h =
    let parsed =
      packet_view_parser-write_link_message m.family m.pad m.change m.view h.0.view_fits
        h.0.family_fits h.0.pad_fits h.0.change_fits in
    let (batch, bytes, same) = paired-IsBatch ms h.1 in
    (
      (bytes_of-IsMessage m h.0, parsed, batch),
      ap (λ rest. bytes_of m ++ rest) bytes,
      ap (λ rest. link_view m.view ∷ rest) same,
    )

-- Where the kernel's datagram has some messages about interfaces, of less than four gigabytes together, the callback
-- gets the view that the kernel wrote of each interface, in order: every attribute and every field that is read.
pub call-datagram_of :
    (queue : Queue) (ms : List LinkMessage)
    → Holds queue 0 (datagram_of ms)
    → All MessageFits ms
    → length (datagram_of ms) < 2 ^ 32 - 4
    → call true queue ≡ some (views_of ms)
call-datagram_of queue ms holds h small =
    let (batch, bytes, same) = paired-IsBatch ms h in
    let whole : concat (paired ms) ++ [] ≡ datagram_of ms = rw (append-nil, bytes) refl in
    rw⁻¹ same (
      call-concat queue (paired ms) [] (subst (λ d. Holds queue 0 d) (sym whole) holds) batch
        (omega arith) (subst (λ d. length d < 2 ^ 32 - 4) (sym whole) small))
