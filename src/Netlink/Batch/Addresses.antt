-- ===== src/Netlink/Batch/Addresses.antt =====
-- The kernel's answer to a dump of the addresses, as NetlinkSocket::Call of source/src/netlink_monitor.cc gets it:
-- messages about addresses, and the message that ends the dump.
use link_layer_discovery.Base.{
  ℕ, ◌-◌, ◌^◌, ◌<◌, ◌≡◌, refl, sym, ap, subst, true, List, [], ◌∷◌, ◌++◌, some, arith, All, length,
  length-append, append-nil,
}
use link_layer_discovery.Netlink.{Header, AddrView, PacketView, addr_view, done_view}
use link_layer_discovery.Netlink.Fields.{read_field, write_field, length-write_field}
use link_layer_discovery.Netlink.Attributes.RoundTrip.{write_attributes, length-write_attributes}
use link_layer_discovery.Netlink.Parse.RoundTrip.{write_header, length-write_header}
use link_layer_discovery.Netlink.Parse.Addresses.{
  write_ifaddrmsg, write_addr_message, AddrFits, length-write_ifaddrmsg,
  packet_view_parser-write_addr_message, write_done_message, DoneFits,
  packet_view_parser-write_done_message,
}
use link_layer_discovery.Netlink.Batch.{Queue, call}
use link_layer_discovery.Netlink.Batch.Delivery.{
  IsMessage, concat, views, IsBatch, Holds, call-concat,
}
use link_layer_discovery.Netlink.Batch.Interfaces.{attributes_size_aligned, after_len, read_len}

-- A message with the two fields of ifaddrmsg that a view drops.
pub record AddrMessage : Type 0 where
  pub prefix : ℕ
  pub scope : ℕ
  pub view : AddrView

pub record AddrMessageFits (m : AddrMessage) : Type 0 where
  pub view_fits : AddrFits m.view
  pub prefix_fits : m.prefix < 256
  pub scope_fits : m.scope < 256

abbrev pub addr_bytes : AddrMessage → List ℕ
addr_bytes m = write_addr_message m.prefix m.scope m.view

addr_bytes-IsMessage : (m : AddrMessage) → AddrMessageFits m → IsMessage (addr_bytes m)
addr_bytes-IsMessage m h =
    let v = m.view in
    let info = write_ifaddrmsg m.prefix m.scope v in
    let tlvs = write_attributes v.attributes in
    let total = h.view_fits.total in
    let whole : length (addr_bytes m) ≡ v.header.nlmsg_len = omega (
      arith,
      length-append (write_header v.header ++ info) tlvs,
      length-append (write_header v.header) info,
      length-write_header v.header,
      length-write_ifaddrmsg m.prefix m.scope v,
      length-write_attributes v.attributes h.view_fits.attributes_fit,
    ) in
    record {
      payload = after_len v.header info tlvs;
      has_header = omega arith;
      len_field = rw whole (read_len v.header info tlvs h.view_fits.header_fits.len_fits);
      aligned = omega (arith, attributes_size_aligned v.attributes);
    }

pub done-IsMessage :
    (h : Header) (error : ℕ) → DoneFits h error → IsMessage (write_done_message h error)
done-IsMessage h error f =
    let code = write_field 4 error in
    let total = f.total in
    let whole : length (write_done_message h error) ≡ h.nlmsg_len = omega (
      arith,
      length-append (write_header h) code,
      length-write_header h,
      length-write_field 4 error,
    ) in
    record {
      payload = after_len h code [];
      has_header = omega arith;
      len_field = rw whole (
          subst (λ bytes. read_field 4 bytes ≡ some (h.nlmsg_len, after_len h code []))
            (append-nil (write_done_message h error)) (read_len h code [] f.header_fits.len_fits));
      aligned = omega arith;
    }

-- The dump: the messages, and its end.
pub record AddrDump : Type 0 where
  pub messages : List AddrMessage
  pub ending : Header
  pub error : ℕ

pub record DumpFits (d : AddrDump) : Type 0 where
  pub messages_fit : All AddrMessageFits d.messages
  pub ending_fits : DoneFits d.ending d.error

abbrev paired : List AddrMessage → Header → ℕ → List (List ℕ × PacketView)
paired [] h error = (write_done_message h error, done_view h error) ∷ []
paired (m ∷ ms) h error = (addr_bytes m, addr_view m.view) ∷ paired ms h error

abbrev pub dump_bytes : AddrDump → List ℕ
dump_bytes d = concat (paired d.messages d.ending d.error)

abbrev pub views_from : List AddrMessage → Header → ℕ → List PacketView
views_from [] h error = done_view h error ∷ []
views_from (m ∷ ms) h error = addr_view m.view ∷ views_from ms h error

paired-IsBatch :
    (ms : List AddrMessage) (h : Header) (error : ℕ)
    → All AddrMessageFits ms
    → DoneFits h error
    → IsBatch (paired ms h error) × (views (paired ms h error) ≡ views_from ms h error)
paired-IsBatch [] h error fits f =
    ((done-IsMessage h error f, packet_view_parser-write_done_message h error f, tt), refl)
paired-IsBatch (m ∷ ms) h error fits f =
    let parsed =
      packet_view_parser-write_addr_message m.prefix m.scope m.view fits.0.view_fits
        fits.0.prefix_fits fits.0.scope_fits in
    let (batch, same) = paired-IsBatch ms h error fits.1 f in
    ((addr_bytes-IsMessage m fits.0, parsed, batch), ap (λ rest. addr_view m.view ∷ rest) same)

-- Where the kernel's datagram is a dump of the addresses, of less than four gigabytes, the callback gets the view that the
-- kernel wrote of each address, in order, and then the end of the dump.
pub call-dump_bytes :
    (queue : Queue) (d : AddrDump)
    → Holds queue 0 (dump_bytes d)
    → DumpFits d
    → length (dump_bytes d) < 2 ^ 32 - 4
    → call true queue ≡ some (views_from d.messages d.ending d.error)
call-dump_bytes queue d holds f small =
    let (batch, same) = paired-IsBatch d.messages d.ending d.error f.messages_fit f.ending_fits in
    let whole = append-nil (dump_bytes d) in
    rw⁻¹ same (
      call-concat queue (paired d.messages d.ending d.error) []
        (subst (λ b. Holds queue 0 b) (sym whole) holds) batch (omega arith)
        (subst (λ b. length b < 2 ^ 32 - 4) (sym whole) small))
