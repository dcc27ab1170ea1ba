-- ===== src/Netlink/Batch/LinkDump.antt =====
-- The kernel's whole answer to a dump of the interfaces, as NetlinkSocket::Call of source/src/netlink_monitor.cc gets
-- it: messages about interfaces, and the message that ends the dump.
use link_layer_discovery.Base.{
  ℕ, ◌-◌, ◌^◌, ◌<◌, ◌≡◌, refl, sym, ap, subst, true, List, [], ◌∷◌, some, arith, All, length,
  append-nil,
}
use link_layer_discovery.Netlink.{Header, PacketView, link_view, done_view}
use link_layer_discovery.Netlink.Parse.RoundTrip.{packet_view_parser-write_link_message}
use link_layer_discovery.Netlink.Parse.Addresses.{
  write_done_message, DoneFits, packet_view_parser-write_done_message,
}
use link_layer_discovery.Netlink.Batch.{Queue, call}
use link_layer_discovery.Netlink.Batch.Delivery.{concat, views, IsBatch, Holds, call-concat}
use link_layer_discovery.Netlink.Batch.Interfaces.{
  LinkMessage, MessageFits, bytes_of, bytes_of-IsMessage,
}
use link_layer_discovery.Netlink.Batch.Addresses.{done-IsMessage}

pub record LinkDump : Type 0 where
  pub messages : List LinkMessage
  pub ending : Header
  pub error : ℕ

pub record LinkDumpFits (d : LinkDump) : Type 0 where
  pub messages_fit : All MessageFits d.messages
  pub ending_fits : DoneFits d.ending d.error

abbrev paired : List LinkMessage → Header → ℕ → List (List ℕ × PacketView)
paired [] h error = (write_done_message h error, done_view h error) ∷ []
paired (m ∷ ms) h error = (bytes_of m, link_view m.view) ∷ paired ms h error

abbrev pub link_dump_bytes : LinkDump → List ℕ
link_dump_bytes d = concat (paired d.messages d.ending d.error)

abbrev pub link_views : List LinkMessage → Header → ℕ → List PacketView
link_views [] h error = done_view h error ∷ []
link_views (m ∷ ms) h error = link_view m.view ∷ link_views ms h error

paired-IsBatch :
    (ms : List LinkMessage) (h : Header) (error : ℕ)
    → All MessageFits ms
    → DoneFits h error
    → IsBatch (paired ms h error) × (views (paired ms h error) ≡ link_views ms h error)
paired-IsBatch [] h error fits f =
    ((done-IsMessage h error f, packet_view_parser-write_done_message h error f, tt), refl)
paired-IsBatch (m ∷ ms) h error fits f =
    let parsed =
      packet_view_parser-write_link_message m.family m.pad m.change m.view fits.0.view_fits
        fits.0.family_fits fits.0.pad_fits fits.0.change_fits in
    let (batch, same) = paired-IsBatch ms h error fits.1 f in
    ((bytes_of-IsMessage m fits.0, parsed, batch), ap (λ rest. link_view m.view ∷ rest) same)

-- The same for a dump of the interfaces.
pub call-link_dump_bytes :
    (queue : Queue) (d : LinkDump)
    → Holds queue 0 (link_dump_bytes d)
    → LinkDumpFits d
    → length (link_dump_bytes d) < 2 ^ 32 - 4
    → call true queue ≡ some (link_views d.messages d.ending d.error)
call-link_dump_bytes queue d holds f small =
    let (batch, same) = paired-IsBatch d.messages d.ending d.error f.messages_fit f.ending_fits in
    let whole = append-nil (link_dump_bytes d) in
    rw⁻¹ same (
      call-concat queue (paired d.messages d.ending d.error) []
        (subst (λ b. Holds queue 0 b) (sym whole) holds) batch (omega arith)
        (subst (λ b. length b < 2 ^ 32 - 4) (sym whole) small))
