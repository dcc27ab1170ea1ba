-- ===== src/Netlink.antt =====
-- The netlink socket of source/include/netlink_monitor.hh and source/src/netlink_monitor.cc: the
-- packets as they are parsed, and the two dump requests.
pub mod MachineId
pub mod Fields
pub mod Attributes
pub mod Parse
pub mod Batch
pub mod Reader
use link_layer_discovery.Base.{
  ℕ, suc, ◌+◌, Bool, true, false, List, [], ◌∷◌, length, if◌then◌else◌, Option, none, some,
}
use link_layer_discovery.Base.Ints.{ℤ, pos, negsuc, ltb_int}

-- nlmsghdr
pub record Header : Type 0 where
  pub nlmsg_len : ℕ
  pub nlmsg_type : ℕ
  pub nlmsg_flags : ℕ
  pub nlmsg_seq : ℕ
  pub nlmsg_pid : ℕ

-- TLVView
pub record TlvView : Type 0 where
  pub rta_type : ℕ
  pub value : List ℕ

-- LinkView
pub record LinkView : Type 0 where
  pub header : Header
  pub ifi_type : ℕ
  pub ifi_index : ℕ
  pub ifi_flags : ℕ
  pub attributes : List TlvView

-- AddrView
pub record AddrView : Type 0 where
  pub header : Header
  pub ifa_family : ℕ
  pub ifa_flags : ℕ
  pub ifa_index : ℕ
  pub attributes : List TlvView

-- ErrorContentView: the error of nlmsgerr with its copy of a header, the number of bytes of the span of
-- the original content if there is one, and the attributes.
pub record ErrorContentView : Type 0 where
  pub error : ℕ
  pub msg : Header
  pub original_content : Option ℕ
  pub attributes : List TlvView

-- NetlinkPacketView
pub data PacketView : Type 0 where
  message_view : Header → List ℕ → PacketView
  link_view : LinkView → PacketView
  addr_view : AddrView → PacketView
  error_view : Header → ErrorContentView → PacketView
  done_view : Header → ℕ → PacketView

abbrev pub header_of : PacketView → Header
header_of (message_view h content) = h
header_of (link_view v) = v.header
header_of (addr_view v) = v.header
header_of (error_view h content) = h
header_of (done_view h error) = h

-- The request that the socket writes: the header, and the address family of the payload, whose other
-- fields are 0.
pub record Request : Type 0 where
  pub nlmsg_len : ℕ
  pub nlmsg_type : ℕ
  pub nlmsg_flags : ℕ
  pub nlmsg_seq : ℕ
  pub nlmsg_pid : ℕ
  pub family : ℕ

-- The kernel: the pid, what the n-th `send` returns, and the requests sent, the last one first.
pub record Kernel : Type 0 where
  pub pid : ℕ
  pub sent : ℕ → ℤ
  pub requests : List Request

-- NetlinkSocket: whether the descriptor is valid, and the counter.
pub record NetlinkSocket : Type 0 where
  pub is_valid : Bool
  pub sequence_number : ℕ

-- std::expected<int, int>
pub data Expected : Type 0 where
  value : ℕ → Expected
  unexpected : ℤ → Expected

abbrev pub Answer : Type 0
Answer = Expected × NetlinkSocket × Kernel

-- RTM_GETLINK, RTM_GETADDR, NLM_F_REQUEST | NLM_F_ACK | NLM_F_DUMP, AF_UNSPEC, and the two
-- NLMSG_LENGTHs.
abbrev rtm_getlink : ℕ
rtm_getlink = 18

abbrev rtm_getaddr : ℕ
rtm_getaddr = 22

abbrev dump_flags : ℕ
dump_flags = 773

abbrev link_length : ℕ
link_length = 32

abbrev addr_length : ℕ
addr_length = 24

-- What both requests do with the length and the type.
send_dump : ℕ → ℕ → NetlinkSocket → Kernel → Answer
send_dump len type socket kernel =
    let seq = suc socket.sequence_number in
    let request : Request = record {
      nlmsg_len = len;
      nlmsg_type = type;
      nlmsg_flags = dump_flags;
      nlmsg_seq = seq;
      nlmsg_pid = kernel.pid;
      family = 0;
    } in
    (
      if ltb_int (kernel.sent (length kernel.requests)) (pos len)
          then unexpected (negsuc 2)
          else value seq,
      record socket { sequence_number = seq },
      record kernel { requests = request ∷ kernel.requests },
    )

-- SendGetLinkDumpMessage
unfoldable pub send_get_link_dump_message : NetlinkSocket → Kernel → Answer
unfolding send_dump
send_get_link_dump_message socket kernel =
    if socket.is_valid
    then send_dump link_length rtm_getlink socket kernel
    else (unexpected (negsuc 1), socket, kernel)

-- SendGetAddrMessage
unfoldable pub send_get_addr_message : NetlinkSocket → Kernel → Answer
unfolding send_dump
send_get_addr_message socket kernel =
    if socket.is_valid
    then send_dump addr_length rtm_getaddr socket kernel
    else (unexpected (negsuc 1), socket, kernel)
