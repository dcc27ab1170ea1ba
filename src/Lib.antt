-- ===== src/Lib.antt =====
-- A model of link-layer-discovery, an LLDP daemon for Linux: it announces each local interface with LLDP
-- frames, keeps a list of the neighbours that announce themselves, and shows that list to clients.
--
-- The parts and how they interact. Netlink tells which local interfaces there are: two readers ask for dumps,
-- the device repository collects the answers, and at the end of a dump the LLDP repository starts, updates or
-- ends one sender for each interface. A sender paces its frames with a timer and credits. The monitor parses the
-- frames of the neighbours into the neighbour list. A clock ticks the list, the repositories and the senders. A
-- client asks over a Unix socket, and the server dumps the list to it.
--
-- Lldp: constants of source/include/lldp.hh; Log is its functions that print addresses and ports. Base/Stream is the
--   output stream that they write to: a text, and whether numbers are written in hexadecimal.
-- Packet: source/src/lldp_packet.cc. A span or a buffer is a list of bytes; a `ToFrameBuffer` returns what it
--   writes, a `FromSpan` that takes its span by reference also returns the bytes that are left. `other_tlvs` runs
--   on fuel, the number of bytes left, which is enough since each round takes two bytes at least.
-- Monitor: source/src/lldp_monitor.cc. Entry is lldpduToNeighbourEntry, Frames is lldpFrameParser, Neighbours is
--   NeighbourList with its Tick, Socket is EthernetLldpMonitor::Call, whose two `recvmsg` are a parameter. A
--   result `none` of lldpFrameParser is undefined behaviour of C++.
-- Device: netlink::DeviceData of source/include/netlink_monitor.hh.
-- Sender: source/src/lldp_sender.cc. A method takes and returns the sender and a host, which holds the static vector of the machine id,
--   the answer to the n-th `sendto`, and the calls made. Build is the frame, Update is LldpSender::Update.
--   Two spans of a frame are of local arrays, which are gone when sendFrame reads them: what is read then is a parameter,
--   a function of the bytes that were there.
-- Repository: source/src/lldp_repository.cc, the map of the senders; Moves is the moves of the whole object.
-- Netlink: the views and the dump requests of source/src/netlink_monitor.cc. Attributes is parseTlvs, Parse is
--   packetViewParser, Batch is NetlinkSocket::Call with its two `recvmsg` as a parameter; the kernel's structs are
--   read in the byte order of a little-endian host. A result `none` is a read, a span or an iterator past the end. The
--   loops run on one more than the number of bytes; a round takes four bytes or more. Netlink/Reader is DeviceReader
--   and IpReader, source/src/device_reader.cc and source/src/ip_reader.cc, and its Wiring their moves, with the reader
--   that each socket calls. For the requests the kernel is what the
--   n-th `send` returns. MachineId is getMachineId. Batch/Addresses and Batch/LinkDump are the bytes of whole dumps.
-- DeviceRepository: source/src/device_repository.cc, with the readers' callbacks as results of the readers'
--   methods, which make them last; Run is any sequence of packets and ticks; Batch goes from the bytes at the
--   device reader's socket to the devices, AddressDump from those at the address reader's socket to the senders, and
--   Cycle is the two together; Wiring is the moves of repositories, with the callbacks that they set.
-- Client: source/src/client.cc. Packet is the structs on the wire, Dump is DumpData, Receive is GetData; Yield and
--   Parts say what a run of entries leaves in the tables of the client. A result `none` of the two is a `recvmsg` that waits, or a copy or a range past the end
--   of an array. The source's own bound of 100000 packets is the fuel of GetData's loop.
--   Sockets is ClientSenderSocket::Call, ClientRepository and ClientListenSocket::Call, which work on the handlers
--   of Events; Transport is the client's end of the socket, with what `recvmsg` does as a parameter. Main is the command line of
--   source/src/client_main.cc, Table what it prints, and Program its main: the endless loop is a list of rounds, one for
--   each answer that has come.
-- Server: ClockHandler::Call of source/src/clock_handler.cc, and the server as any sequence of clock events, netlink
--   packets and frames. Main is the loop of source/src/server_main.cc over rounds of calls, with the signal that ends
--   it; Startup and Shutdown are the loops that add and remove the handlers. Rounds is the loop as ProcessEvents
--   with the Call functions of the registered handlers, and Program/Life all of main with it. Creation is LldpRepository::Create with the
--   Create functions below it, where any call of the operating system may fail, and Program the start of main. Dump is
--   ClockHandler::DumpInfo.
-- Events: source/src/event_handlers.cc and source/include/event_handlers.hh. Managers and handlers are numbered, a weak
--   pointer is a number under which no handler may stand any more; epoll_ctl is what its n-th call answers, epoll_wait
--   the ids that it returns, and a handler's Call a function on the state of the program: Server/Rounds has those of the server. The search for a free id runs on one
--   more than the number of events, which is enough while the counter does not wrap. Move and HandlerMove are the moves of
--   managers and of handlers.
-- Descriptor: source/src/owned_file_descriptor.cc and source/include/owned_file_descriptor.hh; the kernel is the set of
--   the open descriptors. Lifetime is any program over the objects, Deleting is DeletingOwnedFileDescriptor.
-- Opening: the Create functions that open one descriptor and set it up, in six of the sources above; Client/Listen is
--   the one that takes the lock and opens the server's socket. What the calls of the operating system answer is a
--   parameter.
-- Base: tests and lists over the native numbers, machine words, `int`, `std::map` as an association list in
--   ascending order, and objects by their number. Tests: the theorems on concrete inputs.
--
-- Machine integers keep their wrap-around (Base/Words), but for `int`, whose overflow C++ leaves undefined. Messages
-- to standard error have no counterpart.
--
-- Not modelled: messages to standard error; the getters; the move of
-- ClientReceiverSocket and of the sockets that hold one descriptor, beyond that of the descriptor itself; the scripts
-- and the Makefile. They are input and output, or call what is modelled. `inet_ntop` is a parameter of the functions that
-- print, and what getMachineId returns is one of the sender. The dangling span of an error view has no counterpart.
pub mod Base
pub mod Descriptor
pub mod Events
pub mod Lldp
pub mod Opening
pub mod Packet
pub mod Monitor
pub mod Device
pub mod Sender
pub mod Repository
pub mod Netlink
pub mod DeviceRepository
pub mod Client
pub mod Tests
pub mod Server
