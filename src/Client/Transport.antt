-- ===== src/Client/Transport.antt =====
-- The client's end of the socket: sendRequest, readData, the head of readDataPacket, and ClientReceiverSocket::GetData as a
-- method, source/src/client.cc. What `recvmsg` does is a parameter.
use link_layer_discovery.Base.{
  ℕ, suc, ◌≡◌, refl, ap, List, [], ◌∷◌, map, Option, some, ltb, if◌then◌else◌, ◌>>=◌,
}
use link_layer_discovery.Base.Words.{u16}
use link_layer_discovery.Base.Ints.{ℤ, pos, negsuc}
use link_layer_discovery.Base.Key.{nat_key}
use link_layer_discovery.Base.Map.{Map}
use link_layer_discovery.Client.Packet.{ClientPacket}
use link_layer_discovery.Client.Receive.{
  NeighbourDeviceData, Tables, Reading, packet, failed, get_data_from, get_data, process_reading,
}

-- One `recvmsg`: its result, `errno` afterwards, and the packet that it fills.
pub record Received : Type 0 where
  pub result : ℤ
  pub errno : ℕ
  pub buffer : ClientPacket

-- `sizeof(ClientPacket)`
abbrev pub packet_size : ℕ
packet_size = 516

-- std::expected<ClientPacket, int>
pub data ReadData : Type 0 where
  data_transport : ClientPacket → ReadData
  unexpected : ℕ → ReadData

check_size : ℤ → Received → ReadData
check_size (negsuc n) r = unexpected r.errno
check_size (pos n) r = if ltb n packet_size then unexpected n else data_transport r.buffer

-- readData
unfoldable pub read_data : Received → ReadData
unfolding check_size
read_data r = check_size r.result r

-- The head of readDataPacket: the error of readData is dropped for `errno`.
reading_from : ℕ → ReadData → Reading
reading_from errno (unexpected error) = failed errno
reading_from errno (data_transport p) = packet p

unfoldable pub reading_of : Received → Reading
unfolding reading_from
reading_of r = reading_from r.errno (read_data r)

-- ClientReceiverSocket, with the requests that sendRequest has sent, the last one first.
pub record ClientReceiverSocket : Type 0 where
  pub request_id : ℕ  -- uint16_t
  pub requests : List ℕ

abbrev pub send_request : ClientReceiverSocket → ClientReceiverSocket
send_request c = record c { requests = c.request_id ∷ c.requests }

-- GetData
unfoldable pub get_data_method :
    List Received → ClientReceiverSocket → Option (Map ℕ NeighbourDeviceData × ClientReceiverSocket)
get_data_method received c = do
  table ← get_data (map reading_of received)
  some (table, record (send_request c) { request_id = u16 (suc c.request_id) })

-- A packet that arrives whole.
abbrev pub whole : ClientPacket → Received
whole p = record { result = pos packet_size; errno = 0; buffer = p }

pub readings_whole :
    (packets : List ClientPacket) → map reading_of (map whole packets) ≡ map packet packets
unfolding reading_of read_data
readings_whole [] = refl
readings_whole (p ∷ packets) = ap (λ rest. packet p ∷ rest) (readings_whole packets)

-- Where the server has closed the connection, and `errno` is still EAGAIN from an earlier call, the reading is passed over
-- and the loop reads again.
pub get_data_from_closed :
    (fuel : ℕ) (r : Received) (readings : List Reading) (t : Tables)
    → r.result ≡ pos 0
    → r.errno ≡ 11
    → get_data_from (suc fuel) (reading_of r ∷ readings) t ≡ get_data_from fuel readings t
unfolding get_data_from reading_of read_data process_reading
get_data_from_closed fuel r readings t ends stale = rw (ends, stale) refl
