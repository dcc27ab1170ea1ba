-- ===== src/Tests/Printing.antt =====
-- What the two programs print.
use link_layer_discovery.Base.{ℕ, ◌≡◌, refl, true, false, List, [], ◌∷◌, ◌++◌, some, arith}
use link_layer_discovery.Base.Ints.{pos}
use link_layer_discovery.Base.Key.{nat_key, bytes_beq}
use link_layer_discovery.Base.Stream.{
  Stream, codes, Prints, put_text, put_number, digits, number, repeat,
}
use link_layer_discovery.Lldp.Log.{Ntop, log_octets, log_mac_body, log_mac}
use link_layer_discovery.Lldp.Log.Read.{read_mac, read_mac-log_mac}
use link_layer_discovery.Client.Packet.{ClientPacket}
use link_layer_discovery.Client.Main.{parse_args, default_options}
use link_layer_discovery.Client.Program.{Running, run_client}
use link_layer_discovery.Client.Program.Shown.{
  IsShown, serve, received_each, asked_each, sleeps_each, pages, run_client-serve,
}
use link_layer_discovery.Descriptor.{is_valid}
use link_layer_discovery.Monitor.Neighbours.{NeighbourList}
use link_layer_discovery.Opening.{Answers}
use link_layer_discovery.Server.Dump.{dump_info}
use link_layer_discovery.Server.Dump.Text.{info_text, dump_info-Prints}
use link_layer_discovery.Tests.{neighbours}
use link_layer_discovery.Tests.Clients.{device_info, neighbours_fit}

abbrev screen : Stream
screen = record { text = []; hex = false; fill = b' ' }

-- Some address of each family has some text.
abbrev ntop : Ntop
ntop = record { ipv4 = λ a. codes "10.0.0.1"; ipv6 = λ a. codes "::1" }

abbrev address : List ℕ
address = 2 ∷ 0 ∷ 255 ∷ 16 ∷ 10 ∷ 1 ∷ []

log_mac_address : (log_mac address screen).text ≡ codes "02:00:ff:10:0a:01"
unfolding log_mac log_mac_body log_octets put_text put_number digits number repeat
log_mac_address = refl

read_mac-log_mac_example :
    (out : List ℕ) × ((log_mac address screen).text ≡ [] ++ out)
    × (read_mac out ≡ some address)
    × ((log_mac address screen).hex ≡ false)
read_mac-log_mac_example = read_mac-log_mac 2 (0 ∷ 255 ∷ 16 ∷ 10 ∷ 1 ∷ []) screen (omega arith)

-- "client -c -t 9", and two rounds.
abbrev args : List (List ℕ)
args = codes "client" ∷ codes "-c" ∷ codes "-t" ∷ codes "9" ∷ []

args_continuous : (parse_args args default_options).run_continuous ≡ true
unfolding parse_args bytes_beq
args_continuous = refl

abbrev connected : Answers
connected = record { fd = pos 3; set_up = true }

is_connected : is_valid connected.fd ≡ true
unfolding is_valid
is_connected = refl

abbrev lists : List NeighbourList
lists = neighbours ∷ [] ∷ neighbours ∷ []

neighbours-IsShown : IsShown ntop device_info neighbours
neighbours-IsShown = record { fits = neighbours_fit; small = omega arith; bytes = omega arith }

nothing-IsShown : IsShown ntop device_info []
nothing-IsShown = record { fits = tt; small = omega arith; bytes = tt }

run_client-serve_example :
    (dumps : List (List ClientPacket)) × (serve ntop device_info 1 lists ≡ some dumps)
    × ((r : Running) × (run_client ntop args connected (received_each dumps) screen ≡ some r)
        × (r.client ≡ asked_each lists (record { request_id = 1; requests = [] }))
        × (r.sleeps ≡ sleeps_each (parse_args args default_options).continuous_timeout lists [])
        × Prints (pages ntop device_info lists) screen r.cout)
run_client-serve_example =
    run_client-serve ntop device_info args connected lists screen args_continuous is_connected refl
      (neighbours-IsShown, (nothing-IsShown, (neighbours-IsShown, tt))) refl

dump_info-Prints_example :
    Prints
      (info_text ntop (codes "id") device_info neighbours)
      screen
      (dump_info ntop (codes "id") device_info neighbours screen)
dump_info-Prints_example =
    dump_info-Prints ntop (codes "id") device_info neighbours screen (omega arith) (omega arith)
      refl
