-- ===== src/Lldp/Log/Text.antt =====
-- What the printing functions of source/include/lldp.hh write, as texts.
use link_layer_discovery.Base.{
  ℕ, ◌<◌, ◌≡◌, refl, ◌∙◌, true, Bool-cases, inl, inr, List, [], ◌∷◌, ◌++◌, Option, none, some,
  arith, All, length, ◌==◌, ◌&&◌, if◌then◌else◌,
}
use link_layer_discovery.Base.Words.{IsByte}
use link_layer_discovery.Base.Stream.{
  Stream, codes, put_text, put_number, set_base, set_fill, hex_byte, padded_byte, Prints,
  put_text-Prints, Prints-append, Prints-nothing,
}
use link_layer_discovery.Lldp.Log.{
  Ntop, log_octets, log_mac_body, log_mac, log_ipv4, log_ipv6, log_bytes, log_unknown, log_network,
  log_rest, log_port,
}

put_byte-Prints :
    (b : ℕ) (s : Stream)
    → b < 256
    → s.hex ≡ true
    → s.fill ≡ b'0'
    → Prints (hex_byte b) s (put_number 2 b s)
unfolding put_number put_text
put_byte-Prints b s byte hex fill =
    rw (hex, fill, padded_byte b byte) (record { written = refl; same_base = refl })

abbrev pub octets_text : List ℕ → List ℕ
octets_text [] = []
octets_text (b ∷ bytes) = (codes ":" ++ hex_byte b) ++ octets_text bytes

-- Six bytes, with colons between them.
abbrev pub mac_text : List ℕ → List ℕ
mac_text [] = []
mac_text (b ∷ bytes) = hex_byte b ++ octets_text bytes

log_octets-Prints :
    (bytes : List ℕ) (s : Stream)
    → All IsByte bytes
    → s.hex ≡ true
    → s.fill ≡ b'0'
    → Prints (octets_text bytes) s (log_octets bytes s)
unfolding log_octets
log_octets-Prints [] s all hex fill = Prints-nothing s
log_octets-Prints (b ∷ bytes) s all hex fill =
    let colon = put_text (codes ":") s in
    let hex' : colon.hex ≡ true = unfold put_text in hex in
    let fill' : colon.fill ≡ b'0' = unfold put_text in fill in
    let next = put_byte-Prints b colon all.0 hex' fill' in
    let rest =
      log_octets-Prints bytes (put_number 2 b colon) all.1 (next.same_base ∙ hex')
        (unfold put_number put_text in fill) in
    Prints-append (Prints-append (put_text-Prints (codes ":") s) next) rest

-- Whatever base the stream is in, and it is in that base again.
pub log_mac-Prints :
    (mac : List ℕ) (s : Stream) → All IsByte mac → Prints (mac_text mac) s (log_mac mac s)
unfolding log_mac log_mac_body
log_mac-Prints [] s all = Prints-nothing s
log_mac-Prints (b ∷ bytes) s all =
    let ready = set_fill b'0' (set_base true s) in
    let first = put_byte-Prints b ready all.0 refl refl in
    let rest =
      log_octets-Prints bytes (put_number 2 b ready) all.1 first.same_base
        (unfold put_number put_text in refl) in
    record { written = (Prints-append first rest).written; same_base = refl }

-- The bytes of a port that is not understood, each with a space after it.
abbrev bytes_text : List ℕ → List ℕ
bytes_text [] = []
bytes_text (b ∷ bytes) = (hex_byte b ++ codes " ") ++ bytes_text bytes

log_bytes-Prints :
    (bytes : List ℕ) (s : Stream)
    → All IsByte bytes
    → s.hex ≡ true
    → s.fill ≡ b'0'
    → Prints (bytes_text bytes) s (log_bytes bytes s)
unfolding log_bytes
log_bytes-Prints [] s all hex fill = Prints-nothing s
log_bytes-Prints (b ∷ bytes) s all hex fill =
    let first = put_byte-Prints b s all.0 hex fill in
    let after = put_text (codes " ") (put_number 2 b s) in
    let rest =
      log_bytes-Prints bytes after all.1 (unfold put_text in (first.same_base ∙ hex))
        (unfold put_number put_text in fill) in
    Prints-append (Prints-append first (put_text-Prints (codes " ") (put_number 2 b s))) rest

log_unknown-Prints :
    (port : List ℕ) (s : Stream) → All IsByte port → Prints (bytes_text port) s (log_unknown port s)
unfolding log_unknown
log_unknown-Prints port s all =
    let ready = set_fill b'0' (set_base true s) in
    let printed = log_bytes-Prints port ready all refl refl in
    record { written = printed.written; same_base = refl }

abbrev pub ipv4_text : Ntop → Option (List ℕ) → List ℕ
ipv4_text ntop none = codes "None"
ipv4_text ntop (some a) = ntop.ipv4 a

abbrev pub ipv6_text : Ntop → Option (List ℕ) → List ℕ
ipv6_text ntop none = codes "None"
ipv6_text ntop (some a) = ntop.ipv6 a

pub log_ipv4-Prints :
    (ntop : Ntop) (a : Option (List ℕ)) (s : Stream)
    → Prints (ipv4_text ntop a) s (log_ipv4 ntop a s)
unfolding log_ipv4
log_ipv4-Prints ntop none s = put_text-Prints (codes "None") s
log_ipv4-Prints ntop (some a) s = put_text-Prints (ntop.ipv4 a) s

pub log_ipv6-Prints :
    (ntop : Ntop) (a : Option (List ℕ)) (s : Stream)
    → Prints (ipv6_text ntop a) s (log_ipv6 ntop a s)
unfolding log_ipv6
log_ipv6-Prints ntop none s = put_text-Prints (codes "None") s
log_ipv6-Prints ntop (some a) s = put_text-Prints (ntop.ipv6 a) s

-- What a port identifier is.
pub data PortKind : Type 0 where
  missing : PortKind
  hardware : List ℕ → PortKind
  local_text : List ℕ → PortKind
  internet : List ℕ → PortKind
  internet6 : List ℕ → PortKind
  unreadable : List ℕ → PortKind
  silent : PortKind

-- The kind of a network address, by its family.
abbrev network_kind : ℕ → List ℕ → PortKind
network_kind family address =
    if (family == 6) && (length address == 6)
    then hardware address
    else if (family == 1) && (length address == 4)
    then internet address
    else if (family == 2) && (length address == 16)
    then internet6 address
    else unreadable (4 ∷ family ∷ address)

abbrev pub port_kind : List ℕ → PortKind
port_kind [] = missing
port_kind (subtype ∷ []) = if subtype == 7 then local_text [] else silent
port_kind (subtype ∷ family ∷ rest) =
    if (subtype == 3) && (length rest == 5)
    then hardware (family ∷ rest)
    else if subtype == 7
    then local_text (family ∷ rest)
    else if subtype == 4
    then network_kind family rest
    else silent

abbrev pub kind_text : Ntop → PortKind → List ℕ
kind_text ntop missing = codes "Missing"
kind_text ntop (hardware mac) = mac_text mac
kind_text ntop (local_text name) = name
kind_text ntop (internet a) = ntop.ipv4 a
kind_text ntop (internet6 a) = ntop.ipv6 a
kind_text ntop (unreadable bytes) = bytes_text bytes
kind_text ntop silent = []

log_network-Prints :
    (ntop : Ntop) (family : ℕ) (address : List ℕ) (s : Stream)
    → All IsByte (4 ∷ family ∷ address)
    → Prints
        (kind_text ntop (network_kind family address))
        s
        (log_network ntop family address (4 ∷ family ∷ address) s)
unfolding log_network
log_network-Prints ntop family address s all = ground (
  arith,
  log_mac-Prints address s all.1.1,
  put_text-Prints (ntop.ipv4 address) s,
  put_text-Prints (ntop.ipv6 address) s,
  log_unknown-Prints (4 ∷ family ∷ address) s all,
)

-- logPort writes what the kind of the port says, and leaves the stream in the base that it had.
pub log_port-Prints :
    (ntop : Ntop) (port : List ℕ) (s : Stream)
    → All IsByte port
    → Prints (kind_text ntop (port_kind port)) s (log_port ntop port s)
unfolding log_port log_rest
log_port-Prints ntop [] s all = put_text-Prints (codes "Missing") s
log_port-Prints ntop (subtype ∷ []) s all = ground (arith, put_text-Prints [] s, Prints-nothing s)
log_port-Prints ntop (subtype ∷ family ∷ rest) s all = elim (Bool-cases (subtype == 4)) [
  | inl net ↦
      let e : subtype ≡ 4 = ground arith in
      let four : All IsByte (4 ∷ family ∷ rest) = (omega arith, all.1) in
      rw e (log_network-Prints ntop family rest s four)
  | inr other ↦ ground (
    arith,
    other,
    log_mac-Prints (family ∷ rest) s all.1,
    put_text-Prints (family ∷ rest) s,
    Prints-nothing s,
  )
]
