-- ===== src/Lldp/Log/Read.antt =====
-- An address that logMac of source/include/lldp.hh has printed can be read back.
use link_layer_discovery.Base.{
  ℕ, ◌+◌, ◌-◌, ◌*◌, ◌/◌, ◌%◌, ◌<◌, ◌≡◌, refl, List, [], ◌∷◌, ◌++◌, Option, none, some, arith, All,
  leb, ◌==◌, ◌&&◌, ◌>>=◌, if◌then◌else◌,
}
use link_layer_discovery.Base.Words.{IsByte}
use link_layer_discovery.Base.Stream.{Stream, digit}
use link_layer_discovery.Lldp.Log.{log_mac}
use link_layer_discovery.Lldp.Log.Text.{octets_text, mac_text, log_mac-Prints}

abbrev read_digit : ℕ → Option ℕ
read_digit c =
    if leb b'0' c && leb c b'9'
    then some (c - b'0')
    else if leb b'a' c && leb c b'f'
    then some (c - b'a' + 10)
    else none

read_byte : ℕ → ℕ → Option ℕ
read_byte high low = do h ← read_digit high; l ← read_digit low; some (h * 16 + l)

read_octets : List ℕ → Option (List ℕ)
read_octets [] = some []
read_octets (c ∷ []) = none
read_octets (c ∷ high ∷ []) = none
read_octets (c ∷ high ∷ low ∷ rest) = do
  b ← (if c == b':' then read_byte high low else none)
  bytes ← read_octets rest
  some (b ∷ bytes)

-- Pairs of hexadecimal digits, with colons between them.
pub read_mac : List ℕ → Option (List ℕ)
unfolding read_octets
read_mac [] = none
read_mac (high ∷ []) = none
read_mac (high ∷ low ∷ rest) = do b ← read_byte high low; bytes ← read_octets rest; some (b ∷ bytes)

read_digit_lem : (d : ℕ) → d < 16 → read_digit (digit d) ≡ some d
read_digit_lem d h = ground arith

read_byte_lem : (b : ℕ) → b < 256 → read_byte (digit (b / 16)) (digit (b % 16)) ≡ some b
unfolding read_byte
read_byte_lem b h =
    rw (read_digit_lem (b / 16) (omega arith), read_digit_lem (b % 16) (omega arith)) (ground arith)

read_octets_lem : (bytes : List ℕ) → All IsByte bytes → read_octets (octets_text bytes) ≡ some bytes
unfolding read_octets
read_octets_lem [] all = refl
read_octets_lem (b ∷ bytes) all = rw (read_byte_lem b all.0, read_octets_lem bytes all.1) refl

-- The text that logMac adds for an address that is not empty is read back as that address, and the stream writes
-- numbers in the base that it was in.
pub read_mac-log_mac :
    (b : ℕ) (bytes : List ℕ) (s : Stream)
    → All IsByte (b ∷ bytes)
    → (out : List ℕ) × ((log_mac (b ∷ bytes) s).text ≡ s.text ++ out)
      × (read_mac out ≡ some (b ∷ bytes))
      × ((log_mac (b ∷ bytes) s).hex ≡ s.hex)
unfolding read_mac
read_mac-log_mac b bytes s all =
    let p = log_mac-Prints (b ∷ bytes) s all in
    (
      mac_text (b ∷ bytes),
      p.written,
      rw (read_byte_lem b all.0, read_octets_lem bytes all.1) refl,
      p.same_base,
    )
