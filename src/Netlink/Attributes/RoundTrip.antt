-- ===== src/Netlink/Attributes/RoundTrip.antt =====
-- The attributes of a message as the kernel writes them, each padded to four bytes, and their way
-- through parseTlvs of source/src/netlink_monitor.cc.
use link_layer_discovery.Base.{
  ℕ, zero, suc, ◌+◌, ◌-◌, ◌^◌, ◌≤◌, ◌<◌, ◌≡◌, refl, List, [], ◌∷◌, ◌++◌, some, arith, All, length,
  length-append, append_assoc, append-nil, subst, drop, take-append_of_length,
  drop-append_of_length,
}
use link_layer_discovery.Base.Words.{u64}
use link_layer_discovery.Netlink.{Header, TlvView}
use link_layer_discovery.Netlink.Fields.{
  write_field, align, length-write_field, read_field-write_field,
}
use link_layer_discovery.Netlink.Attributes.{
  attribute, take_value, read_attribute, attributes, keep_attribute, parse_tlvs, payload_left,
}

-- The zero bytes up to the next multiple of four.
unfoldable pub zeros_to : ℕ → List ℕ
zeros_to zero = []
zeros_to (suc n) = 0 ∷ zeros_to n

length-zeros_to : (n : ℕ) → length (zeros_to n) ≡ n
unfolding zeros_to
length-zeros_to zero = refl
length-zeros_to (suc n) = omega (arith, length-zeros_to n)

abbrev pub attribute_size : TlvView → ℕ
attribute_size t = 4 + length t.value

abbrev pub write_attribute : TlvView → List ℕ
write_attribute t =
    write_field 2 (attribute_size t)
    ++ (write_field 2 t.rta_type
        ++ (t.value ++ zeros_to (align (attribute_size t) - attribute_size t)))

unfoldable pub write_attributes : List TlvView → List ℕ
write_attributes [] = []
write_attributes (t ∷ ts) = write_attribute t ++ write_attributes ts

-- An attribute whose length and type fit their fields.
pub record Fits (t : TlvView) : Type 0 where
  pub size_fits : attribute_size t < 2 ^ 16
  pub type_fits : t.rta_type < 2 ^ 16

pub length-write_attribute :
    (t : TlvView) → Fits t → length (write_attribute t) ≡ align (attribute_size t)
length-write_attribute t h =
    let n = attribute_size t in
    let pad = align n - n in
    let size_fits = h.size_fits in
    rw (length-append, length-append, length-append)
      (omega (arith, length-write_field 2 n, length-write_field 2 t.rta_type, length-zeros_to pad))

-- RTA_OK holds where the attribute is within what remains.
take_value_lem :
    (len type : ℕ) (value rest : List ℕ)
    → length value ≡ len - 4
    → take_value len type (value ++ rest)
      ≡ attribute (record { rta_type = type; value = value }) (align len)
unfolding take_value
take_value_lem len type value rest e =
    ground (arith, length-append value rest, take-append_of_length (len - 4) value rest e)

pub read_attribute-write_attribute :
    (t : TlvView) (remaining : ℕ) (rest : List ℕ)
    → Fits t
    → attribute_size t ≤ remaining
    → read_attribute remaining (write_attribute t ++ rest) ≡ attribute t (align (attribute_size t))
unfolding read_attribute
read_attribute-write_attribute t remaining rest h enough =
    let n = attribute_size t in
    let tail = zeros_to (align n - n) ++ rest in
    simp
      (
        append_assoc,
        read_field-write_field 2 n (write_field 2 t.rta_type ++ (t.value ++ tail)) h.size_fits,
        read_field-write_field 2 t.rta_type (t.value ++ tail) h.type_fits,
      )
      (ground (arith, take_value_lem n t.rta_type t.value tail (omega arith)))

-- How many bytes the attributes take.
abbrev pub attributes_size : List TlvView → ℕ
attributes_size [] = 0
attributes_size (t ∷ ts) = align (attribute_size t) + attributes_size ts

pub length-write_attributes :
    (ts : List TlvView) → All Fits ts → length (write_attributes ts) ≡ attributes_size ts
unfolding write_attributes
length-write_attributes [] h = refl
length-write_attributes (t ∷ ts) h = omega (
  arith,
  length-append (write_attribute t) (write_attributes ts),
  length-write_attribute t h.0,
  length-write_attributes ts h.1,
)

-- The loop reads back what was written, and stops where nothing remains.
attributes-write_attributes :
    (fuel : ℕ) (ts : List TlvView) (rest : List ℕ)
    → All Fits ts
    → attributes_size ts < fuel
    → attributes_size ts < 2 ^ 64
    → attributes fuel (attributes_size ts) (write_attributes ts ++ rest) ≡ some ts
unfolding attributes write_attributes
attributes-write_attributes zero ts rest h enough fits = absurd (omega arith)
attributes-write_attributes (suc fuel) [] rest h enough fits = unfold read_attribute in ground arith
attributes-write_attributes (suc fuel) (t ∷ ts) rest h enough fits =
    let size_fits = h.0.size_fits in
    let n = attribute_size t in
    let left = write_attributes ts ++ rest in
    let size = attributes_size (t ∷ ts) in
    let step : read_attribute size (write_attributes (t ∷ ts) ++ rest) ≡ attribute t (align n) =
      rw append_assoc (read_attribute-write_attribute t size left h.0 (omega arith)) in
    let dropped : drop (align n) (write_attributes (t ∷ ts) ++ rest) ≡ left =
      rw append_assoc
        (drop-append_of_length (align n) (write_attribute t) left (length-write_attribute t h.0)) in
    let remaining : u64 (size + (2 ^ 64 - align n)) ≡ attributes_size ts = omega arith in
    let others = attributes-write_attributes fuel ts rest h.1 (omega arith) (omega arith) in
    rw (attributes, step, dropped, remaining, others, keep_attribute) refl

-- What stands before the attributes has the aligned size, and the length of the header counts both.
pub parse_tlvs-write_attributes :
    (h : Header) (size : ℕ) (front : List ℕ) (ts : List TlvView)
    → All Fits ts
    → length front ≡ align (size + 16)
    → h.nlmsg_len ≡ length front + attributes_size ts
    → h.nlmsg_len < 2 ^ 32
    → parse_tlvs h (front ++ write_attributes ts) size ≡ some ts
unfolding parse_tlvs
parse_tlvs-write_attributes h size front ts fits aligned total small =
    let packet = front ++ write_attributes ts in
    let whole : length packet ≡ align (size + 16) + attributes_size ts =
      omega (arith, length-append front (write_attributes ts), length-write_attributes ts fits) in
    let left : payload_left h size ≡ attributes_size ts = omega arith in
    let dropped = drop-append_of_length (align (size + 16)) front (write_attributes ts) aligned in
    let parsed =
      attributes-write_attributes (suc (length packet)) ts [] fits (omega arith) (omega arith) in
    let parsed_all : attributes (suc (length packet)) (attributes_size ts) (write_attributes ts)
        ≡ some ts =
      subst (λ bytes. attributes (suc (length packet)) (attributes_size ts) bytes ≡ some ts)
        (append-nil (write_attributes ts)) parsed in
    ground (arith, dropped, left, parsed_all)
