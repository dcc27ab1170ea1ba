-- ===== src/Netlink/Fields.antt =====
-- Fields of the kernel's structs in memory, lowest byte first, and the alignment macros of netlink. Both
-- are documented parts of the interface that source/src/netlink_monitor.cc reads.
use link_layer_discovery.Base.{
  ℕ, zero, suc, ◌+◌, ◌*◌, ◌/◌, ◌%◌, ◌^◌, ◌<◌, ◌≡◌, refl, List, [], ◌∷◌, ◌++◌, Option, none, some,
  arith, length, ◌>>=◌, Option-cases, inl, inr,
}
use link_layer_discovery.Base.Words.{u32}

-- A field of some bytes, and the bytes that are left; `none` is a read past the end.
unfoldable pub read_field : ℕ → List ℕ → Option (ℕ × List ℕ)
read_field zero bytes = some (0, bytes)
read_field (suc n) [] = none
read_field (suc n) (b ∷ bs) = do (high, left) ← read_field n bs; some (b + 256 * high, left)

unfoldable pub write_field : ℕ → ℕ → List ℕ
write_field zero value = []
write_field (suc n) value = value % 256 ∷ write_field n (value / 256)

-- NLMSG_ALIGN and RTA_ALIGN: `~3U` has 32 bits, so the result of either has 32 bits.
abbrev pub align : ℕ → ℕ
align n = u32 (n + 3) / 4 * 4

pub length-write_field : (n value : ℕ) → length (write_field n value) ≡ n
unfolding write_field
length-write_field zero value = refl
length-write_field (suc n) value = omega (arith, length-write_field n (value / 256))

pub read_field-write_field :
    (n value : ℕ) (rest : List ℕ)
    → value < 256 ^ n
    → read_field n (write_field n value ++ rest) ≡ some (value, rest)
unfolding read_field write_field
read_field-write_field zero value rest h = ground arith
read_field-write_field (suc n) value rest h =
    let high : value / 256 < 256 ^ n = omega arith in
    rw (read_field-write_field n (value / 256) rest high) (ground arith)

-- A field that is there is not changed by what follows.
pub read_field-append :
    (n value : ℕ) (bytes left rest : List ℕ)
    → read_field n bytes ≡ some (value, left)
    → read_field n (bytes ++ rest) ≡ some (value, left ++ rest)
unfolding read_field
read_field-append zero value bytes left rest h = cc
read_field-append (suc n) value [] left rest h = cc
read_field-append (suc n) value (b ∷ bs) left rest h = elim (Option-cases (read_field n bs)) [
  | inl e ↦ absurd (ground (arith, e, h))
  | inr ((high, after), e) ↦ ground (arith, e, h, read_field-append n high bs after rest e)
]
