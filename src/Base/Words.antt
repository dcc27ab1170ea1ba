-- ===== src/Base/Words.antt =====
-- Machine words: wrap-around and network byte order.
use Prim.Native.Nat.{ℕ, ◌+◌, ◌*◌, ◌/◌, ◌%◌, ◌<◌}
use mathlib.Core.List.{List, [], ◌∷◌}

abbrev pub u8 : ℕ → ℕ
u8 n = n % 256

abbrev pub u16 : ℕ → ℕ
u16 n = n % 65536

abbrev pub u32 : ℕ → ℕ
u32 n = n % 4294967296

abbrev pub u64 : ℕ → ℕ
u64 n = n % 18446744073709551616

abbrev pub IsByte : ℕ → Type 0
IsByte b = b < 256

-- The bytes of `htons(n)` and `htonl(n)` in memory: the highest first.
abbrev pub htons : ℕ → List ℕ
htons n = n / 256 % 256 ∷ n % 256 ∷ []

abbrev pub htonl : ℕ → List ℕ
htonl n = n / 16777216 % 256 ∷ n / 65536 % 256 ∷ n / 256 % 256 ∷ n % 256 ∷ []

-- The number whose bytes in memory are `hi`, `lo`, read by `ntohs`.
abbrev pub ntohs : ℕ → ℕ → ℕ
ntohs hi lo = hi * 256 + lo
