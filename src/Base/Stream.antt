-- ===== src/Base/Stream.antt =====
-- std::cout, as far as the programs use it: what was written, the base of the numbers, and the fill character. A width
-- is given with the number that it is for.
use Prim.Native.Nat.{ℕ, zero, suc, ◌+◌, ◌-◌, ◌/◌, ◌%◌, ◌≤◌, ◌<◌}
use Prim.Native.Char.{code}
use Prim.Native.String.{String}
use mathlib.Core.Path.{◌≡◌, refl, ◌∙◌}
use mathlib.Core.Logic.{inl, inr}
use mathlib.Core.Bool.{Bool, true, false}
use mathlib.Core.List.{List, [], ◌∷◌, ◌++◌, append_assoc, append-nil}
use native.Mathlib.Omega.{arith}
use link_layer_discovery.Base.Tests.{ltb, ◌==◌, if◌then◌else◌, Bool-cases, tests}
use link_layer_discovery.Base.Lists.{length}

-- The code points of a text.
abbrev pub codes : String → List ℕ
codes String.[] = []
codes (String.◌∷◌ c s) = code c ∷ codes s

pub record Stream : Type 0 where
  pub text : List ℕ
  pub hex : Bool
  pub fill : ℕ

-- `<< text`
unfoldable pub put_text : List ℕ → Stream → Stream
put_text t s = record s { text = s.text ++ t }

-- std::hex, std::setfill, and `std::cout.flags(flags)`, which brings the base back and not the fill.
abbrev pub set_base : Bool → Stream → Stream
set_base hex s = record s { hex = hex }

abbrev pub set_fill : ℕ → Stream → Stream
set_fill c s = record s { fill = c }

abbrev pub digit : ℕ → ℕ
digit d = if ltb d 10 then d + b'0' else d - 10 + b'a'

-- The digits of a number in a base above 1: as much fuel as one more than the number is enough.
unfoldable pub digits : ℕ → ℕ → ℕ → List ℕ → List ℕ
digits zero base n out = out
digits (suc fuel) base n out =
    let more = digits fuel base (n / base) (digit (n % base) ∷ out) in
    if n / base == 0 then digit (n % base) ∷ out else more

abbrev pub base_of : Bool → ℕ
base_of hex = if hex then 16 else 10

-- A number as the stream writes it.
unfoldable pub number : Bool → ℕ → List ℕ
number hex n = digits (suc n) (base_of hex) n []

unfoldable pub repeat : ℕ → ℕ → List ℕ
repeat zero c = []
repeat (suc n) c = c ∷ repeat n c

-- `<< std::setw(width) << n`
unfoldable pub put_number : ℕ → ℕ → Stream → Stream
unfolding put_text
put_number width n s =
    put_text (repeat (width - length (number s.hex n)) s.fill ++ number s.hex n) s

-- From `s` to `t` exactly `out` was written, and the base is the same.
pub record Prints (out : List ℕ) (s t : Stream) : Type 0 where
  pub written : t.text ≡ s.text ++ out
  pub same_base : t.hex ≡ s.hex

pub put_text-Prints : (out : List ℕ) (s : Stream) → Prints out s (put_text out s)
unfolding put_text
put_text-Prints out s = record { written = refl; same_base = refl }

-- A number without a width, in decimal.
pub put_number-Prints :
    (n : ℕ) (s : Stream) → s.hex ≡ false → Prints (number false n) s (put_number 0 n s)
unfolding put_number put_text repeat
put_number-Prints n s e =
    let no_fill : 0 - length (number false n) ≡ 0 = omega arith in
    rw (e, no_fill) (record { written = refl; same_base = refl })

-- One thing after the other.
pub Prints-append :
    {xs ys : List ℕ} {s t u : Stream} → Prints xs s t → Prints ys t u → Prints (xs ++ ys) s u
Prints-append {xs} {ys} {s} {t} {u} p q = record {
  written = rw (q.written, p.written) (append_assoc s.text xs ys);
  same_base = q.same_base ∙ p.same_base;
}

pub Prints-nothing : (s : Stream) → Prints [] s s
Prints-nothing s = record { written = rw append-nil refl; same_base = refl }

-- A byte as two hexadecimal digits.
abbrev pub hex_byte : ℕ → List ℕ
hex_byte b = digit (b / 16) ∷ digit (b % 16) ∷ []

number_low : (b : ℕ) → b < 16 → number true b ≡ digit b ∷ []
unfolding number digits
number_low b h =
    let none : b / 16 ≡ 0 = omega arith in
    let self : b % 16 ≡ b = omega arith in rw (none, self) refl

number_high : (b : ℕ) → 16 ≤ b → b < 256 → number true b ≡ hex_byte b
unfolding number digits
number_high zero l h = absurd (omega arith)
number_high (suc b) l h =
    let none : suc b / 16 / 16 ≡ 0 = omega arith in
    let self : suc b / 16 % 16 ≡ suc b / 16 = omega arith in
    let more : (suc b / 16 == 0) ≡ false = ground arith in rw (more, none, self) refl

-- What `std::setw(2)` makes of a byte, in hexadecimal and with '0' for the fill.
pub padded_byte :
    (b : ℕ) → b < 256 → repeat (2 - length (number true b)) b'0' ++ number true b ≡ hex_byte b
unfolding repeat
padded_byte b h = elim (Bool-cases (ltb b 16)) [
  | inl low ↦
      let none : b / 16 ≡ 0 = omega tests in
      let self : b % 16 ≡ b = omega tests in rw (number_low b (omega tests), none, self) refl
  | inr high ↦ rw (number_high b (ground (arith, high)) h) refl
]
