-- ===== src/Base/Key.antt =====
-- Keys of an ordered map: `==` and `<` with their laws, for numbers and, in lexicographic order,
-- for vectors of keys.
use Prim.Native.Nat.{ℕ}
use mathlib.Core.Path.{◌≡◌, refl}
use mathlib.Core.Logic.{◌↔◌}
use mathlib.Core.Bool.{Bool, true, false, ◌&&◌, ◌||◌}
use mathlib.Core.List.{List, [], ◌∷◌}
use native.Mathlib.Omega.{arith}
use link_layer_discovery.Base.Tests.{ltb, ◌==◌ as nat_beq, ==_iff}

pub record Key {ℓ} (K : Type ℓ) : Type ℓ where
  pub beq : K → K → Bool
  pub less : K → K → Bool
  pub beq_iff : (a b : K) → (beq a b ≡ true) ↔ (a ≡ b)
  pub less_irrefl : (a : K) → less a a ≡ false
  pub less_trans : (a b c : K) → less a b ≡ true → less b c ≡ true → less a c ≡ true
  pub less_total : (a b : K) → beq a b ≡ false → less a b ≡ false → less b a ≡ true

pub nat_less_irrefl : (a : ℕ) → ltb a a ≡ false
nat_less_irrefl a = ground arith

pub nat_less_trans : (a b c : ℕ) → ltb a b ≡ true → ltb b c ≡ true → ltb a c ≡ true
nat_less_trans a b c p q = ground arith

pub nat_less_total : (a b : ℕ) → nat_beq a b ≡ false → ltb a b ≡ false → ltb b a ≡ true
nat_less_total a b p q = ground arith

instance abbrev pub nat_key : Key ℕ
nat_key = record {
  beq = nat_beq;
  less = ltb;
  beq_iff = ==_iff;
  less_irrefl = nat_less_irrefl;
  less_trans = nat_less_trans;
  less_total = nat_less_total;
}

-- `==` and `<` of `std::vector<std::byte>`.
abbrev pub bytes_beq : List ℕ → List ℕ → Bool
bytes_beq [] [] = true
bytes_beq [] (b ∷ bs) = false
bytes_beq (a ∷ as') [] = false
bytes_beq (a ∷ as') (b ∷ bs) = nat_beq a b && bytes_beq as' bs

abbrev pub bytes_less : List ℕ → List ℕ → Bool
bytes_less [] [] = false
bytes_less [] (b ∷ bs) = true
bytes_less (a ∷ as') [] = false
bytes_less (a ∷ as') (b ∷ bs) = ltb a b || (nat_beq a b && bytes_less as' bs)

bytes_beq→eq : (xs ys : List ℕ) → bytes_beq xs ys ≡ true → xs ≡ ys
bytes_beq→eq [] [] h = refl
bytes_beq→eq [] (y ∷ ys) h = cc
bytes_beq→eq (x ∷ xs) [] h = cc
bytes_beq→eq (x ∷ xs) (y ∷ ys) h = ground (arith, bytes_beq→eq xs ys)

bytes_beq_self : (xs : List ℕ) → bytes_beq xs xs ≡ true
bytes_beq_self [] = refl
bytes_beq_self (x ∷ xs) = ground (arith, bytes_beq_self xs)

pub bytes_beq_iff : (xs ys : List ℕ) → (bytes_beq xs ys ≡ true) ↔ (xs ≡ ys)
bytes_beq_iff xs ys = (bytes_beq→eq xs ys, λ e. rw e (bytes_beq_self ys))

pub bytes_less_irrefl : (xs : List ℕ) → bytes_less xs xs ≡ false
bytes_less_irrefl [] = refl
bytes_less_irrefl (x ∷ xs) = ground (arith, bytes_less_irrefl xs)

pub bytes_less_trans :
    (xs ys zs : List ℕ)
    → bytes_less xs ys ≡ true
    → bytes_less ys zs ≡ true
    → bytes_less xs zs ≡ true
bytes_less_trans [] [] zs p q = cc
bytes_less_trans [] (y ∷ ys) [] p q = cc
bytes_less_trans [] (y ∷ ys) (z ∷ zs) p q = refl
bytes_less_trans (x ∷ xs) [] zs p q = cc
bytes_less_trans (x ∷ xs) (y ∷ ys) [] p q = cc
bytes_less_trans (x ∷ xs) (y ∷ ys) (z ∷ zs) p q = ground (arith, bytes_less_trans xs ys zs)

pub bytes_less_total :
    (xs ys : List ℕ) → bytes_beq xs ys ≡ false → bytes_less xs ys ≡ false → bytes_less ys xs ≡ true
bytes_less_total [] [] p q = cc
bytes_less_total [] (y ∷ ys) p q = cc
bytes_less_total (x ∷ xs) [] p q = refl
bytes_less_total (x ∷ xs) (y ∷ ys) p q = ground (arith, bytes_less_total xs ys)

instance abbrev pub bytes_key : Key (List ℕ)
bytes_key = record {
  beq = bytes_beq;
  less = bytes_less;
  beq_iff = bytes_beq_iff;
  less_irrefl = bytes_less_irrefl;
  less_trans = bytes_less_trans;
  less_total = bytes_less_total;
}
