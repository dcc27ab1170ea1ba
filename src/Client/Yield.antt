-- ===== src/Client/Yield.antt =====
-- What a run of entries leaves in the tables of GetData, source/src/client.cc.
use link_layer_discovery.Base.{
  ℕ, zero, suc, ◌+◌, ◌-◌, ◌≤◌, List, [], ◌∷◌, ◌++◌, Option, none, some, length, ◌≡◌, refl, ◌∙◌,
  arith, All, All-append, length-append, ◌≢◌,
}
use link_layer_discovery.Base.Key.{nat_key}
use link_layer_discovery.Base.Map.{insert, lookup-insert, insert-insert}
use link_layer_discovery.Client.Packet.{Entry, zeros}
use link_layer_discovery.Client.Packet.RoundTrip.{FitsPacket}
use link_layer_discovery.Client.Receive.{
  NeighbourDeviceData, Tables, Step, undefined, stop, next, process_data_packet, change_neighbour,
  until_nul,
}

-- The entries one after the other.
abbrev pub process_all : List Entry → Tables → Step
process_all [] t = next t
process_all (e ∷ l) t = elim (process_data_packet t e) [
  | undefined ↦ undefined
  | stop ↦ stop
  | next t' ↦ process_all l t'
]

-- At most `bound` entries, each of which fits its packet, take the tables from `t` to `t'`.
pub record Yields (l : List Entry) (bound : ℕ) (t t' : Tables) : Type 0 where
  pub fits : All FitsPacket l
  pub short : length l ≤ bound
  pub run : process_all l t ≡ next t'

process_all-append :
    (a b : List Entry) (t t' : Tables)
    → process_all a t ≡ next t'
    → process_all (a ++ b) t ≡ process_all b t'
process_all-append [] b t t' e = ground (arith, e)
process_all-append (x ∷ a) b t t' e =
    elim (process_data_packet t x)
        as (λ s.
          elim s as (λ _. Step) [ undefined ↦ undefined | stop ↦ stop | next u ↦ process_all a u ]
            ≡ next t'
          → elim s as (λ _. Step) [
            | undefined ↦ undefined
            | stop ↦ stop
            | next u ↦ process_all (a ++ b) u
          ]
            ≡ process_all b t') [
              | undefined ↦ λ h. ground (arith, h)
              | stop ↦ λ h. ground (arith, h)
              | next u ↦ λ h. process_all-append a b u t' h
            ]
      e

pub Yields-append :
    {a b : List Entry} {m n : ℕ} {t u v : Tables}
    → Yields a m t u
    → Yields b n u v
    → Yields (a ++ b) (m + n) t v
Yields-append {a} {b} {m} {n} {t} {u} {v} p q = record {
  fits = All-append FitsPacket a b p.fits q.fits;
  short = omega (arith, length-append a b, p.short, q.short);
  run = process_all-append a b t u p.run ∙ q.run;
}

-- The tables with one more neighbour.
abbrev pub with_neighbour : ℕ → NeighbourDeviceData → Tables → Tables
with_neighbour n d t = record t { neighbour_device_map = insert n d t.neighbour_device_map }

pub change_neighbour-with_neighbour :
    (n : ℕ) (f : NeighbourDeviceData → NeighbourDeviceData) (d : NeighbourDeviceData) (t : Tables)
    → change_neighbour n f (with_neighbour n d t) ≡ with_neighbour n (f d) t
unfolding change_neighbour
change_neighbour-with_neighbour n f d t = ground (
  arith,
  lookup-insert n n d t.neighbour_device_map,
  insert-insert n (f d) d t.neighbour_device_map,
)

-- A name of an interface: a string that fits.
abbrev pub IsName : Option (List ℕ) → Type 0
IsName none = Unit {0}
IsName (some name) = (length name ≤ 16) × All (λ b. b ≢ 0) name

until_nul-zeros : (n : ℕ) → until_nul (zeros n) ≡ []
unfolding until_nul
until_nul-zeros zero = refl
until_nul-zeros (suc n) = refl

pub until_nul_name :
    (name : List ℕ) (m n : ℕ)
    → All (λ b. b ≢ 0) name
    → until_nul ((name ++ zeros m) ++ zeros n) ≡ name
unfolding until_nul
until_nul_name [] zero n h = until_nul-zeros n
until_nul_name [] (suc m) n h = refl
until_nul_name (b ∷ name) m n h = ground (arith, h, until_nul_name name m n h.1)

pub length-zeros : (n : ℕ) → length (zeros n) ≡ n
length-zeros zero = refl
length-zeros (suc n) = omega (arith, length-zeros n)

pub padded :
    (size : ℕ) (l : List ℕ) → length l ≤ size → length (l ++ zeros (size - length l)) ≡ size
padded size l h =
    omega (arith, length-append l (zeros (size - length l)), length-zeros (size - length l))
