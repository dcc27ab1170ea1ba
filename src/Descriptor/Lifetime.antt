-- ===== src/Descriptor/Lifetime.antt =====
-- Programs over OwnedFileDescriptor objects, source/src/owned_file_descriptor.cc: any sequence of
-- constructions, moves and destructions that C++ allows.
use link_layer_discovery.Base.{
  ℕ, true, false, none, ◌≡◌, refl, arith, has_value, Bool-cases, inl, inr,
}
use link_layer_discovery.Base.Ints.{ℤ}
use link_layer_discovery.Descriptor.{State, construct, move_construct, move_assign, destroy}
use link_layer_discovery.Descriptor.Ownership.{
  IsOwned, IsFresh, construct-IsOwned, move_construct-IsOwned, move_assign-IsOwned, destroy-IsOwned,
}

-- An object is made where there is none, and used where there is one.
pub data Step : State → State → Type 0 where
  made :
      (i : ℕ) (fd : ℤ) (s : State) → s.objects i ≡ none → IsFresh fd s → Step s (construct i fd s)
  moved :
      (i j : ℕ) (s : State)
      → s.objects i ≡ none
      → has_value (s.objects j) ≡ true
      → Step s (move_construct i j s)
  assigned :
      (i j : ℕ) (s : State)
      → has_value (s.objects i) ≡ true
      → has_value (s.objects j) ≡ true
      → Step s (move_assign i j s)
  destroyed : (i : ℕ) (s : State) → has_value (s.objects i) ≡ true → Step s (destroy i s)

pub data Run : State → State → Type 0 where
  stay : (s : State) → Run s s
  go : (s t u : State) → Step s t → Run t u → Run s u

abbrev pub initial : State
initial = record { objects = λ i. none; is_open = λ f. false; faults = 0 }

initial-IsOwned : IsOwned initial
initial-IsOwned = record {
  owner = λ f opened. absurd (ground (arith, opened));
  owned = λ i f at. absurd (ground (arith, at));
  one_owner = λ i j f p q. absurd (ground (arith, p));
  no_faults = refl;
}

step-IsOwned : (s t : State) → Step s t → IsOwned s → IsOwned t
step-IsOwned s t (made i fd r absent fresh) h = construct-IsOwned i fd r absent fresh h
step-IsOwned s t (moved i j r absent there) h = move_construct-IsOwned i j r absent h
step-IsOwned s t (assigned i j r here there) h = move_assign-IsOwned i j r h
step-IsOwned s t (destroyed i r there) h = destroy-IsOwned i r h

run-IsOwned : (s t : State) → Run s t → IsOwned s → IsOwned t
run-IsOwned s t (stay r) h = h
run-IsOwned s t (go r u v step rest) h = run-IsOwned u v rest (step-IsOwned r u step h)

-- Over any run from nothing each open descriptor has exactly one owner, and no descriptor is closed that
-- is not open.
pub run-initial : (t : State) → Run initial t → IsOwned t
run-initial t run = run-IsOwned initial t run initial-IsOwned

-- Where every object is destroyed in the end, every descriptor has been closed.
pub run_closes :
    (t : State) → Run initial t → ((i : ℕ) → t.objects i ≡ none) → (f : ℕ) → t.is_open f ≡ false
run_closes t run gone f = elim (Bool-cases (t.is_open f)) [
  | inl e ↦ let (i, at) = (run-initial t run).owner f e in absurd (ground (arith, at, gone i))
  | inr e ↦ e
]
