-- ===== src/Descriptor/Ownership.antt =====
-- Who owns an open descriptor, source/src/owned_file_descriptor.cc.
use link_layer_discovery.Base.{
  ℕ, Bool, true, false, Option, none, some, ◌≡◌, ◌↔◌, refl, arith, ◌==◌, Bool-cases, inl, inr,
  if◌then◌else◌,
}
use link_layer_discovery.Base.Ints.{ℤ, pos, negsuc}
use link_layer_discovery.Descriptor.{
  State, close_valid, open_descriptor, construct, move_construct, move_assign, destroy,
}

-- An open descriptor has an owner, an owned descriptor is open and has one owner only, and nothing was
-- closed twice.
pub record IsOwned (s : State) : Type 0 where
  pub owner : (f : ℕ) → s.is_open f ≡ true → (i : ℕ) × (s.objects i ≡ some (pos f))
  pub owned : (i f : ℕ) → s.objects i ≡ some (pos f) → s.is_open f ≡ true
  pub one_owner : (i j f : ℕ) → s.objects i ≡ some (pos f) → s.objects j ≡ some (pos f) → i ≡ j
  pub no_faults : s.faults ≡ 0

-- Whether an object, if it is there, owns a descriptor.
abbrev owns : Option ℤ → ℕ → Bool
owns none f = false
owns (some (negsuc n)) f = false
owns (some (pos g)) f = f == g

owns_iff : (o : Option ℤ) (f : ℕ) → (owns o f ≡ true) ↔ (o ≡ some (pos f))
owns_iff none f = ground arith
owns_iff (some (negsuc n)) f = ground arith
owns_iff (some (pos g)) f = ground arith

close_valid_objects : (o : Option ℤ) (s : State) → (close_valid o s).objects ≡ s.objects
unfolding close_valid
close_valid_objects none s = refl
close_valid_objects (some (negsuc n)) s = refl
close_valid_objects (some (pos g)) s = ground arith

close_valid_open :
    (o : Option ℤ) (s : State) (f : ℕ)
    → (close_valid o s).is_open f ≡ (if owns o f then false else s.is_open f)
unfolding close_valid
close_valid_open none s f = refl
close_valid_open (some (negsuc n)) s f = refl
close_valid_open (some (pos g)) s f = ground arith

-- No descriptor is closed that is not open.
close_valid_faults :
    (o : Option ℤ) (s : State)
    → ((f : ℕ) → o ≡ some (pos f) → s.is_open f ≡ true)
    → (close_valid o s).faults ≡ s.faults
unfolding close_valid
close_valid_faults none s h = refl
close_valid_faults (some (negsuc n)) s h = refl
close_valid_faults (some (pos g)) s h = rw (h g refl) refl

pub destroy-IsOwned : (i : ℕ) (s : State) → IsOwned s → IsOwned (destroy i s)
unfolding destroy
destroy-IsOwned i s h = record {
  owner = λ f opened.
      let was : s.is_open f ≡ true = ground (arith, close_valid_open (s.objects i) s f, opened) in
      let (j, at) = h.owner f was in
      (
        j,
        ground (
          arith,
          at,
          opened,
          close_valid_open (s.objects i) s f,
          owns_iff (s.objects i) f,
          close_valid_objects (s.objects i) s,
        ),
      );
  owned = λ j f at. ground (
    arith,
    at,
    close_valid_open (s.objects i) s f,
    owns_iff (s.objects i) f,
    close_valid_objects (s.objects i) s,
    h.owned j f,
    h.one_owner i j f,
  );
  one_owner =
      λ j k f p q. ground (arith, p, q, close_valid_objects (s.objects i) s, h.one_owner j k f);
  no_faults = ground (arith, close_valid_faults (s.objects i) s (h.owned i), h.no_faults);
}

pub move_assign-IsOwned : (i j : ℕ) (s : State) → IsOwned s → IsOwned (move_assign i j s)
unfolding move_assign
move_assign-IsOwned i j s h = record {
  owner = λ f opened.
      let was : s.is_open f ≡ true = ground (arith, close_valid_open (s.objects i) s f, opened) in
      let (k, at) = h.owner f was in
      (
        if k == j then i else k,
        ground (
          arith,
          at,
          opened,
          close_valid_open (s.objects i) s f,
          owns_iff (s.objects i) f,
          close_valid_objects (s.objects i) s,
        ),
      );
  owned = λ k f at. ground (
    arith,
    at,
    close_valid_open (s.objects i) s f,
    owns_iff (s.objects i) f,
    close_valid_objects (s.objects i) s,
    h.owned k f,
    h.owned j f,
    h.one_owner i k f,
    h.one_owner i j f,
  );
  one_owner = λ k l f p q. ground (
    arith,
    p,
    q,
    close_valid_objects (s.objects i) s,
    h.one_owner k l f,
    h.one_owner k j f,
    h.one_owner j l f,
  );
  no_faults = ground (arith, close_valid_faults (s.objects i) s (h.owned i), h.no_faults);
}

pub move_construct-IsOwned :
    (i j : ℕ) (s : State) → s.objects i ≡ none → IsOwned s → IsOwned (move_construct i j s)
unfolding move_construct
move_construct-IsOwned i j s absent h = record {
  owner = λ f opened.
      let (k, at) = h.owner f opened in (if k == j then i else k, ground (arith, at, absent));
  owned = λ k f at. ground (arith, at, h.owned k f, h.owned j f);
  one_owner =
      λ k l f p q. ground (arith, p, q, h.one_owner k l f, h.one_owner k j f, h.one_owner j l f);
  no_faults = h.no_faults;
}

-- The kernel gives out a descriptor that is not open, or -1.
abbrev pub IsFresh : ℤ → State → Type 0
IsFresh (pos f) s = s.is_open f ≡ false
IsFresh (negsuc n) s = Unit

pub construct-IsOwned :
    (i : ℕ) (fd : ℤ) (s : State)
    → s.objects i ≡ none
    → IsFresh fd s
    → IsOwned s
    → IsOwned (construct i fd s)
unfolding construct open_descriptor
construct-IsOwned i (negsuc n) s absent fresh h = record {
  owner = λ f opened. let (k, at) = h.owner f opened in (k, ground (arith, at, absent));
  owned = λ k f at. ground (arith, at, h.owned k f);
  one_owner = λ k l f p q. ground (arith, p, q, h.one_owner k l f);
  no_faults = h.no_faults;
}
construct-IsOwned i (pos g) s absent fresh h = record {
  owner = λ f opened. elim (Bool-cases (f == g)) [
    | inl e ↦ (i, ground (arith, e))
    | inr e ↦
        let was : s.is_open f ≡ true = ground (arith, opened, e) in
        let (k, at) = h.owner f was in (k, ground (arith, at, absent))
  ];
  owned = λ k f at. ground (arith, at, h.owned k f);
  one_owner = λ k l f p q. ground (arith, p, q, fresh, h.owned k g, h.owned l g, h.one_owner k l f);
  no_faults = h.no_faults;
}
