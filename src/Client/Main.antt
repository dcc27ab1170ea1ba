-- ===== src/Client/Main.antt =====
-- The command line of the client, source/src/client_main.cc. A text is its ASCII codes.
use link_layer_discovery.Base.{
  ℕ, zero, suc, ◌+◌, ◌-◌, ◌*◌, ◌^◌, ◌≡◌, ◌≢◌, refl, Bool, true, false, ◌&&◌, List, [], ◌∷◌, ◌++◌,
  arith, All, ltb, leb, ◌==◌, if◌then◌else◌,
}
use link_layer_discovery.Base.Key.{bytes_beq, bytes_beq_iff}
use link_layer_discovery.Base.Ints.{ℤ, pos, negsuc}

-- The two options, at their defaults: DEFAULT_CONTINUOUS_MODE_TIMER is 5.
pub record Options : Type 0 where
  pub run_continuous : Bool
  pub continuous_timeout : ℤ

abbrev pub default_options : Options
default_options = record { run_continuous = false; continuous_timeout = pos 5 }

abbrev pub continuous_flag : List ℕ
continuous_flag = 45 ∷ 99 ∷ []

abbrev pub timeout_flag : List ℕ
timeout_flag = 45 ∷ 116 ∷ []

is_digit : ℕ → Bool
is_digit c = leb 48 c && leb c 57

-- The number that begins a text: its digits after those that `value` counts.
read_digits : ℕ → List ℕ → ℕ
unfolding is_digit
read_digits value [] = value
read_digits value (c ∷ cs) =
    let rest = read_digits (value * 10 + (c - 48)) cs in if is_digit c then rest else value

-- The result in the range of `int`, or the old value.
in_range : Bool → ℤ → ℕ → ℤ
in_range false old n = if ltb n (2 ^ 31) then pos n else old
in_range true old zero = pos 0
in_range true old (suc n) = if ltb n (2 ^ 31) then negsuc n else old

read_number : Bool → ℤ → List ℕ → ℤ
unfolding is_digit read_digits in_range
read_number negative old [] = old
read_number negative old (c ∷ cs) =
    if is_digit c then in_range negative old (read_digits 0 (c ∷ cs)) else old

-- `std::from_chars` of an `int`: a text without a number, or with one that is too large, leaves the value.
unfoldable pub from_chars : List ℕ → ℤ → ℤ
unfolding read_number
from_chars [] old = old
from_chars (c ∷ cs) old =
    if c == 45 then read_number true old cs else read_number false old (c ∷ cs)

-- The loop over the arguments; the value of "-t" is not looked at again.
unfoldable pub parse_args : List (List ℕ) → Options → Options
parse_args [] o = o
parse_args (a ∷ []) o = record o {
  run_continuous = if bytes_beq a continuous_flag then true else o.run_continuous;
}
parse_args (a ∷ v ∷ args) o =
    let o' = record o {
      run_continuous = if bytes_beq a continuous_flag then true else o.run_continuous;
    } in
    if bytes_beq a timeout_flag
    then parse_args args (record o' { continuous_timeout = from_chars v o'.continuous_timeout })
    else parse_args (v ∷ args) o'

-- What a user may ask for.
pub data Choice : Type 0 where
  continuous : Choice
  timeout : List ℕ → Choice
  other : List ℕ → Choice

abbrev pub written : Choice → List (List ℕ)
written continuous = continuous_flag ∷ []
written (timeout v) = timeout_flag ∷ v ∷ []
written (other a) = a ∷ []

abbrev pub write_all : List Choice → List (List ℕ)
write_all [] = []
write_all (c ∷ cs) = written c ++ write_all cs

-- Another argument, like the name of the program, is neither flag.
abbrev pub IsPlain : Choice → Type 0
IsPlain continuous = Unit {0}
IsPlain (timeout v) = Unit {0}
IsPlain (other a) = (a ≢ continuous_flag) × (a ≢ timeout_flag)

-- What the choices mean, the first one first.
abbrev pub chosen : List Choice → Options → Options
chosen [] o = o
chosen (continuous ∷ cs) o = chosen cs (record o { run_continuous = true })
chosen (timeout v ∷ cs) o =
    chosen cs (record o { continuous_timeout = from_chars v o.continuous_timeout })
chosen (other a ∷ cs) o = chosen cs o

parse_args-continuous :
    (args : List (List ℕ)) (o : Options)
    → parse_args (continuous_flag ∷ args) o ≡ parse_args args (record o { run_continuous = true })
unfolding parse_args
parse_args-continuous [] o = refl
parse_args-continuous (a ∷ args) o = refl

parse_args-other :
    (a : List ℕ) (args : List (List ℕ)) (o : Options)
    → a ≢ continuous_flag
    → a ≢ timeout_flag
    → parse_args (a ∷ args) o ≡ parse_args args o
unfolding parse_args
parse_args-other a [] o p q = ground (arith, p, bytes_beq_iff a continuous_flag)
parse_args-other a (v ∷ args) o p q =
    let no_flag : bytes_beq a continuous_flag ≡ false =
      ground (arith, p, bytes_beq_iff a continuous_flag) in
    let no_value : bytes_beq a timeout_flag ≡ false =
      ground (arith, q, bytes_beq_iff a timeout_flag) in
    rw (no_flag, no_value) refl

-- The command line that writes some choices in order, among other arguments that are neither flag, is read as those
-- choices, whatever text is given for a timeout: one that looks like a flag is not taken for one.
pub parse_args-write_all :
    (cs : List Choice) (o : Options) → All IsPlain cs → parse_args (write_all cs) o ≡ chosen cs o
unfolding parse_args
parse_args-write_all [] o h = refl
parse_args-write_all (continuous ∷ cs) o h =
    let rest = parse_args-write_all cs (record o { run_continuous = true }) h.1 in
    rw (parse_args-continuous (write_all cs) o) rest
parse_args-write_all (timeout v ∷ cs) o h =
    let rest =
      parse_args-write_all cs (record o { continuous_timeout = from_chars v o.continuous_timeout })
        h.1 in
    rest
parse_args-write_all (other a ∷ cs) o h =
    rw (parse_args-other a (write_all cs) o h.0.0 h.0.1) (parse_args-write_all cs o h.1)
