-- ===== src/Netlink/MachineId.antt =====
-- getMachineId of source/src/netlink_monitor.cc, with its static string. What the file holds at each call is a parameter.
use link_layer_discovery.Base.{
  ℕ, ◌≡◌, refl, Bool, ◌||◌, ◌&&◌, List, [], ◌∷◌, is_empty, leb, ◌==◌, if◌then◌else◌, All,
}

-- The white space of the C locale.
abbrev pub is_space : ℕ → Bool
is_space c = c == 32 || (leb 9 c && leb c 13)

unfoldable pub skip_spaces : List ℕ → List ℕ
skip_spaces [] = []
skip_spaces (c ∷ cs) = let rest = skip_spaces cs in if is_space c then rest else c ∷ cs

unfoldable pub until_space : List ℕ → List ℕ
until_space [] = []
until_space (c ∷ cs) = if is_space c then [] else c ∷ until_space cs

-- `stream >> machine_id` of a file with this content; one that cannot be opened has none.
abbrev pub first_word : List ℕ → List ℕ
first_word content = until_space (skip_spaces content)

-- getMachineId: the string afterwards, which is also what it returns.
unfoldable pub get_machine_id : List ℕ → List ℕ → List ℕ
get_machine_id content machine_id = if is_empty machine_id then first_word content else machine_id

-- The calls of a program, with what the file holds at each.
unfoldable pub calls : List (List ℕ) → List ℕ → List ℕ
calls [] machine_id = machine_id
calls (content ∷ l) machine_id = calls l (get_machine_id content machine_id)

calls_kept : (l : List (List ℕ)) (c : ℕ) (cs : List ℕ) → calls l (c ∷ cs) ≡ c ∷ cs
unfolding calls get_machine_id
calls_kept [] c cs = refl
calls_kept (content ∷ l) c cs = calls_kept l c cs

-- From the first call that finds a word on the id is that word, whatever the file holds later.
pub calls_first_word :
    (content : List ℕ) (l : List (List ℕ)) (c : ℕ) (cs : List ℕ)
    → first_word content ≡ c ∷ cs
    → calls (content ∷ l) [] ≡ c ∷ cs
unfolding calls get_machine_id
calls_first_word content l c cs found = rw found (calls_kept l c cs)

-- As long as the file has no word the id stays empty.
pub calls_empty : (l : List (List ℕ)) → All (λ content. first_word content ≡ []) l → calls l [] ≡ []
unfolding calls get_machine_id
calls_empty [] none = refl
calls_empty (content ∷ l) none = rw none.0 (calls_empty l none.1)
