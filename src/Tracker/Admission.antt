-- ===== src/Tracker/Admission.antt =====
-- tracker/admission_policy.go: which passkeys may join the swarm of an artifact. Each call is one
-- critical section. A set of passkeys is a map into the unit type.
pub mod Access
use ocelot.Prelude.{
  ℕ, Bool, true, false, not, ◌&&◌, Option, none, some, String, List, [], ◌∷◌, is_some, string_eq,
  nat_eq, list_eq, if◌then◌else◌,
}
use ocelot.Prelude.Map.{Map, lookup, insert, delete}

abbrev pub Passkeys : Type 0
Passkeys = Map String (Unit {0})

pub record ArtifactAcl : Type 0 where
  pub allow_all : Bool
  pub allow : Passkeys

abbrev pub Policies : Type 0
Policies = Map (List ℕ) ArtifactAcl

unfoldable pub is_admitted : List ℕ → String → Policies → Bool
is_admitted hash passkey p = elim (lookup hash p) [
  | none ↦ true
  | some acl ↦ if acl.allow_all then true else is_some (lookup passkey acl.allow)
]

unfoldable pub set_open : List ℕ → Policies → Policies
set_open hash p = delete hash p

unfoldable pub fill : List String → Passkeys → Passkeys
fill [] m = m
fill (k ∷ ks) m = fill ks (insert k tt m)

unfoldable pub set_acl : List ℕ → List String → Policies → Policies
unfolding fill
set_acl hash [] p = delete hash p
set_acl hash (k ∷ ks) p = insert hash (record { allow_all = false; allow = fill (k ∷ ks) [] }) p

-- The pointer of the map is written through: an entry that stands is replaced.
unfoldable pub add_passkey : List ℕ → String → Policies → Policies
add_passkey hash passkey p = elim (lookup hash p) [
  | none ↦ insert hash (record { allow_all = false; allow = insert passkey tt [] }) p
  | some acl ↦
      if acl.allow_all
      then p
      else insert hash (record acl { allow = insert passkey tt acl.allow }) p
]

unfoldable pub remove_passkey : List ℕ → String → Policies → Policies
remove_passkey hash passkey p = elim (lookup hash p) [
  | none ↦ p
  | some acl ↦ insert hash (record acl { allow = delete passkey acl.allow }) p
]

abbrev keys : Passkeys → List String
keys [] = []
keys ((k, _) ∷ m) = k ∷ keys m

-- The passkeys, in no particular order, and whether the artifact is open.
unfoldable pub allow_list : List ℕ → Policies → List String × Bool
allow_list hash p = elim (lookup hash p) [
  | none ↦ ([], true)
  | some acl ↦ if acl.allow_all then ([], true) else (keys acl.allow, false)
]
