-- ===== src/Tracker/Admission/Access.antt =====
-- What the policy promises: to each artifact, an open door or a set of passkeys.
use mathlib.Core.Path.{fun_ext, subst}
use ocelot.Prelude.{
  ℕ, ◌≡◌, refl, ap, ◌∙◌, Bool, true, false, ◌||◌, Option, none, some, String, List, [], ◌∷◌, any,
  is_some, ◌==◌, string_eq, nat_eq, list_eq, if◌then◌else◌, arith, Option-cases, Bool-cases, inl,
  inr, All,
}
use ocelot.Prelude.Map.{
  lookup, insert, delete, lookup-insert, lookup-delete, lookup-insert_self, lookup-delete_self,
  All-insert, All-delete, All-lookup,
}
use ocelot.Tracker.Admission.{
  Passkeys, ArtifactAcl, Policies, is_admitted, set_open, fill, set_acl, add_passkey,
  remove_passkey,
}

pub data Access : Type 0 where
  open_to_all : Access
  only : (String → Bool) → Access

abbrev pub admits : Access → String → Bool
admits open_to_all k = true
admits (only allowed) k = allowed k

pub data Change : Type 0 where
  opens : Change
  restricts : List String → Change
  adds removes : String → Change

-- One change of an artifact's access, as the comments of the methods have it. Where the last passkey of
-- an artifact is removed, `only` is left with no passkey: nobody is admitted any more.
unfoldable pub change : Change → Access → Access
change opens a = open_to_all
change (restricts []) a = open_to_all
change (restricts (k ∷ ks)) a = only (λ j. any (λ i. i == j) (k ∷ ks))
change (adds k) open_to_all = only (λ j. k == j)
change (adds k) (only allowed) = only (λ j. if k == j then true else allowed j)
change (removes k) open_to_all = open_to_all
change (removes k) (only allowed) = only (λ j. if k == j then false else allowed j)

pub apply : List ℕ → Change → Policies → Policies
apply hash opens p = set_open hash p
apply hash (restricts ks) p = set_acl hash ks p
apply hash (adds k) p = add_passkey hash k p
apply hash (removes k) p = remove_passkey hash k p

abbrev view : Option ArtifactAcl → Access
view none = open_to_all
view (some acl) = if acl.allow_all then open_to_all else only (λ k. is_some (lookup k acl.allow))

pub access : List ℕ → Policies → Access
access hash p = view (lookup hash p)

fill_lem :
    (k : String) (ks : List String) (m : Passkeys)
    → is_some (lookup k (fill ks m)) ≡ is_some (lookup k m) || any (λ i. i == k) ks
unfolding fill any
fill_lem k [] m = ground arith
fill_lem k (i ∷ ks) m = ground (arith, fill_lem k ks (insert i tt m), lookup-insert i k tt m)

lookup-fill :
    (k : String) (ks : List String) → is_some (lookup k (fill ks [])) ≡ any (λ i. i == k) ks
unfolding lookup
lookup-fill k ks = fill_lem k ks []

allowed-insert :
    (k j : String) (m : Passkeys)
    → is_some (lookup j (insert k tt m)) ≡ (if k == j then true else is_some (lookup j m))
allowed-insert k j m = ground (arith, lookup-insert k j tt m)

allowed-insert_nil : (k j : String) → is_some (lookup j (insert {V = Unit {0}} k tt [])) ≡ (k == j)
unfolding lookup insert
allowed-insert_nil k j = ground arith

allowed-delete :
    (k j : String) (m : Passkeys)
    → is_some (lookup j (delete k m)) ≡ (if k == j then false else is_some (lookup j m))
allowed-delete k j m = ground (arith, lookup-delete k j m)

-- The code never sets `allowAll`.
abbrev IsExplicit : Policies → Type 0
IsExplicit = All (λ (_, acl). acl.allow_all ≡ false)

apply-IsExplicit :
    (hash : List ℕ) (c : Change) (p : Policies) → IsExplicit p → IsExplicit (apply hash c p)
unfolding apply set_open set_acl add_passkey remove_passkey
apply-IsExplicit hash opens p h = All-delete _ hash p h
apply-IsExplicit hash (restricts []) p h = All-delete _ hash p h
apply-IsExplicit hash (restricts (k ∷ ks)) p h = All-insert _ hash _ p refl h
apply-IsExplicit hash (adds k) p h = elim (Option-cases (lookup hash p)) [
  | inl absent ↦ rw (absent, add_passkey) (All-insert _ hash _ p refl h)
  | inr (acl, found) ↦
      let some_only = All-lookup _ hash p h found in
      rw (found, add_passkey, some_only) (All-insert _ hash _ p refl h)
]
apply-IsExplicit hash (removes k) p h = elim (Option-cases (lookup hash p)) [
  | inl absent ↦ rw (absent, remove_passkey) h
  | inr (acl, found) ↦
      rw (found, remove_passkey) (All-insert _ hash _ p (All-lookup _ hash p h found) h)
]

-- The artifact of the change.
apply-access_self :
    (hash : List ℕ) (c : Change) (p : Policies)
    → IsExplicit p
    → access hash (apply hash c p) ≡ change c (access hash p)
unfolding access apply change set_open set_acl add_passkey remove_passkey
apply-access_self hash opens p h = rw (lookup-delete_self hash p)
apply-access_self hash (restricts []) p h = rw (lookup-delete_self hash p)
apply-access_self hash (restricts (k ∷ ks)) p h =
    rw (lookup-insert_self hash _ p) (ap only (fun_ext (λ j. lookup-fill j (k ∷ ks))))
apply-access_self hash (adds k) p h = elim (Option-cases (lookup hash p)) [
  | inl absent ↦
      rw (absent, add_passkey, lookup-insert_self) (ap only (fun_ext (λ j. allowed-insert_nil k j)))
  | inr (acl, found) ↦
      let some_only = All-lookup _ hash p h found in
      rw (found, add_passkey, some_only, lookup-insert_self)
        (ap only (fun_ext (λ j. allowed-insert k j acl.allow)))
]
apply-access_self hash (removes k) p h = elim (Option-cases (lookup hash p)) [
  | inl absent ↦ rw (absent, remove_passkey, absent)
  | inr (acl, found) ↦
      let some_only = All-lookup _ hash p h found in
      rw (found, remove_passkey, lookup-insert_self, some_only)
        (ap only (fun_ext (λ j. allowed-delete k j acl.allow)))
]

-- Every other artifact.
apply-access_other :
    (hash j : List ℕ) (c : Change) (p : Policies)
    → (hash == j) ≡ false
    → lookup j (apply hash c p) ≡ lookup j p
unfolding apply set_open set_acl add_passkey remove_passkey
apply-access_other hash j opens p h = ground (arith, lookup-delete hash j p)
apply-access_other hash j (restricts []) p h = ground (arith, lookup-delete hash j p)
apply-access_other hash j (restricts (k ∷ ks)) p h = rw lookup-insert (rw h)
apply-access_other hash j (adds k) p h = elim (Option-cases (lookup hash p)) [
  | inl absent ↦ rw (absent, add_passkey, lookup-insert, h)
  | inr (acl, found) ↦ elim (Bool-cases acl.allow_all) [
    | inl all ↦ rw (found, add_passkey, all)
    | inr some_only ↦ rw (found, add_passkey, some_only, lookup-insert, h)
  ]
]
apply-access_other hash j (removes k) p h = elim (Option-cases (lookup hash p)) [
  | inl absent ↦ rw (absent, remove_passkey)
  | inr (acl, found) ↦ rw (found, remove_passkey, lookup-insert, h)
]

pub run : List (List ℕ × Change) → Policies → Policies
run [] p = p
run ((hash, c) ∷ cs) p = run cs (apply hash c p)

-- The changes of one artifact, in order.
unfoldable pub changes_of : List ℕ → List (List ℕ × Change) → Access → Access
changes_of j [] a = a
changes_of j ((hash, c) ∷ cs) a = changes_of j cs (if hash == j then change c a else a)

run-access :
    (j : List ℕ) (cs : List (List ℕ × Change)) (p : Policies)
    → IsExplicit p
    → access j (run cs p) ≡ changes_of j cs (access j p)
unfolding run changes_of access
run-access j [] p h = refl
run-access j ((hash, c) ∷ cs) p h =
    let rest = run-access j cs (apply hash c p) (apply-IsExplicit hash c p h) in
    elim (Bool-cases (hash == j)) [
      | inr miss ↦
          rw (miss, rest) (ap (λ o. changes_of j cs (view o)) (apply-access_other hash j c p miss))
      | inl hit ↦
          rw (hit, rest)
            (ap (changes_of j cs) (
              subst (λ i. access i (apply hash c p) ≡ change c (access i p))
                (((list_eq {A = ℕ}).equal_iff hash j).0 hit) (apply-access_self hash c p h)))
    ]

is_admitted-access :
    (j : List ℕ) (k : String) (p : Policies) → is_admitted j k p ≡ admits (access j p) k
unfolding is_admitted access
is_admitted-access j k p = ground arith

-- The policy refines a set of passkeys: after any calls for any artifacts, on a policy that is empty at
-- first, a passkey is admitted to an artifact exactly as the calls for that artifact, in order, say.
-- SetOpen, and SetACL without passkeys, open it to all; SetACL with passkeys admits these; AddPasskey
-- admits one more, or only this one to an open artifact; and RemovePasskey takes one away, which
-- leaves an artifact closed to all when it was the last, and leaves an open one open. No call for
-- another artifact matters.
pub is_admitted-run :
    (j : List ℕ) (k : String) (cs : List (List ℕ × Change))
    → is_admitted j k (run cs []) ≡ admits (changes_of j cs open_to_all) k
unfolding access lookup
is_admitted-run j k cs =
    is_admitted-access j k (run cs []) ∙ ap (λ a. admits a k) (run-access j cs [] tt)
