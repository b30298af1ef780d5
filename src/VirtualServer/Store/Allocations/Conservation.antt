-- ===== src/VirtualServer/Store/Allocations/Conservation.antt =====
-- What reservations do to the capacity of a node.
use ocelot.Prelude.{
  ℕ, ◌≡◌, refl, inl, inr, Bool, true, false, ◌||◌, not, Option, none, some, String, if◌then◌else◌,
  is_some, ◌==◌, nat_eq, string_eq, Option-cases, Bool-cases,
}
use ocelot.Prelude.Int.{ℤ, pos, ◌+ℤ◌, ◌-ℤ◌, int_laws, parts_of_eq}
use ocelot.Prelude.Map.{lookup, insert, lookup-insert, total, amount, total-insert}
use text.Mathlib.TextEquality.{eq_iff}
use ocelot.VirtualServer.Store.Allocations.{
  NodeRow, Allocation, Tables, refusal, reserve, has_instance, allocate_resources, give_back,
  get_active_allocation, release_allocation,
}

-- What an allocation holds of a node, of the resource that `use_of` reads.
abbrev pub holds : (Allocation → ℤ) → String → Allocation → ℤ
holds use_of node a =
    if is_some a.released_at then pos 0 else if a.node_id == node then use_of a else pos 0

-- The part of a resource of a node that is free, and the part that allocations hold.
abbrev pub free : (NodeRow → ℤ) → String → Tables → ℤ
free avail node t = amount avail (lookup node t.nodes)

abbrev pub held : (Allocation → ℤ) → String → Tables → ℤ
held use_of node t = total (holds use_of node) t.allocations

-- One write to each table keeps the sum for every node, if it keeps it for the written node.
exchange :
    (avail : NodeRow → ℤ) (g : Allocation → ℤ) (other node instance : String) (n n' : NodeRow)
    (a' : Allocation) (t : Tables)
    → lookup node t.nodes ≡ some n
    → ((node == other) ≡ true
        → avail n' +ℤ g a' ≡ avail n +ℤ amount g (lookup instance t.allocations))
    → ((node == other) ≡ false → g a' ≡ amount g (lookup instance t.allocations))
    → amount avail (lookup other (insert node n' t.nodes))
        +ℤ total g (insert instance a' t.allocations)
      ≡ amount avail (lookup other t.nodes) +ℤ total g t.allocations
exchange avail g other node instance n n' a' t e here away =
    let grown = parts_of_eq (total-insert g instance a' t.allocations) in
    elim (Bool-cases (node == other)) [
      | inl hit ↦
          rw (lookup-insert node other n' t.nodes, hit)
            (rw (← (eq_iff node other).0 hit, e) (omega (int_laws, grown, parts_of_eq (here hit))))
      | inr miss ↦
          rw (lookup-insert node other n' t.nodes, miss)
            (omega (int_laws, grown, parts_of_eq (away miss)))
    ]

-- No node gains or loses RAM or CPU between the two states: what is free and what is held add up to
-- the same.
abbrev pub Conserved : Tables → Tables → Type 0
Conserved t u =
    (node : String)
    → (free (λ n. n.avail_ram_mib) node u +ℤ held (λ a. a.ram_mib) node u
        ≡ free (λ n. n.avail_ram_mib) node t +ℤ held (λ a. a.ram_mib) node t)
      × (free (λ n. n.avail_cpu_threads) node u +ℤ held (λ a. a.cpu_threads) node u
          ≡ free (λ n. n.avail_cpu_threads) node t +ℤ held (λ a. a.cpu_threads) node t)

-- The foreign key of an allocation: its node is in the table.
pub record IsValid (t : Tables) : Type 0 where
  pub node_exists :
      (instance : String) (a : Allocation)
      → lookup instance t.allocations ≡ some a
      → (n : NodeRow) × (lookup a.node_id t.nodes ≡ some n)

sub_add : (a b : ℤ) → a -ℤ b +ℤ b ≡ a +ℤ pos 0
sub_add a b = omega int_laws

add_zero : (a b : ℤ) → a +ℤ b +ℤ pos 0 ≡ a +ℤ b
add_zero a b = omega int_laws

pub no_row : (o : Option Allocation) (b : Bool) → (is_some o || b) ≡ false → o ≡ none
no_row none b h = refl
no_row (some a) b h = cc

reserve-Conserved :
    (instance node : String) (cpu ram : ℤ) (gpu : Option ℕ) (now : ℕ) (n : NodeRow) (t : Tables)
    → lookup node t.nodes ≡ some n
    → Conserved t (reserve instance node cpu ram gpu now n t).0
unfolding reserve
reserve-Conserved instance node cpu ram gpu now n t e other =
    elim (Bool-cases
      (is_some (lookup instance t.allocations) || not (has_instance instance t.instances))) [
        | inl bad ↦ rw bad (refl, refl)
        | inr good ↦
            let fresh =
              no_row (lookup instance t.allocations) (not (has_instance instance t.instances))
                good in
            rw good (
              exchange (λ n. n.avail_ram_mib) (holds (λ a. a.ram_mib) other) other node instance n _
                  _ t e (λ h. rw (h, fresh) (sub_add n.avail_ram_mib ram)) (λ h. rw (h, fresh)),
              exchange (λ n. n.avail_cpu_threads) (holds (λ a. a.cpu_threads) other) other node
                  instance n _ _ t e (λ h. rw (h, fresh) (sub_add n.avail_cpu_threads cpu))
                  (λ h. rw (h, fresh)),
            )
      ]

-- A reservation, granted or refused, conserves the capacity of every node.
pub allocate_resources-Conserved :
    (instance node : String) (cpu ram : ℤ) (gpu : Option ℕ) (now : ℕ) (t : Tables)
    → Conserved t (allocate_resources instance node cpu ram gpu now t).0
unfolding allocate_resources
allocate_resources-Conserved instance node cpu ram gpu now t other =
    elim (Option-cases (lookup node t.nodes)) [
      | inl absent ↦ rw (absent, allocate_resources) (refl, refl)
      | inr (n, e) ↦ elim (Option-cases (refusal cpu ram gpu n)) [
        | inl passed ↦
            rw (e, allocate_resources, passed)
              (reserve-Conserved instance node cpu ram gpu now n t e other)
        | inr (x, refused) ↦ rw (e, allocate_resources, refused) (refl, refl)
      ]
    ]

pub release_allocation-Conserved :
    (instance : String) (now : ℕ) (t : Tables)
    → IsValid t
    → Conserved t (release_allocation instance now t)
unfolding release_allocation get_active_allocation give_back
release_allocation-Conserved instance now t v other =
    elim (Option-cases (lookup instance t.allocations)) [
      | inl absent ↦ rw (absent, release_allocation) (refl, refl)
      | inr (a, e) ↦ elim (Bool-cases (is_some a.released_at)) [
        | inl over ↦ rw (e, release_allocation, over) (refl, refl)
        | inr active ↦
            let (n, at) = v.node_exists instance a e in
            rw (e, release_allocation, active, at, give_back)
              (
                exchange (λ n. n.avail_ram_mib) (holds (λ a. a.ram_mib) other) other a.node_id
                    instance n _ _ t at
                    (λ h. rw (e, active, h) (add_zero n.avail_ram_mib a.ram_mib))
                    (λ h. rw (e, active, h)),
                exchange (λ n. n.avail_cpu_threads) (holds (λ a. a.cpu_threads) other) other
                    a.node_id instance n _ _ t at
                    (λ h. rw (e, active, h) (add_zero n.avail_cpu_threads a.cpu_threads))
                    (λ h. rw (e, active, h)),
              )
      ]
    ]
