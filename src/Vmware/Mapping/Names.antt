-- ===== src/Vmware/Mapping/Names.antt =====
-- Which network an adapter is mapped to.
use v_machine.Prelude.{
  ◌≡◌, ◌≢◌, String, Bool, true, false, Option, none, some, List, [], ◌∷◌, inl, inr, All, Listed,
  here, there, Bool-cases, Option-cases, arith, eq_iff, All-imp,
}
use v_machine.Prelude.Text.{lower}
use v_machine.Vmware.Inventory.{VmNic}
use v_machine.Vmware.Assessment.{NetworkMapping}
use v_machine.Vmware.Mapping.Resources.{OsNetwork}
use v_machine.Vmware.Mapping.Network.{
  find_network, same_name, same_lower_name, matched, not_found, map_folded, first_match, map_nic,
}

-- the first hit, or none at all
data Found (p : OsNetwork → Bool) (nets : List OsNetwork) : Option OsNetwork → Type 0 where
  hit : (net : OsNetwork) → Listed net nets → p net ≡ true → Found p nets (some net)
  miss : All (λ net. p net ≡ false) nets → Found p nets none

Found-there :
    {p : OsNetwork → Bool} {nets : List OsNetwork} {o : Option OsNetwork} (n : OsNetwork)
    → p n ≡ false
    → Found p nets o
    → Found p (n ∷ nets) o
Found-there n h (hit net l q) = hit net (there l) q
Found-there n h (miss a) = miss (h, a)

find_network-Found :
    (p : OsNetwork → Bool) (nets : List OsNetwork) → Found p nets (find_network p nets)
unfolding find_network
find_network-Found p [] = miss tt
find_network-Found p (n ∷ nets) = elim (Bool-cases (p n)) [
  | inl h ↦ rw h (hit n here h)
  | inr h ↦ rw h (Found-there n h (find_network-Found p nets))
]

-- An adapter's network, as the names decide it.
pub data Resolves (networks : List OsNetwork) (vm_net : String) : NetworkMapping → Type 0 where
  exact :
      (net : OsNetwork)
      → Listed net networks
      → net.name ≡ some vm_net
      → Resolves networks vm_net (matched vm_net net "exact_name" 100)
  folded :
      (net : OsNetwork) (name : String)
      → All (λ n. n.name ≢ some vm_net) networks
      → Listed net networks
      → net.name ≡ some name
      → lower name ≡ lower vm_net
      → Resolves networks vm_net (matched vm_net net "case_insensitive" 90)
  unknown :
      All (λ n. n.name ≢ some vm_net) networks
      → All
          (λ n. (name : String) → n.name ≡ some name → name ≢ "" → lower name ≢ lower vm_net)
          networks
      → Resolves networks vm_net (not_found vm_net)

same_name-true :
    (vm_net : String) (net : OsNetwork) → same_name vm_net net ≡ true → net.name ≡ some vm_net
same_name-true vm_net net h = elim (Option-cases net.name) [
  | inl e ↦ ground (arith, e)
  | inr (n, e) ↦ ground (arith, e, eq_iff n vm_net)
]

same_name-false :
    (vm_net : String) (net : OsNetwork) → same_name vm_net net ≡ false → net.name ≢ some vm_net
same_name-false vm_net net h e = ground (arith, eq_iff vm_net vm_net)

same_lower-true :
    (vm_net : String) (net : OsNetwork)
    → same_lower_name vm_net net ≡ true
    → (name : String) × (net.name ≡ some name) × (lower name ≡ lower vm_net)
same_lower-true vm_net net h = elim (Option-cases net.name) [
  | inl e ↦ absurd (ground (arith, e))
  | inr (n, e) ↦ (n, e, ground (arith, e, eq_iff (lower n) (lower vm_net)))
]

same_lower-false :
    (vm_net : String) (net : OsNetwork)
    → same_lower_name vm_net net ≡ false
    → (name : String) → net.name ≡ some name
    → name ≢ ""
    → lower name ≢ lower vm_net
same_lower-false vm_net net h name e ne q =
    ground (arith, eq_iff name "", eq_iff (lower name) (lower vm_net))

map_folded-Resolves :
    (networks : List OsNetwork) (vm_net : String) (o : Option OsNetwork)
    → All (λ n. n.name ≢ some vm_net) networks
    → Found (same_lower_name vm_net) networks o
    → Resolves networks vm_net (map_folded vm_net o)
unfolding map_folded
map_folded-Resolves networks vm_net o a (hit net l h) =
    let (name, e, q) = same_lower-true vm_net net h in folded net name a l e q
map_folded-Resolves networks vm_net o a (miss b) =
    unknown a (All-imp _ _ (same_lower-false vm_net) networks b)

-- Every adapter is resolved by the names: to a network of exactly its name where one exists, with
-- confidence 1.00; else to one whose name differs in case only, with confidence 0.90; else to none.
pub map_nic-Resolves :
    (networks : List OsNetwork) (nic : VmNic)
    → Resolves networks nic.network_name (map_nic networks nic)
unfolding map_nic
map_nic-Resolves networks nic =
    go (find_network (same_name nic.network_name) networks)
      (find_network-Found (same_name nic.network_name) networks)
  where
    go :
        (o : Option OsNetwork)
        → Found (same_name nic.network_name) networks o
        → Resolves networks nic.network_name (first_match networks nic.network_name o)
    go o (hit net l h) = exact net l (same_name-true nic.network_name net h)
    go o (miss a) =
        map_folded-Resolves networks nic.network_name _
          (All-imp _ _ (same_name-false nic.network_name) networks a)
          (find_network-Found (same_lower_name nic.network_name) networks)
