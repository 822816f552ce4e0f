-- ===== src/Network/Ipam/Ownership.antt =====
-- Allocations of many replicas: an entry, once made, is never given to another replica.
use innerstack.Prelude.{
  ℕ, ◌+◌, ◌^◌, ◌<◌, ◌≡◌, refl, sym, ap, subst, ◌∙◌, ◌≢◌, ◌⊎◌, inl, inr, [], ◌∷◌, Option, none, some,
  Text, ◌==◌, text_key, number_key, eqb_iff, arith, All, Bool-cases, Option-cases,
}
use innerstack.Prelude.Int.{ℤ}
use innerstack.Prelude.Map.{Map, lookup, insert, lookup-insert}
use innerstack.Inet.Dotted.{uint32_to_ipv4-eq}
use innerstack.Network.Scan.{first_from, first_from_sound}
use innerstack.Network.Ipam.{
  vpc_alloc_min, vpc_alloc_cap, ZoneHost, NetworkManager, bridge_hosts, instances, mask24, host_net,
  replica_key, has_owner, is_vacant, take_address, flush, assign, write_address, alloc_address,
  alloc_host_sub_network,
}
use innerstack.Network.Ipam.Alloc.{
  is_vacant_lem, instances-write_address, alloc_host_sub_network_cases,
  alloc_host_sub_network-IsAllocated,
}

-- What any call does to the table of addresses: nothing, or one vacant address gets an owner.
abbrev Grows : Map ℕ Text → Text → Map ℕ Text → Type 0
Grows m key m' = (m' ≡ m) ⊎ ((a : ℕ) × (lookup a m ≡ none) × (m' ≡ insert a key m))

module _ (now : ℤ) (write : Option ℕ) (key : Text) (base : ℕ) (s : NetworkManager) where
  take_address-Grows : Grows (instances s) key (instances (take_address now write key base s).1)
  unfolding take_address
  take_address-Grows =
      elim (Option-cases (first_from (is_vacant (instances s) base) vpc_alloc_min vpc_alloc_cap)) [
        | inl e ↦ rw (e, take_address) (inl refl)
        | inr (n, e) ↦
            let (low, high, vacant) =
              first_from_sound (is_vacant (instances s) base) vpc_alloc_min vpc_alloc_cap n e in
            rw (e, take_address)
              (inr (
                base + n,
                is_vacant_lem (instances s) base n vacant,
                instances-write_address now write key (base + n) s,
              ))
      ]

  alloc_address-Grows : Grows (instances s) key (instances (alloc_address now write key base s).1)
  unfolding alloc_address
  alloc_address-Grows =
      elim (Option-cases
        (first_from (has_owner (instances s) base key) vpc_alloc_min vpc_alloc_cap)) [
          | inl e ↦ rw (e, alloc_address) take_address-Grows
          | inr (n, e) ↦ rw (e, alloc_address) (inl refl)
        ]

alloc_host_sub_network-Grows :
    (now : ℤ) (write : Option ℕ) (host_id name : Text) (rep_id : ℕ) (s : NetworkManager)
    → Grows
        (instances s)
        (replica_key name rep_id)
        (instances (alloc_host_sub_network now write host_id name rep_id s).1)
alloc_host_sub_network-Grows now write host_id name rep_id s =
    let key = replica_key name rep_id in
    elim (alloc_host_sub_network_cases now write host_id name rep_id s) [
      | inl e ↦
          subst (λ (r : Text × NetworkManager). Grows (instances s) key (instances r.1)) (sym e)
            (inl refl)
      | inr (k, h, known, e) ↦
          subst (λ (r : Text × NetworkManager). Grows (instances s) key (instances r.1)) (sym e)
            (alloc_address-Grows now write key (mask24 h.instance_net) s)
    ]

Grows-lookup :
    (m m' : Map ℕ Text) (key owner : Text) (a : ℕ)
    → Grows m key m'
    → lookup a m ≡ some owner
    → lookup a m' ≡ some owner
Grows-lookup m m' key owner a (inl e) h = rw e h
Grows-lookup m m' key owner a (inr (b, vacant, e)) h =
    rw e (ground (arith, lookup-insert b a key m, eqb_iff b a, h, vacant, same_entry m a b))
  where
    same_entry : (x : Map ℕ Text) (i j : ℕ) → j ≡ i → lookup j x ≡ lookup i x
    same_entry x i j p = ap (λ n. lookup n x) p

-- No allocation, whether it succeeds or fails, takes an address from its owner: every entry of the
-- table stays as it is.
pub alloc_host_sub_network_keeps :
    (now : ℤ) (write : Option ℕ) (host_id name : Text) (rep_id : ℕ) (s : NetworkManager)
    → (a : ℕ) (owner : Text) → lookup a (instances s) ≡ some owner
    → lookup a (instances (alloc_host_sub_network now write host_id name rep_id s).1) ≡ some owner
alloc_host_sub_network_keeps now write host_id name rep_id s a owner h =
    Grows-lookup _ _ (replica_key name rep_id) owner a
      (alloc_host_sub_network-Grows now write host_id name rep_id s) h

owners_differ :
    (a b : ℕ) (x y : Text) (m : Map ℕ Text)
    → x ≢ y
    → a ≡ b
    → lookup a m ≡ some x
    → (lookup b m ≡ none) ⊎ (lookup b m ≡ some y)
    → ⊥
owners_differ a b x y m ne e h k =
    let same : lookup a m ≡ lookup b m = ap (λ i. lookup i m) e in ground (arith, ne, same)

-- The instance networks of the hosts are uint32 values.
abbrev pub HasWords : NetworkManager → Type 0
HasWords s =
    (id : Text) (k : ℕ) (h : ZoneHost) → host_net s id ≡ some (k, h) → h.instance_net < 2 ^ 32

lookup-words :
    (m : Map ℕ ZoneHost) (k : ℕ) (h : ZoneHost)
    → All (λ (p : ℕ × ZoneHost). p.1.instance_net < 2 ^ 32) m
    → lookup k m ≡ some h
    → h.instance_net < 2 ^ 32
unfolding lookup
lookup-words [] k h w e = cc
lookup-words ((j, g) ∷ m) k h w e = elim (Bool-cases (j == k)) [
  | inl same ↦ let q : g ≡ h = ground (arith, same, e) in rw (← q) w.0
  | inr other ↦ lookup-words m k h w.1 (ground (arith, other, e))
]

pub HasWords-All :
    (s : NetworkManager)
    → All (λ (p : ℕ × ZoneHost). p.1.instance_net < 2 ^ 32) (bridge_hosts s)
    → HasWords s
unfolding host_net
HasWords-All s w id k h e = elim (Option-cases (lookup id s.hosts)) [
  | inl p ↦ absurd (ground (arith, p, e))
  | inr (j, p) ↦ elim (Option-cases (lookup j (bridge_hosts s))) [
    | inl q ↦ absurd (ground (arith, p, q, e))
    | inr (g, q) ↦
        let r : g ≡ h = ground (arith, p, q, e) in rw (← r) (lookup-words (bridge_hosts s) j g w q)
  ]
]

host_net-flush :
    (now : ℤ) (write : Option ℕ) (id : Text) (s : NetworkManager)
    → host_net (flush now write s).1 id ≡ host_net s id
unfolding host_net flush
host_net-flush now none id s = refl
host_net-flush now (some v) id s = refl

module _ (now : ℤ) (write : Option ℕ) (id : Text) where
  host_net-write_address :
      (key : Text) (a : ℕ) (s : NetworkManager)
      → host_net (write_address now write key a s).1 id ≡ host_net s id
  unfolding write_address host_net
  host_net-write_address key a s = host_net-flush now write id (assign key a s)

  host_net-take_address :
      (key : Text) (base : ℕ) (s : NetworkManager)
      → host_net (take_address now write key base s).1 id ≡ host_net s id
  unfolding take_address
  host_net-take_address key base s =
      elim (Option-cases (first_from (is_vacant (instances s) base) vpc_alloc_min vpc_alloc_cap)) [
        | inl e ↦ rw (e, take_address) refl
        | inr (n, e) ↦ rw (e, take_address) (host_net-write_address key (base + n) s)
      ]

  host_net-alloc_address :
      (key : Text) (base : ℕ) (s : NetworkManager)
      → host_net (alloc_address now write key base s).1 id ≡ host_net s id
  unfolding alloc_address
  host_net-alloc_address key base s =
      elim (Option-cases
        (first_from (has_owner (instances s) base key) vpc_alloc_min vpc_alloc_cap)) [
          | inl e ↦ rw (e, alloc_address) (host_net-take_address key base s)
          | inr (n, e) ↦ rw (e, alloc_address) refl
        ]

-- An allocation leaves the hosts' networks as they are.
host_net-alloc_host_sub_network :
    (now : ℤ) (write : Option ℕ) (host_id name : Text) (rep_id : ℕ) (s : NetworkManager) (id : Text)
    → host_net (alloc_host_sub_network now write host_id name rep_id s).1 id ≡ host_net s id
host_net-alloc_host_sub_network now write host_id name rep_id s id =
    elim (alloc_host_sub_network_cases now write host_id name rep_id s) [
      | inl e ↦ subst (λ (r : Text × NetworkManager). host_net r.1 id ≡ host_net s id) (sym e) refl
      | inr (k, h, known, e) ↦
          subst (λ (r : Text × NetworkManager). host_net r.1 id ≡ host_net s id) (sym e)
            (host_net-alloc_address now write id (replica_key name rep_id) (mask24 h.instance_net)
              s)
    ]

-- An allocation for another replica, right after one that succeeded, gives another address text,
-- on whatever hosts the two are. The instance networks of the hosts are uint32 values.
pub alloc_host_sub_network_distinct :
    (now later : ℤ) (write write' : Option ℕ) (host host' name name' : Text) (rep_id rep_id' : ℕ)
    (s : NetworkManager)
    → let r = alloc_host_sub_network now write host name rep_id s in
      let r' = alloc_host_sub_network later write' host' name' rep_id' r.1 in
      HasWords s
      → replica_key name rep_id ≢ replica_key name' rep_id'
      → r.0 ≢ []
      → r'.0 ≢ []
      → r.0 ≢ r'.0
alloc_host_sub_network_distinct now later write write' host host' name name' rep_id rep_id' s ws ne
      ok ok' e =
    let g = alloc_host_sub_network-IsAllocated now write host name rep_id s ok in
    let g' = alloc_host_sub_network-IsAllocated later write' host' name' rep_id' _ ok' in
    let p = ws host g.k g.h g.host_known in
    let p' =
      ws host' g'.k g'.h (
        sym (host_net-alloc_host_sub_network now write host name rep_id s host') ∙ g'.host_known) in
    let same : mask24 g.h.instance_net + g.n ≡ mask24 g'.h.instance_net + g'.n =
      uint32_to_ipv4-eq _ _ (omega (arith, p, g.in_range)) (omega (arith, p', g'.in_range))
        (sym g.is_ip ∙ e ∙ g'.is_ip) in
    owners_differ _ _ _ _ (instances (alloc_host_sub_network now write host name rep_id s).1) ne
      same g.owned g'.before
