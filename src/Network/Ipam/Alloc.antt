-- ===== src/Network/Ipam/Alloc.antt =====
-- `AllocHostSubNetwork`: an address belongs to one replica.
use innerstack.Prelude.{
  ℕ, ◌+◌, ◌≤◌, ◌<◌, ◌≡◌, refl, sym, ap, subst, ◌∙◌, ◌≢◌, ◌⊎◌, inl, inr, true, [], Option, none,
  some, Text, text_key, text_eq_iff, number_key, arith, Bool-cases, Option-cases,
}
use innerstack.Prelude.Int.{ℤ}
use innerstack.Prelude.Map.{Map, lookup, insert, lookup-insert_self, lookup-insert_ne}
use innerstack.Inet.{uint32_to_ipv4}
use innerstack.Network.Scan.{first_from, first_from_sound}
use innerstack.Network.Ipam.{
  vpc_alloc_min, vpc_alloc_cap, ZoneHost, NetworkManager, instances, mask24, flush, host_net,
  replica_key, has_owner, is_vacant, take_address, assign, write_address, alloc_address,
  alloc_host_sub_network,
}

-- The outcome of a successful allocation: an address of the host's /24 with a last byte from 3 to
-- 252, which was vacant or the replica's own, and now is the replica's; no other entry changed.
pub record IsAllocated (s : NetworkManager) (host_id key : Text) (ip : Text) (t : NetworkManager)
    : Type 0 where
  pub k : ℕ
  pub h : ZoneHost
  pub host_known : host_net s host_id ≡ some (k, h)
  pub n : ℕ
  pub in_range : (vpc_alloc_min ≤ n) × (n < vpc_alloc_min + vpc_alloc_cap)
  pub is_ip : ip ≡ uint32_to_ipv4 (mask24 h.instance_net + n)
  pub owned : lookup (mask24 h.instance_net + n) (instances t) ≡ some key
  pub before :
      (lookup (mask24 h.instance_net + n) (instances s) ≡ none)
      ⊎ (lookup (mask24 h.instance_net + n) (instances s) ≡ some key)
  pub others :
      (a : ℕ) → a ≢ mask24 h.instance_net + n → lookup a (instances t) ≡ lookup a (instances s)

has_owner_lem :
    (m : Map ℕ Text) (base : ℕ) (key : Text) (n : ℕ)
    → has_owner m base key n ≡ true
    → lookup (base + n) m ≡ some key
unfolding has_owner
has_owner_lem m base key n e = elim (Option-cases (lookup (base + n) m)) [
  | inl p ↦ absurd (ground (arith, p))
  | inr (id, p) ↦ p ∙ ap some (sym ((text_eq_iff key id).0 (ground (arith, p))))
]

pub is_vacant_lem :
    {V : Type 0} (m : Map ℕ V) (base n : ℕ) → is_vacant m base n ≡ true → lookup (base + n) m ≡ none
unfolding is_vacant
is_vacant_lem m base n e = ground arith

-- Writing out changes no entry.
instances-flush :
    (now : ℤ) (write : Option ℕ) (s : NetworkManager)
    → instances (flush now write s).1 ≡ instances s
unfolding flush
instances-flush now none s = refl
instances-flush now (some v) s = refl

module _ (now : ℤ) (write : Option ℕ) (key : Text) where
  pub instances-write_address :
      (a : ℕ) (s : NetworkManager)
      → instances (write_address now write key a s).1 ≡ insert a key (instances s)
  unfolding write_address
  instances-write_address a s = instances-flush now write (assign key a s)

  write_address-ip :
      (a : ℕ) (s : NetworkManager)
      → (write_address now write key a s).0 ≢ []
      → (write_address now write key a s).0 ≡ uint32_to_ipv4 a
  unfolding write_address
  write_address-ip a s ne = ground arith

  -- What the two loops do to a /24.
  pub record IsGiven (base : ℕ) (s : NetworkManager) (ip : Text) (t : NetworkManager) : Type 0 where
    pub n : ℕ
    pub in_range : (vpc_alloc_min ≤ n) × (n < vpc_alloc_min + vpc_alloc_cap)
    pub is_ip : ip ≡ uint32_to_ipv4 (base + n)
    pub owned : lookup (base + n) (instances t) ≡ some key
    pub before :
        (lookup (base + n) (instances s) ≡ none) ⊎ (lookup (base + n) (instances s) ≡ some key)
    pub others : (a : ℕ) → a ≢ base + n → lookup a (instances t) ≡ lookup a (instances s)

  write_address-IsGiven :
      (base n : ℕ) (s : NetworkManager)
      → first_from (is_vacant (instances s) base) vpc_alloc_min vpc_alloc_cap ≡ some n
      → let r = write_address now write key (base + n) s in r.0 ≢ [] → IsGiven base s r.0 r.1
  write_address-IsGiven base n s e ne =
      let (low, high, vacant) =
        first_from_sound (is_vacant (instances s) base) vpc_alloc_min vpc_alloc_cap n e in
      record {
        n = n;
        in_range = (low, high);
        is_ip = write_address-ip (base + n) s ne;
        owned =
            rw (instances-write_address (base + n) s)
              (lookup-insert_self (base + n) key (instances s));
        before = inl (is_vacant_lem (instances s) base n vacant);
        others = λ a other.
            rw (instances-write_address (base + n) s)
              (lookup-insert_ne (base + n) a key (instances s) (λ p. other (sym p)));
      }

  Given : ℕ → NetworkManager → Text × NetworkManager → Type 0
  Given base s r = r.0 ≢ [] → IsGiven base s r.0 r.1

  take_address-IsGiven :
      (base : ℕ) (s : NetworkManager) → Given base s (take_address now write key base s)
  unfolding take_address Given
  take_address-IsGiven base s =
      elim (Option-cases (first_from (is_vacant (instances s) base) vpc_alloc_min vpc_alloc_cap)) [
        | inl e ↦ rw (e, take_address) (λ ne. absurd (ne refl))
        | inr (n, e) ↦ rw (e, take_address) (write_address-IsGiven base n s e)
      ]

  kept-IsGiven :
      (base n : ℕ) (s : NetworkManager)
      → first_from (has_owner (instances s) base key) vpc_alloc_min vpc_alloc_cap ≡ some n
      → Given base s (uint32_to_ipv4 (base + n), s)
  unfolding Given
  kept-IsGiven base n s e ne =
      let (low, high, own) =
        first_from_sound (has_owner (instances s) base key) vpc_alloc_min vpc_alloc_cap n e in
      let mine = has_owner_lem (instances s) base key n own in
      record {
        n = n;
        in_range = (low, high);
        is_ip = refl;
        owned = mine;
        before = inr mine;
        others = λ a other. refl;
      }

  pub alloc_address-IsGiven :
      (base : ℕ) (s : NetworkManager)
      → let r = alloc_address now write key base s in r.0 ≢ [] → IsGiven base s r.0 r.1
  unfolding alloc_address Given
  alloc_address-IsGiven base s =
      elim (Option-cases
        (first_from (has_owner (instances s) base key) vpc_alloc_min vpc_alloc_cap)) [
          | inl e ↦ rw (e, alloc_address) (take_address-IsGiven base s)
          | inr (n, e) ↦ rw (e, alloc_address) (kept-IsGiven base n s e)
        ]

IsGiven-IsAllocated :
    (now : ℤ) (write : Option ℕ) (host_id key : Text) (s : NetworkManager) (k : ℕ) (h : ZoneHost)
    → host_net s host_id ≡ some (k, h)
    → (r : Text × NetworkManager) → IsGiven now write key (mask24 h.instance_net) s r.0 r.1
    → IsAllocated s host_id key r.0 r.1
IsGiven-IsAllocated now write host_id key s k h known r g = record {
  k = k;
  h = h;
  host_known = known;
  n = g.n;
  in_range = g.in_range;
  is_ip = g.is_ip;
  owned = g.owned;
  before = g.before;
  others = g.others;
}

-- A call does nothing, or is the run of the two loops on the /24 of a known host.
pub alloc_host_sub_network_cases :
    (now : ℤ) (write : Option ℕ) (host_id name : Text) (rep_id : ℕ) (s : NetworkManager)
    → (alloc_host_sub_network now write host_id name rep_id s ≡ ([], s))
      ⊎ ((k : ℕ) × (h : ZoneHost) × (host_net s host_id ≡ some (k, h))
          × (alloc_host_sub_network now write host_id name rep_id s
              ≡ alloc_address now write (replica_key name rep_id) (mask24 h.instance_net) s))
unfolding alloc_host_sub_network
alloc_host_sub_network_cases now write host_id name rep_id s = elim (Bool-cases s.ready) [
  | inl e ↦ elim (Option-cases (host_net s host_id)) [
    | inl p ↦ inl (ground (arith, e, p))
    | inr ((k, h), p) ↦ inr (k, h, p, ground (arith, e, p))
  ]
  | inr e ↦ inl (ground (arith, e))
]

-- An address that `AllocHostSubNetwork` returns lies in the /24 of a known host, with a last byte
-- from 3 to 252; it had no owner or was the replica's, it is the replica's afterwards, and the
-- entries of all other addresses are as before.
pub alloc_host_sub_network-IsAllocated :
    (now : ℤ) (write : Option ℕ) (host_id name : Text) (rep_id : ℕ) (s : NetworkManager)
    → let r = alloc_host_sub_network now write host_id name rep_id s in
      r.0 ≢ [] → IsAllocated s host_id (replica_key name rep_id) r.0 r.1
alloc_host_sub_network-IsAllocated now write host_id name rep_id s ne =
    elim (alloc_host_sub_network_cases now write host_id name rep_id s) [
      | inl e ↦ absurd (ne (ap (λ (r : Text × NetworkManager). r.0) e))
      | inr (k, h, known, e) ↦
          let key = replica_key name rep_id in
          subst (λ (r : Text × NetworkManager). IsAllocated s host_id key r.0 r.1) (sym e)
            (IsGiven-IsAllocated now write host_id key s k h known _ (
              alloc_address-IsGiven now write key (mask24 h.instance_net) s
                (λ p. ne (ap (λ (r : Text × NetworkManager). r.0) e ∙ p))))
    ]
