-- ===== src/Network/HostPort/Free.antt =====
-- A port that is chosen is free and in range, and one is chosen while there is one.
use innerstack.Prelude.{
  ℕ, zero, suc, ◌+◌, ◌-◌, ◌%◌, ◌≤◌, ◌<◌, ◌≡◌, Bool, false, not, List, [], ◌∷◌, some, arith, length,
  contains, number_key, ◌⊎◌, inl, inr, Bool-cases, Option-cases,
}
use innerstack.Network.Scan.{
  first_from, first_from_sound, first_from_least, first_from-none, pigeonhole,
}
use innerstack.Network.HostPort.{
  host_port_min, host_port_max, host_port_limit, random_attempts, scan_offset, auto_select,
  host_port_alloc,
}

abbrev pub InRange : ℕ → Type 0
InRange p = (host_port_min ≤ p) × (p ≤ host_port_max)

abbrev free : List ℕ → ℕ → Bool
free used p = not (contains used p)

random_attempts_sound :
    (rand : ℕ → ℕ) (used : List ℕ) (i left p : ℕ)
    → random_attempts rand used i left ≡ some p
    → InRange p × (contains used p ≡ false)
unfolding random_attempts
random_attempts_sound rand used i zero p h = cc
random_attempts_sound rand used i (suc left) p h =
    let q = host_port_min + rand i % (host_port_max - host_port_min) in
    elim (Bool-cases (contains used q)) [
      | inl taken ↦ random_attempts_sound rand used (suc i) left p (ground arith)
      | inr unused ↦ let same : q ≡ p = ground arith in (omega arith, rw (← same) unused)
    ]

scan_offset-le : (used : List ℕ) → host_port_min ≤ scan_offset used
unfolding scan_offset
scan_offset-le [] = omega arith
scan_offset-le (x ∷ xs) = ground arith

-- If a port of the range is free, one of the two scans finds one in range.
auto_select_sound :
    (rand : ℕ → ℕ) (used : List ℕ) (q : ℕ)
    → InRange q
    → contains used q ≡ false
    → (p : ℕ) × (auto_select rand used ≡ some p) × InRange p × (contains used p ≡ false)
unfolding auto_select
auto_select_sound rand used q range unused =
    let offset = scan_offset used in
    let low = scan_offset-le used in
    elim (Option-cases (random_attempts rand used 0 10)) [
      | inr (p, e) ↦
          let (r, f) = random_attempts_sound rand used 0 10 p e in (p, ground (arith, e), r, f)
      | inl e ↦ elim (Option-cases (first_from (free used) offset (host_port_max + 1 - offset))) [
        | inr (p, e₂) ↦
            let (a, b, f) = first_from_sound (free used) offset (host_port_max + 1 - offset) p e₂ in
            (p, ground (arith, e, e₂), (omega arith, omega arith), ground (arith, f))
        | inl e₂ ↦
            elim (Option-cases (first_from (free used) host_port_min (offset - host_port_min))) [
              | inr (p, e₃) ↦
                  let (a, b, f) =
                    first_from_sound (free used) host_port_min (offset - host_port_min) p e₃ in
                  let first =
                    first_from_least (free used) host_port_min (offset - host_port_min) p q e₃
                      range.0 in
                  (
                    p,
                    ground (arith, e, e₂, e₃),
                    (omega arith, ground (arith, first)),
                    ground (arith, f),
                  )
              | inl e₃ ↦ absurd (
                  ground (
                    arith,
                    first_from-none (free used) host_port_min (offset - host_port_min) q e₃ range.0,
                    first_from-none (free used) offset (host_port_max + 1 - offset) q e₂,
                  ))
            ]
      ]
    ]

-- A list shorter than the range leaves a port of the range free.
some_free :
    (used : List ℕ)
    → length used < host_port_limit
    → (q : ℕ) × InRange q × (contains used q ≡ false)
some_free used h = elim (Option-cases (first_from (free used) host_port_min host_port_limit)) [
  | inr (q, e) ↦
      let (a, b, f) = first_from_sound (free used) host_port_min host_port_limit q e in
      (q, (omega arith, omega arith), ground (arith, f))
  | inl e ↦ absurd (
      omega (
        arith,
        pigeonhole host_port_limit host_port_min used (λ q low high.
            ground (arith, first_from-none (free used) host_port_min host_port_limit q e low high)),
      ))
]

-- While the host has fewer used ports than the range has numbers, the automatic choice (port 0)
-- gives a port from 20000 to 30000 that is not in use, whatever the random numbers are.
pub host_port_alloc_auto :
    (rand : ℕ → ℕ) (used : List ℕ)
    → length used < host_port_limit
    → let p = host_port_alloc rand used 0 in InRange p × (contains used p ≡ false)
unfolding host_port_alloc
host_port_alloc_auto rand used h =
    let (q, range, unused) = some_free used h in
    let (p, e, r, f) = auto_select_sound rand used q range unused in ground (arith, e, r, f)

-- Of any request, asked by number or automatic, the result is 0 or a port that is not in use.
pub host_port_alloc-free :
    (rand : ℕ → ℕ) (used : List ℕ) (port : ℕ)
    → (host_port_alloc rand used port ≡ 0)
      ⊎ (contains used (host_port_alloc rand used port) ≡ false)
unfolding host_port_alloc
host_port_alloc-free rand used zero = ground (arith, host_port_alloc_auto rand used)
host_port_alloc-free rand used (suc p) = ground arith
