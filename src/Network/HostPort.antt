-- ===== src/Network/HostPort.antt =====
-- internal/zonelet/network/host_port.go: the choice of a host port for a container port.
-- `rand i` is the value that the i-th call of `rand.Uint32` gives.
mod Examples
pub mod Free
use innerstack.Prelude.{
  ℕ, zero, suc, ◌+◌, ◌-◌, ◌%◌, ◌^◌, ◌≤◌, ◌<◌, ◌≡◌, refl, Bool, true, false, not, List, [], ◌∷◌,
  Option, none, some, arith, length, contains, if◌then◌else◌, ltb, leb, number_key,
}
use innerstack.Network.Scan.{first_from}

abbrev pub host_port_min : ℕ
host_port_min = 20000

abbrev pub host_port_max : ℕ
host_port_max = 30000

abbrev pub host_port_limit : ℕ
host_port_limit = host_port_max - host_port_min + 1

-- The loop of random attempts: `i` attempts are done and `left` remain.
unfoldable pub random_attempts : (ℕ → ℕ) → List ℕ → ℕ → ℕ → Option ℕ
random_attempts rand used i zero = none
random_attempts rand used i (suc left) =
    let p = host_port_min + rand i % (host_port_max - host_port_min) in
    let rest = random_attempts rand used (suc i) left in
    if not (contains used p) then some p else rest

last_or : ℕ → List ℕ → ℕ
last_or d [] = d
last_or d (x ∷ xs) = last_or x xs

-- Where the sequential scan starts: behind the last port of the list, if that is above the minimum.
unfoldable pub scan_offset : List ℕ → ℕ
unfolding last_or
scan_offset [] = host_port_min
scan_offset (x ∷ xs) =
    let next = (last_or x xs + 1) % 2 ^ 32 in if ltb host_port_min next then next else host_port_min

or_zero : Option ℕ → ℕ
or_zero none = 0
or_zero (some p) = p

or_else : Option ℕ → Option ℕ → Option ℕ
or_else none later = later
or_else (some p) later = some p

-- The three searches in their order.
unfoldable pub auto_select : (ℕ → ℕ) → List ℕ → Option ℕ
unfolding or_else
auto_select rand used =
    let free = λ (p : ℕ). not (contains used p) in
    let offset = scan_offset used in
    or_else (random_attempts rand used 0 10) (
      or_else (first_from free offset (host_port_max + 1 - offset))
        (first_from free host_port_min (offset - host_port_min)))

unfoldable pub host_port_alloc : (ℕ → ℕ) → List ℕ → ℕ → ℕ
unfolding or_zero
host_port_alloc rand used port =
    if ltb 0 port
    then (if contains used port then 0 else port)
    else if leb host_port_limit (length used)
    then 0
    else or_zero (auto_select rand used)
