-- ===== src/Scheduler/Score.antt =====
-- The ranking score is a percentage.
use native.Mathlib.Nat.{div-le_of_le-mul}
use innerstack.Prelude.{◌≡◌, ℕ, ◌*◌, ◌/◌, ◌+◌, ◌^◌, ◌<◌, ◌≤◌, arith, zero, suc, refl}
use innerstack.Prelude.Int.{
  ℤ, pos, negsuc, ◌≤ℤ◌, mul64, ◌*ℤ◌, quot_ℤ, wrap64_exact, add64, ◌+ℤ◌, max_ℤ,
}
use innerstack.Scheduler.{HostFit, calculate_percentage, calculate_occupancy}

mul64_hundred : (a : ℕ) → a * 100 < 2 ^ 63 → mul64 (pos a) (pos 100) ≡ pos (a * 100)
unfolding mul64 ◌*ℤ◌
mul64_hundred a h = ground (arith, wrap64_exact (pos (a * 100)) (omega arith))

-- A share of at most the whole is from 0 to 100 per cent, where the product does not wrap.
calculate_percentage_bounds :
    (a : ℕ) (d : ℤ)
    → pos a ≤ℤ d
    → a < 2 ^ 56
    → (q : ℕ) × (calculate_percentage (pos a) d ≡ pos q) × (q ≤ 100)
unfolding calculate_percentage quot_ℤ
calculate_percentage_bounds a (pos zero) h k = (0, refl, omega arith)
calculate_percentage_bounds a (pos (suc b)) h k = (
  a * 100 / suc b,
  ground (arith, mul64_hundred a (omega arith)),
  div-le_of_le-mul (suc b) (omega arith),
)
calculate_percentage_bounds a (negsuc b) h k = absurd (omega arith)

halved : (p q : ℕ) → p ≤ 100 → q ≤ 100 → quot_ℤ (add64 (pos p) (pos q)) (pos 2) ≡ pos ((p + q) / 2)
unfolding quot_ℤ add64 ◌+ℤ◌
halved p q h k = ground (arith, wrap64_exact (pos (p + q)) (omega arith))

-- A host whose use of cpu and memory is at most their caps, and below 2^56, scores a percentage.
pub calculate_occupancy_bounds :
    (f : HostFit) (a b : ℕ)
    → max_ℤ f.cpu_alloc f.cpu_used ≡ pos a
    → max_ℤ f.mem_alloc f.mem_used ≡ pos b
    → pos a ≤ℤ f.cpu_total
    → pos b ≤ℤ f.mem_total
    → a < 2 ^ 56
    → b < 2 ^ 56
    → (q : ℕ) × ((calculate_occupancy f).score ≡ pos q) × (q ≤ 100)
unfolding calculate_occupancy
calculate_occupancy_bounds f a b ea eb ha hb ka kb =
    let (p, ep, hp) = calculate_percentage_bounds a f.cpu_total ha ka in
    let (q, eq, hq) = calculate_percentage_bounds b f.mem_total hb kb in
    ((p + q) / 2, rw (ea, eb, ep, eq) (halved p q hp hq), omega arith)
