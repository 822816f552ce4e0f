-- ===== src/Inet/Dotted.antt =====
-- Dotted texts: what is printed is read back as the same address.
use mathlib.Core.List.{append-nil}
use innerstack.Prelude.{
  ℕ, zero, suc, ◌+◌, ◌-◌, ◌*◌, ◌/◌, ◌%◌, ◌^◌, ◌≤◌, ◌<◌, ◌≡◌, refl, ap, true, List, [], ◌∷◌, ◌++◌,
  Option, none, some, Text, if◌then◌else◌, ltb, length, arith, ◌⊎◌, inl, inr, Bool-cases, ◌∙◌, sym,
  All,
}
use innerstack.Decimal.{decimal, decimal_fuel, is_digit, All-decimal}
use innerstack.Inet.{
  Quad, bytes_to_uint32, uint32_to_bytes, dot, ip4_to_string, uint32_to_ipv4, ipv4_fields,
  parse_ipv4, family, ipv4, parse_ip, ipv4_to_uint32,
}

-- A byte prints as one, two or three digits.
octet : ℕ → Text
octet n =
    if ltb n 10
    then (48 + n) ∷ []
    else if ltb n 100
    then (48 + n / 10) ∷ (48 + n % 10) ∷ []
    else (48 + n / 100) ∷ (48 + n / 10 % 10) ∷ (48 + n % 10) ∷ []

decimal_zero : decimal 0 ≡ octet 0
unfolding octet decimal
decimal_zero = refl

decimal_one : decimal 1 ≡ octet 1
unfolding octet decimal
decimal_one = refl

decimal_fuel-octet : (f n : ℕ) → n < 256 → decimal_fuel (suc (suc (suc f))) n ≡ octet n
unfolding octet decimal_fuel
decimal_fuel-octet f n h = ground arith

decimal-octet : (n : ℕ) → n < 256 → decimal n ≡ octet n
unfolding decimal
decimal-octet zero h = decimal_zero
decimal-octet (suc zero) h = decimal_one
decimal-octet (suc (suc n)) h = decimal_fuel-octet n (suc (suc n)) h

-- One digit is read into the field.
ipv4_fields-digit :
    (val digits : ℕ) (fields : List ℕ) (x v : ℕ) (s : Text)
    → is_digit x ≡ true
    → (digits ≡ 0) ⊎ (0 < val)
    → (val * 10 + (x - 48) ≡ v) × (v ≤ 255)
    → ipv4_fields val digits fields (x ∷ s) ≡ ipv4_fields v (suc digits) fields s
unfolding ipv4_fields
ipv4_fields-digit val digits fields x v s d h k = rw (← k.0) (ground arith)

-- Reading a byte leaves the reader behind it, with its value.
ipv4_fields-octet :
    (n : ℕ) (fields : List ℕ) (rest : Text)
    → n < 256
    → (k : ℕ) × (ipv4_fields 0 0 fields (octet n ++ rest) ≡ ipv4_fields n (suc k) fields rest)
unfolding octet
ipv4_fields-octet n fields rest h = elim (Bool-cases (ltb n 10)) [
  | inl one ↦
      rw one
        (0, ipv4_fields-digit 0 0 fields (48 + n) n rest (ground arith) (inl refl) (omega arith))
  | inr more ↦ rw more (elim (Bool-cases (ltb n 100)) [
    | inl two ↦ rw two (
      1,
      ipv4_fields-digit 0 0 fields (48 + n / 10) (n / 10) ((48 + n % 10) ∷ rest) (ground arith)
            (inl refl) (omega arith)
          ∙ ipv4_fields-digit (n / 10) 1 fields (48 + n % 10) n rest (ground arith)
              (inr (ground arith)) (omega arith),
    )
    | inr three ↦ rw three (
      2,
      ipv4_fields-digit 0 0 fields (48 + n / 100) (n / 100)
            ((48 + n / 10 % 10) ∷ (48 + n % 10) ∷ rest) (ground arith) (inl refl) (omega arith)
          ∙ ipv4_fields-digit (n / 100) 1 fields (48 + n / 10 % 10) (n / 10) ((48 + n % 10) ∷ rest)
              (ground arith) (inr (ground arith)) (omega arith)
          ∙ ipv4_fields-digit (n / 10) 2 fields (48 + n % 10) n rest (ground arith)
              (inr (ground arith)) (omega arith),
    )
  ])
]

abbrev pub IsBytes : Quad → Type 0
IsBytes q = (q.a < 256) × (q.b < 256) × (q.c < 256) × (q.d < 256)

-- The dot behind a field starts the next one.
ipv4_fields-dot :
    (val k : ℕ) (fields : List ℕ) (s : Text)
    → length fields < 3
    → ipv4_fields val (suc k) fields (dot ∷ s) ≡ ipv4_fields 0 0 (val ∷ fields) s
unfolding ipv4_fields
ipv4_fields-dot val k fields s h = ground arith

field :
    (n : ℕ) (fields : List ℕ) (rest : Text)
    → n < 256
    → length fields < 3
    → ipv4_fields 0 0 fields (decimal n ++ (dot ∷ rest)) ≡ ipv4_fields 0 0 (n ∷ fields) rest
field n fields rest h k =
    let (j, e) = ipv4_fields-octet n fields (dot ∷ rest) h in
    rw (decimal-octet n h) (e ∙ ipv4_fields-dot n j fields rest k)

last :
    (a b c d : ℕ)
    → d < 256
    → ipv4_fields 0 0 (c ∷ b ∷ a ∷ []) (decimal d) ≡ some (record { a = a; b = b; c = c; d = d })
unfolding ipv4_fields
last a b c d h =
    let (j, e) = ipv4_fields-octet d (c ∷ b ∷ a ∷ []) [] h in
    rw (decimal-octet d h, ← append-nil (octet d)) e

-- The four fields of a printed address are read back.
pub parse_ipv4-ip4_to_string : (q : Quad) → IsBytes q → parse_ipv4 (ip4_to_string q) ≡ some q
unfolding parse_ipv4 ip4_to_string
parse_ipv4-ip4_to_string q h =
    field q.a [] _ h.0 (omega arith)
    ∙ field q.b (q.a ∷ []) _ h.1 (omega arith)
    ∙ field q.c (q.b ∷ q.a ∷ []) _ h.2 (omega arith)
    ∙ last q.a q.b q.c q.d h.3

family-digits : (s t : Text) → All (λ c. is_digit c ≡ true) s → family (s ++ (dot ∷ t)) ≡ ipv4
unfolding family
family-digits [] t h = refl
family-digits (x ∷ s) t h = ground (arith, family-digits s t h.1, h.0)

dotted_family : (q : Quad) → family (ip4_to_string q) ≡ ipv4
unfolding ip4_to_string
dotted_family q = family-digits (decimal q.a) _ (All-decimal q.a)

uint32_to_bytes-IsBytes : (v : ℕ) → IsBytes (uint32_to_bytes v)
unfolding uint32_to_bytes
uint32_to_bytes-IsBytes v = omega arith

-- The four bytes of a uint32 make it up again.
pub bytes_to_uint32-uint32_to_bytes : (v : ℕ) → v < 2 ^ 32 → bytes_to_uint32 (uint32_to_bytes v) ≡ v
unfolding bytes_to_uint32 uint32_to_bytes
bytes_to_uint32-uint32_to_bytes v h = omega arith

-- The dotted text of four bytes is read back as these, whatever IPv6 texts stand for.
pub parse_ip-ip4_to_string :
    (parse_ipv6 : Text → Option Quad) (q : Quad)
    → IsBytes q
    → parse_ip parse_ipv6 (ip4_to_string q) ≡ some q
unfolding parse_ip
parse_ip-ip4_to_string parse_ipv6 q h =
    ground (arith, dotted_family q, parse_ipv4-ip4_to_string q h)

-- A uint32 that is printed as a dotted text is read back from it, whatever IPv6 texts stand for.
pub ipv4_to_uint32-uint32_to_ipv4 :
    (parse_ipv6 : Text → Option Quad) (v : ℕ)
    → v < 2 ^ 32
    → ipv4_to_uint32 parse_ipv6 (uint32_to_ipv4 v) ≡ v
unfolding ipv4_to_uint32 uint32_to_ipv4
ipv4_to_uint32-uint32_to_ipv4 parse_ipv6 v h = ground (
  arith,
  parse_ip-ip4_to_string parse_ipv6 (uint32_to_bytes v) (uint32_to_bytes-IsBytes v),
  bytes_to_uint32-uint32_to_bytes v h,
)

-- Different addresses have different texts.
pub uint32_to_ipv4-eq :
    (v w : ℕ) → v < 2 ^ 32 → w < 2 ^ 32 → uint32_to_ipv4 v ≡ uint32_to_ipv4 w → v ≡ w
uint32_to_ipv4-eq v w h k e =
    sym (ipv4_to_uint32-uint32_to_ipv4 (λ _. none) v h)
    ∙ ap (ipv4_to_uint32 (λ _. none)) e
    ∙ ipv4_to_uint32-uint32_to_ipv4 (λ _. none) w k
