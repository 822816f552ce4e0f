-- ===== src/Inet.antt =====
-- pkg/inetutil: IPv4 addresses as texts, as four bytes and as a uint32.
-- What it uses of Go's `net` is written out for IPv4; the two parameters of the last section stand
-- for `net` on IPv6 texts.
mod Examples
pub mod Dotted
use innerstack.Prelude.{
  ℕ, zero, suc, ◌+◌, ◌-◌, ◌*◌, ◌/◌, ◌%◌, ◌^◌, ◌≤◌, ◌<◌, ◌≡◌, Bool, true, false, not, ◌&&◌, ◌||◌,
  List, [], ◌∷◌, ◌++◌, Option, none, some, Text, if◌then◌else◌, ltb, leb, eqb, length, contains,
  number_key, is_some,
}
use innerstack.Decimal.{decimal, is_digit, value_from}

-- A slice of four bytes, as `To4` gives it.
pub record Quad : Type 0 where
  pub a : ℕ
  pub b : ℕ
  pub c : ℕ
  pub d : ℕ

-- binary.BigEndian.Uint32
unfoldable pub bytes_to_uint32 : Quad → ℕ
bytes_to_uint32 q = q.a * 2 ^ 24 + q.b * 2 ^ 16 + q.c * 2 ^ 8 + q.d

-- binary.BigEndian.PutUint32
unfoldable pub uint32_to_bytes : ℕ → Quad
uint32_to_bytes v = record {
  a = v / 2 ^ 24 % 2 ^ 8;
  b = v / 2 ^ 16 % 2 ^ 8;
  c = v / 2 ^ 8 % 2 ^ 8;
  d = v % 2 ^ 8;
}

abbrev pub dot : ℕ
dot = b'.'

unfoldable pub ip4_to_string : Quad → Text
ip4_to_string q =
    decimal q.a ++ (dot ∷ (decimal q.b ++ (dot ∷ (decimal q.c ++ (dot ∷ decimal q.d)))))

unfoldable pub uint32_to_ipv4 : ℕ → Text
uint32_to_ipv4 v = ip4_to_string (uint32_to_bytes v)

-- The private ranges of RFC 1918.
unfoldable pub is_private : Quad → Bool
is_private q =
    eqb q.a 10 || (eqb q.a 172 && leb 16 q.b && leb q.b 31) || (eqb q.a 192 && eqb q.b 168)

-- The end of an IPv4 text: three fields stand before the last one, which has a digit.
pub last_field : ℕ → ℕ → List ℕ → Option Quad
last_field val zero fields = none
last_field val (suc n) (c ∷ b ∷ a ∷ []) = some (record { a = a; b = b; c = c; d = val })
last_field val (suc n) _ = none

-- The loop of `netip.parseIPv4Fields`: the value and the number of digits of the field at hand,
-- and the fields before it, the last one first.
unfoldable pub ipv4_fields : ℕ → ℕ → List ℕ → Text → Option Quad
unfolding last_field
ipv4_fields val digits fields [] = last_field val digits fields
ipv4_fields val digits fields (x ∷ s) =
    let digit =
      if eqb digits 1 && eqb val 0
      then none
      else if ltb 255 (val * 10 + (x - 48))
      then none
      else ipv4_fields (val * 10 + (x - 48)) (suc digits) fields s in
    let next =
      if eqb digits 0 || leb 3 (length fields) then none else ipv4_fields 0 0 (val ∷ fields) s in
    if is_digit x then digit else if eqb x dot then next else none

unfoldable pub parse_ipv4 : Text → Option Quad
unfolding ipv4_fields
parse_ipv4 s = ipv4_fields 0 0 [] s

-- The first mark that `netip.ParseAddr` meets decides how a text is read.
pub data Family : Type 0 where
  ipv4 ipv6 neither : Family

unfoldable pub family : Text → Family
family [] = neither
family (x ∷ s) =
    let rest = family s in
    if eqb x dot then ipv4 else if eqb x b':' then ipv6 else if eqb x b'%' then neither else rest

-- A text before and after the last, and the first, byte `mark`.
unfoldable pub cut_last : ℕ → Text → Option (Text × Text)
cut_last mark [] = none
cut_last mark (x ∷ s) = elim (cut_last mark s) [
  | some (before, after) ↦ some (x ∷ before, after)
  | none ↦ if eqb x mark then some ([], s) else none
]

unfoldable pub cut_first : ℕ → Text → Option (Text × Text)
cut_first mark [] = none
cut_first mark (x ∷ s) =
    let later = cut_first mark s in
    if eqb x mark
    then some ([], s)
    else elim later [ some (before, after) ↦ some (x ∷ before, after) | none ↦ none ]

-- The host of `[host]`, where the first `]` is the last byte.
bracketed : Option (Text × Text) → Option Text
bracketed (some (host, [])) = if contains host b'[' then none else some host
bracketed _ = none

-- The text before the last colon: in brackets, or with no colon and no bracket.
host_before : Text → Option Text
unfolding bracketed
host_before [] = some []
host_before (x ∷ s) =
    if eqb x b'['
    then bracketed (cut_first b']' s)
    else if contains (x ∷ s) b':' || contains (x ∷ s) b'[' || contains (x ∷ s) b']'
    then none
    else some (x ∷ s)

-- The host of `net.SplitHostPort`; `none` is its error.
unfoldable pub split_host_port : Text → Option Text
unfolding host_before cut_last
split_host_port s = elim (cut_last b':' s) [
  | none ↦ none
  | some (before, port) ↦
      if contains port b'[' || contains port b']' then none else host_before before
]

all_digits : Text → Bool
all_digits [] = true
all_digits (x ∷ s) = is_digit x && all_digits s

-- The prefix length of a CIDR text: digits alone, at most 32.
mask_fits : Text → Bool
unfolding all_digits
mask_fits [] = false
mask_fits (x ∷ s) = all_digits (x ∷ s) && leb (value_from 0 (x ∷ s)) 32

-- What `net.ParseCIDR` and then `To4` make of a text.
pub data Cidr : Type 0 where
  not_a_cidr : Cidr
  not_ipv4 : Cidr
  address : Quad → Cidr

module _ (parse_ipv6 : Text → Option Quad) where
  -- net.ParseIP and then To4; of an IPv6 text it is the four bytes of a mapped address, if any.
  unfoldable pub parse_ip : Text → Option Quad
  parse_ip s = elim (family s) [ ipv4 ↦ parse_ipv4 s | ipv6 ↦ parse_ipv6 s | neither ↦ none ]

  unfoldable pub parse_private_ip : Text → Option Quad
  unfolding is_private
  parse_private_ip s = elim (parse_ip s) [
    | none ↦ none
    | some q ↦ if is_private q then some q else none
  ]

  unfoldable pub parse_private_address : Text → Option Quad
  parse_private_address s = elim (split_host_port s) [
    | none ↦ parse_private_ip s
    | some host ↦ parse_private_ip host
  ]

  unfoldable pub ipv4_to_uint32 : Text → ℕ
  ipv4_to_uint32 s = elim (parse_ip s) [ none ↦ 0 | some q ↦ bytes_to_uint32 q ]

-- net.ParseCIDR and then To4; `cidr6` reads the texts whose address part is IPv6.
unfoldable pub parse_cidr : (Text → Cidr) → Text → Cidr
unfolding family mask_fits cut_first parse_ipv4
parse_cidr cidr6 s = elim (cut_first b'/' s) [
  | none ↦ not_a_cidr
  | some (addr, mask) ↦ elim (family addr) [
    | ipv4 ↦
        if mask_fits mask
        then elim (parse_ipv4 addr) [ none ↦ not_a_cidr | some q ↦ address q ]
        else not_a_cidr
    | ipv6 ↦ cidr6 s
    | neither ↦ not_a_cidr
  ]
]
