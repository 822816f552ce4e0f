-- ===== src/Audit/Ids.antt =====
-- The ids of records: the order of the texts is that of the times.
use innerstack.Prelude.{
  ℕ, zero, suc, ◌*◌, ◌/◌, ◌%◌, ◌^◌, ◌<◌, ◌≡◌, refl, sym, ◌∙◌, Bool, true, false, [], ◌∷◌, ◌++◌,
  Text, arith, length, length-append, inl, inr, Bool-cases, ltb, eqb, ◌&&◌, ◌||◌,
}
use native.Mathlib.Numerals.{unary_clauses}
use innerstack.Audit.{hex_digit, hex_fixed, hex_above, audit_id_of_ts}

-- Go's `<` on strings.
unfoldable pub text_ltb : Text → Text → Bool
text_ltb xs [] = false
text_ltb [] (y ∷ ys) = true
text_ltb (x ∷ xs) (y ∷ ys) = ltb x y || (eqb x y && text_ltb xs ys)

hex_digit_mono : (a b : ℕ) → a < b → b < 16 → hex_digit a < hex_digit b
hex_digit_mono a b h k = ground arith

-- Two texts of one length that differ in this order keep it before any ends.
text_ltb-append :
    (xs ys s t : Text)
    → length xs ≡ length ys
    → text_ltb xs ys ≡ true
    → text_ltb (xs ++ s) (ys ++ t) ≡ true
unfolding text_ltb
text_ltb-append xs [] s t n h = cc
text_ltb-append [] (y ∷ ys) s t n h = absurd (omega (arith, n))
text_ltb-append (x ∷ xs) (y ∷ ys) s t n h =
    ground (arith, h, text_ltb-append xs ys s t (omega (arith, n)))

text_ltb_same : (xs : Text) (a b : ℕ) → a < b → text_ltb (xs ++ a ∷ []) (xs ++ b ∷ []) ≡ true
unfolding text_ltb
text_ltb_same [] a b h = ground arith
text_ltb_same (x ∷ xs) a b h = ground (arith, text_ltb_same xs a b h)

length-hex_fixed : (w n : ℕ) → length (hex_fixed w n) ≡ w
unfolding hex_fixed
length-hex_fixed zero n = refl
length-hex_fixed (suc w) n =
    let s = length-append (hex_fixed w (n / 16)) (hex_digit (n % 16) ∷ []) in
    let r = length-hex_fixed w (n / 16) in omega arith

below_pow : (w b : ℕ) → b < 16 ^ suc w → b / 16 < 16 ^ w
below_pow w b k = let e : 16 ^ suc w ≡ 16 ^ w * 16 = simp unary_clauses in omega arith

hex_fixed_mono : (w a b : ℕ) → a < b → b < 16 ^ w → text_ltb (hex_fixed w a) (hex_fixed w b) ≡ true
unfolding hex_fixed
hex_fixed_mono zero a b h k = absurd (omega (arith, h, k))
hex_fixed_mono (suc w) a b h k = elim (Bool-cases (ltb (a / 16) (b / 16))) [
  | inl up ↦
      text_ltb-append (hex_fixed w (a / 16)) (hex_fixed w (b / 16)) _ _
        (length-hex_fixed w (a / 16) ∙ sym (length-hex_fixed w (b / 16)))
        (hex_fixed_mono w (a / 16) (b / 16) (ground (arith, up)) (below_pow w b k))
  | inr not_up ↦
      let same : a / 16 ≡ b / 16 = ground (arith, not_up, h) in
      rw same (
        text_ltb_same (hex_fixed w (b / 16)) _ _
          (hex_digit_mono (a % 16) (b % 16) (omega (arith, same, h)) (omega arith)))
]

hex_above_zero : (f : ℕ) → hex_above f 0 ≡ []
unfolding hex_above
hex_above_zero zero = refl
hex_above_zero (suc f) = refl

-- The ids of two records, whatever follows the time, come in the order of their times, while the
-- milliseconds fit in twelve hex digits.
pub audit_id_of_ts_lem :
    (a b : ℕ) (s t : Text)
    → a < b
    → b < 16 ^ 12
    → text_ltb (audit_id_of_ts a ++ s) (audit_id_of_ts b ++ t) ≡ true
unfolding audit_id_of_ts
audit_id_of_ts_lem a b s t h k =
    let za : a / 16 ^ 12 ≡ 0 = omega arith in
    let zb : b / 16 ^ 12 ≡ 0 = omega arith in
    rw (za, zb, hex_above_zero a, hex_above_zero b)
      (text_ltb-append (hex_fixed 12 a) (hex_fixed 12 b) s t
        (length-hex_fixed 12 a ∙ sym (length-hex_fixed 12 b)) (hex_fixed_mono 12 a b h k))
