-- ===== src/ReplayCache/Refused.antt =====
-- A nonce that was accepted is refused until it expires.
use innerstack.Prelude.{
  ◌⊎◌, text_eq, ◌+◌, ◌%◌, ◌≡◌, refl, ◌≢◌, Bool, true, false, List, [], ◌∷◌, some, Text, ◌==◌,
  text_key, text_eq_iff, eqb, arith, ap, Bool-cases, inl, inr,
}
use innerstack.Prelude.Int.{ℤ, add64, ltb_ℤ, leb_ℤ}
use innerstack.Prelude.Map.{Map, lookup, insert, lookup-insert, lookup-insert_self}
use innerstack.ReplayCache.{
  ReplayCache, replay_sweep_interval, item_key, sweep_items, remember, is_remembered, consume,
}

-- One call: its time, its kid and its nonce.
pub record Call : Type 0 where
  pub now : ℤ
  pub kid : Text
  pub nonce : Text

-- The cache after a series of calls.
unfoldable pub calls : ℤ → List Call → ReplayCache → ReplayCache
calls retention [] c = c
calls retention (x ∷ rest) c = calls retention rest (consume retention x.now x.kid x.nonce c).1

-- Every call of a series comes before a time.
unfoldable pub Before : ℤ → List Call → Type 0
Before exp [] = Unit {0}
Before exp (x ∷ rest) = (ltb_ℤ x.now exp ≡ true) × Before exp rest

abbrev Has : Text → ℤ → ReplayCache → Type 0
Has k exp c = lookup k c.items ≡ some exp

not_expired : (now exp : ℤ) → ltb_ℤ now exp ≡ true → leb_ℤ exp now ≡ false
not_expired now exp h = ground arith

sweep_items_keeps :
    (now exp : ℤ) (k : Text) (m : Map Text ℤ)
    → ltb_ℤ now exp ≡ true
    → lookup k m ≡ some exp
    → lookup k (sweep_items now m) ≡ some exp
unfolding sweep_items lookup
sweep_items_keeps now exp k [] h e = cc
sweep_items_keeps now exp k ((j, v) ∷ m) h e = elim (Bool-cases (j == k)) [
  | inr other ↦ ground (arith, other, e, sweep_items_keeps now exp k m h)
  | inl same ↦
      let q : v ≡ exp = ground (arith, e, same) in
      let w : leb_ℤ v now ≡ false = rw q (not_expired now exp h) in ground (arith, w, same, q)
]

remember_keeps :
    (retention now exp : ℤ) (k j : Text) (c : ReplayCache)
    → ltb_ℤ now exp ≡ true
    → lookup k (insert j (add64 now retention) c.items) ≡ some exp
    → Has k exp (remember retention now j c)
unfolding remember
remember_keeps retention now exp k j c h e =
    elim (Bool-cases (eqb ((c.inserts + 1) % replay_sweep_interval) 0)) [
      | inl due ↦ rw (due, remember) (sweep_items_keeps now exp k _ h e)
      | inr skip ↦ rw (skip, remember) e
    ]

-- A call that finds an entry which has not expired is refused and changes nothing.
consume_known :
    (retention now exp : ℤ) (kid nonce : Text) (c : ReplayCache)
    → nonce ≢ []
    → Has (item_key kid nonce) exp c
    → ltb_ℤ now exp ≡ true
    → consume retention now kid nonce c ≡ (false, c)
unfolding consume is_remembered text_eq
consume_known retention now exp kid [] c ne e h = absurd (ne refl)
consume_known retention now exp kid (x ∷ nonce) c ne e h = ground (arith, e, h)

-- A call changes nothing, or remembers a nonce that is not remembered.
consume_cases :
    (retention now : ℤ) (kid nonce : Text) (c : ReplayCache)
    → ((consume retention now kid nonce c).1 ≡ c)
      ⊎ ((nonce ≢ [])
          × ((consume retention now kid nonce c).0 ≡ true)
          × (consume retention now kid nonce c
              ≡ (true, remember retention now (item_key kid nonce) c)))
unfolding consume text_eq
consume_cases retention now kid [] c = inl refl
consume_cases retention now kid (x ∷ nonce) c =
    elim (Bool-cases (is_remembered now (lookup (item_key kid (x ∷ nonce)) c.items))) [
      | inl known ↦ inl (ground (arith, known))
      | inr new ↦ inr (λ p. cc, ground (arith, new), ground (arith, new))
    ]

consume_keeps :
    (retention now exp : ℤ) (kid nonce k : Text) (c : ReplayCache)
    → ltb_ℤ now exp ≡ true
    → Has k exp c
    → Has k exp (consume retention now kid nonce c).1
consume_keeps retention now exp kid nonce k c h e = elim (consume_cases retention now kid nonce c) [
  | inl same ↦ rw same e
  | inr (ne, accepted, f) ↦ elim (Bool-cases (item_key kid nonce == k)) [
    | inl is_k ↦
        let q : item_key kid nonce ≡ k = (text_eq_iff (item_key kid nonce) k).0 is_k in
        rw (consume_known retention now exp kid nonce c ne (rw q e) h) e
    | inr other ↦ rw f (
        remember_keeps retention now exp k (item_key kid nonce) c h (
          ground
            (arith, lookup-insert (item_key kid nonce) k (add64 now retention) c.items, other, e)))
  ]
]

calls_keep :
    (retention exp : ℤ) (k : Text) (xs : List Call) (c : ReplayCache)
    → Before exp xs
    → Has k exp c
    → Has k exp (calls retention xs c)
unfolding calls Before
calls_keep retention exp k [] c b e = e
calls_keep retention exp k (x ∷ xs) c b e =
    calls_keep retention exp k xs _ b.1 (consume_keeps retention x.now exp x.kid x.nonce k c b.0 e)

consume_accepts :
    (retention now : ℤ) (kid nonce : Text) (c : ReplayCache)
    → nonce ≢ []
    → (consume retention now kid nonce c).0 ≡ true
    → consume retention now kid nonce c ≡ (true, remember retention now (item_key kid nonce) c)
unfolding consume text_eq
consume_accepts retention now kid [] c ne ok = absurd (ne refl)
consume_accepts retention now kid (x ∷ nonce) c ne ok =
    elim (Bool-cases (is_remembered now (lookup (item_key kid (x ∷ nonce)) c.items))) [
      | inl known ↦ absurd (ground (arith, known, ok))
      | inr new ↦ ground (arith, new)
    ]

-- Once a nonce that is not empty has been accepted, it is refused at every later call of the same key, whatever calls
-- came between, as long as these and the call itself come before its expiry; the expiry lies after
-- the time of the call that was accepted.
pub consume_refuses :
    (retention now later : ℤ) (kid nonce : Text) (xs : List Call) (c : ReplayCache)
    → nonce ≢ []
    → ltb_ℤ now (add64 now retention) ≡ true
    → (consume retention now kid nonce c).0 ≡ true
    → Before (add64 now retention) xs
    → ltb_ℤ later (add64 now retention) ≡ true
    → (consume retention later kid nonce
        (calls retention xs (consume retention now kid nonce c).1)).0
      ≡ false
consume_refuses retention now later kid nonce xs c ne p ok b h =
    let k = item_key kid nonce in
    let exp = add64 now retention in
    let first : Has k exp (consume retention now kid nonce c).1 =
      rw (consume_accepts retention now kid nonce c ne ok)
        (remember_keeps retention now exp k k c p (lookup-insert_self k exp c.items)) in
    let still = calls_keep retention exp k xs (consume retention now kid nonce c).1 b first in
    ap (λ (r : Bool × ReplayCache). r.0)
      (consume_known retention later exp kid nonce
        (calls retention xs (consume retention now kid nonce c).1) ne still h)
