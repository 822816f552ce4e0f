-- ===== src/AccessToken/Once.antt =====
-- A token with a nonce is accepted once.
use innerstack.Prelude.{
  ℕ, ◌+◌, ◌<◌, ◌≤◌, ◌^◌, ◌≡◌, refl, sym, ◌∙◌, ap, subst, ◌≢◌, ◌⊎◌, true, false, not, List, [], ◌∷◌,
  Option, Text, arith, All, inl, inr, by_if, by_option, ◌==◌, text_key, text_eq_iff,
}
use innerstack.Prelude.Int.{ℤ, pos, negsuc, add64, sub64, wrap64, ◌+ℤ◌, ◌-ℤ◌, ltb_ℤ, ◌≤ℤ◌, IsI64}
use innerstack.Prelude.Map.{Map, lookup}
use innerstack.ReplayCache.{ReplayCache, consume}
use innerstack.ReplayCache.Refused.{Call, calls, Before, consume_refuses}
use innerstack.AccessToken.{
  AccessKey, AccessToken, Times, Denial, Verdict, accepted, denied, replayed, key_not_found,
  key_disabled, expired, iat_expired, is_expired, access_key_state_disable, token_replay_retention,
  app_auth_exp, abs_int64, is_stale, check_token, consume_nonce, verify,
}

abbrev age : ℕ → ℤ → ℤ
age now iat = abs_int64 (sub64 (pos now) iat)

fresh_pos :
    (a n : ℕ)
    → a < 2 ^ 62
    → n < 2 ^ 63
    → ltb_ℤ app_auth_exp (age a (pos n)) ≡ false
    → (a ≤ n + 60) × (n ≤ a + 60)
unfolding abs_int64 sub64 wrap64 ◌-ℤ◌
fresh_pos a n h k e = ground (arith, e)

-- The difference may overflow.
fresh_neg :
    (a n : ℕ)
    → a < 2 ^ 62
    → n < 2 ^ 63
    → ltb_ℤ app_auth_exp (age a (negsuc n)) ≡ false
    → (a + n + 1 ≤ 60) ⊎ (a + n + 1 ≡ 2 ^ 63)
unfolding abs_int64 sub64 wrap64 ◌-ℤ◌
fresh_neg a n h k e = ground (arith, e)

fresh_near :
    (a b : ℕ) (iat : ℤ)
    → a < 2 ^ 62
    → b < 2 ^ 62
    → IsI64 iat
    → ltb_ℤ app_auth_exp (age a iat) ≡ false
    → ltb_ℤ app_auth_exp (age b iat) ≡ false
    → b ≤ a + 120
fresh_near a b (pos n) h k i e f =
    let (p, q) = fresh_pos a n h (omega (arith, i)) e in
    let (r, s) = fresh_pos b n k (omega (arith, i)) f in omega arith
fresh_near a b (negsuc n) h k i e f =
    let p = fresh_neg a n h (omega (arith, i)) e in
    let q = fresh_neg b n k (omega (arith, i)) f in omega arith

retention_lem : (c : ℕ) → c < 2 ^ 62 → add64 (pos c) token_replay_retention ≡ pos (c + 150)
unfolding add64 wrap64 ◌+ℤ◌
retention_lem c h = ground arith

Verdict-cases :
    (v : Verdict) → ((ak : AccessKey) × (v ≡ accepted ak)) ⊎ ((e : Denial) × (v ≡ denied e))
Verdict-cases (accepted ak) = inl (ak, refl)
Verdict-cases (denied e) = inr (e, refl)

abbrev pub IsAccepted : Verdict → Type 0
IsAccepted (accepted ak) = Unit
IsAccepted (denied e) = ⊥

-- One verification, with the keys of that time.
pub record Visit : Type 0 where
  pub times : Times
  pub token : AccessToken
  pub keys : Map Text AccessKey

module _ (sign : Text → Text → Option Text) (decode : Text → Option Text) where
  unfoldable pub verify_all : List Visit → ReplayCache → ReplayCache
  verify_all [] c = c
  verify_all (v ∷ rest) c = verify_all rest (verify sign decode v.keys v.times v.token c).1

  -- What an accepted verification went through.
  record Went (keys : Map Text AccessKey) (times : Times) (token : AccessToken) (c : ReplayCache)
      : Type 0 where
    fresh : is_stale times.iat_checked token ≡ false
    used : (consume token_replay_retention times.consumed token.kid token.nonce c).0 ≡ true
    left :
        (verify sign decode keys times token c).1
        ≡ (consume token_replay_retention times.consumed token.kid token.nonce c).1

  check_token-fresh :
      (keys : Map Text AccessKey) (times : Times) (token : AccessToken)
      → IsAccepted (check_token sign decode keys times token)
      → is_stale times.iat_checked token ≡ false
  unfolding check_token
  check_token-fresh keys times token a =
      let P = λ (v : Verdict). IsAccepted v → is_stale times.iat_checked token ≡ false in
      by_option P (lookup token.kid keys) (denied key_not_found) _ (λ n bad. absurd bad)
        (λ ak e.
          by_if P (ak.state == access_key_state_disable) (denied key_disabled) _
            (λ t bad. absurd bad)
            (λ t.
              by_if P (is_expired times.expiry_checked token) (denied expired) _
                (λ u bad. absurd bad)
                (λ u.
                  by_if P (is_stale times.iat_checked token) (denied iat_expired) _
                    (λ w bad. absurd bad) (λ fresh x. fresh))))
        a

  consume_nonce_lem :
      (times : Times) (token : AccessToken) (c : ReplayCache) (ak : AccessKey)
      → token.nonce ≢ []
      → IsAccepted (consume_nonce times token c ak).0
      → let used = consume token_replay_retention times.consumed token.kid token.nonce c in
        (used.0 ≡ true) × ((consume_nonce times token c ak).1 ≡ used.1)
  unfolding consume_nonce
  consume_nonce_lem times token c ak ne a =
      let used = consume token_replay_retention times.consumed token.kid token.nonce c in
      let P = λ (r : Verdict × ReplayCache). IsAccepted r.0 → (used.0 ≡ true) × (r.1 ≡ used.1) in
      by_if P (token.nonce == []) (accepted ak, c) _
        (λ e. absurd (ne ((text_eq_iff token.nonce []).0 e)))
        (λ e.
          by_if P (not used.0) (denied replayed, used.1) (accepted ak, used.1) (λ f bad. absurd bad)
            (λ f x. (ground (arith, f), refl)))
        a

  -- A verification uses the nonce, or leaves the cache.
  consume_nonce-cases :
      (times : Times) (token : AccessToken) (c : ReplayCache) (ak : AccessKey)
      → let used = consume token_replay_retention times.consumed token.kid token.nonce c in
        ((consume_nonce times token c ak).1 ≡ c) ⊎ ((consume_nonce times token c ak).1 ≡ used.1)
  unfolding consume_nonce
  consume_nonce-cases times token c ak =
      let used = consume token_replay_retention times.consumed token.kid token.nonce c in
      let P = λ (r : Verdict × ReplayCache). (r.1 ≡ c) ⊎ (r.1 ≡ used.1) in
      by_if P (token.nonce == []) (accepted ak, c) _ (λ e. inl refl)
        (λ e.
          by_if P (not used.0) (denied replayed, used.1) (accepted ak, used.1) (λ f. inr refl)
            (λ f. inr refl))

  verify-Went :
      (keys : Map Text AccessKey) (times : Times) (token : AccessToken) (c : ReplayCache)
      → token.nonce ≢ []
      → IsAccepted (verify sign decode keys times token c).0
      → Went keys times token c
  unfolding verify
  verify-Went keys times token c ne a =
      elim (Verdict-cases (check_token sign decode keys times token)) [
        | inr (e, q) ↦
            let same : verify sign decode keys times token c ≡ (denied e, c) =
              rw (q, verify) refl in
            absurd (subst (λ (r : Verdict × ReplayCache). IsAccepted r.0) same a)
        | inl (ak, q) ↦
            let same : verify sign decode keys times token c ≡ consume_nonce times token c ak =
              rw (q, verify) refl in
            let (u, l) =
              consume_nonce_lem times token c ak ne
                (subst (λ (r : Verdict × ReplayCache). IsAccepted r.0) same a) in
            record {
              fresh = check_token-fresh keys times token (subst IsAccepted (sym q) tt);
              used = u;
              left = ap (λ (r : Verdict × ReplayCache). r.1) same ∙ l;
            }
      ]

  verify-cases :
      (keys : Map Text AccessKey) (times : Times) (token : AccessToken) (c : ReplayCache)
      → let used = consume token_replay_retention times.consumed token.kid token.nonce c in
        ((verify sign decode keys times token c).1 ≡ c)
        ⊎ ((verify sign decode keys times token c).1 ≡ used.1)
  unfolding verify
  verify-cases keys times token c =
      elim (Verdict-cases (check_token sign decode keys times token)) [
        | inr (e, q) ↦ inl (rw (q, verify) refl)
        | inl (ak, q) ↦ rw (q, verify) (consume_nonce-cases times token c ak)
      ]

  -- What a series of verifications does to the cache, calls of `consume` at times under a bound do.
  verify_all-calls :
      (bound : ℤ) (visits : List Visit) (c : ReplayCache)
      → All (λ v. v.times.consumed ≤ℤ bound) visits
      → (xs : List Call) × (verify_all visits c ≡ calls token_replay_retention xs c)
        × All (λ x. x.now ≤ℤ bound) xs
  unfolding verify_all calls
  verify_all-calls bound [] c h = ([], refl, tt)
  verify_all-calls bound (v ∷ rest) c h =
      let (xs, e, b) =
        verify_all-calls bound rest (verify sign decode v.keys v.times v.token c).1 h.1 in
      elim (verify-cases v.keys v.times v.token c) [
        | inl q ↦ (xs, e ∙ ap (calls token_replay_retention xs) q, b)
        | inr q ↦
            let call : Call = record {
              now = v.times.consumed;
              kid = v.token.kid;
              nonce = v.token.nonce;
            } in
            (call ∷ xs, e ∙ ap (calls token_replay_retention xs) q, (h.0, b))
      ]

  Before_lem : (b d : ℕ) (xs : List Call) → b < d → All (λ x. x.now ≤ℤ pos b) xs → Before (pos d) xs
  unfolding Before
  Before_lem b d [] h a = tt
  Before_lem b d (x ∷ xs) h (k, a) = (ground (arith, h, k), Before_lem b d xs h a)

  -- A token with a nonce is accepted at most once: after it was accepted, no later verification accepts
  -- it, whatever was verified in between and with whatever keys. The clock does not go back, the
  -- second verification takes less than thirty seconds from its check of the token's age, and times
  -- stay under 2 ^ 62 seconds; the time of issue on the token is any int64.
  pub verify_once :
      (keys keys' : Map Text AccessKey) (x x' : ℤ) (aged used aged' used' : ℕ) (token : AccessToken)
      (visits : List Visit) (c : ReplayCache)
      → token.nonce ≢ []
      → IsI64 token.iat
      → aged ≤ used
      → used ≤ used'
      → aged' ≤ used'
      → used' < aged' + 30
      → used' < 2 ^ 62
      → All (λ v. v.times.consumed ≤ℤ pos used') visits
      → let first =
          verify sign decode keys
            (record { expiry_checked = x; iat_checked = pos aged; consumed = pos used })
            token
            c in
        IsAccepted first.0
        → ¬ IsAccepted
            (verify sign decode keys'
              (record { expiry_checked = x'; iat_checked = pos aged'; consumed = pos used' })
              token
              (verify_all visits first.1)).0
  unfolding is_stale
  verify_once keys keys' x x' aged used aged' used' token visits c ne i o₁ o₂ o₃ quick far all a
        a' =
      let t : Times = record { expiry_checked = x; iat_checked = pos aged; consumed = pos used } in
      let t' : Times = record {
        expiry_checked = x';
        iat_checked = pos aged';
        consumed = pos used';
      } in
      let d = (verify sign decode keys t token c).1 in
      let w = verify-Went keys t token c ne a in
      let w' = verify-Went keys' t' token (verify_all visits d) ne a' in
      let near = fresh_near aged aged' token.iat (omega arith) (omega arith) i w.fresh w'.fresh in
      let exp = retention_lem used (omega arith) in
      let (xs, e, b) = verify_all-calls (pos used') visits d all in
      let before = Before_lem used' (used + 150) xs (omega (arith, near, quick, o₁)) b in
      let refused =
        consume_refuses token_replay_retention (pos used) (pos used') token.kid token.nonce xs c ne
          (rw exp (ground arith)) w.used (rw exp before)
          (rw exp (ground (arith, near, quick, o₁))) in
      let same : verify_all visits d
          ≡ calls token_replay_retention xs
              (consume token_replay_retention (pos used) token.kid token.nonce c).1 =
        e ∙ ap (calls token_replay_retention xs) w.left in
      let u : (consume token_replay_retention (pos used') token.kid token.nonce
            (verify_all visits d)).0
          ≡ false =
        rw same refused in
      let v = w'.used in cc
