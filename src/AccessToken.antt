-- ===== src/AccessToken.antt =====
-- pkg/inauth/access_token.go: the verification of an access token, whose nonce is consumed.
-- Keys, the signatures of the token's algorithm and the decoding of base64 are parameters.
pub mod Once
mod Examples
use innerstack.Prelude.{
  ℕ, Bool, true, false, not, ◌&&◌, List, [], ◌∷◌, Option, none, some, Text, bytes, if◌then◌else◌,
  ◌==◌, text_key, number_key,
}
use innerstack.Prelude.Int.{ℤ, pos, sub64, ltb_ℤ, leb_ℤ}
use innerstack.Prelude.Map.{Map, lookup}
use innerstack.ReplayCache.{ReplayCache, consume}

-- inauth.AccessKey
pub record AccessKey : Type 0 where
  pub id : Text
  pub state : Text
  pub secret : Text

abbrev pub access_key_state_disable : Text
access_key_state_disable = bytes "disable"

pub record AccessToken : Type 0 where
  pub kid : Text
  pub iat : ℤ
  pub exp : ℤ
  pub nonce : Text
  pub signing_string : Text
  pub sign_string : Text

-- The readings of the clock in one verification, in seconds.
pub record Times : Type 0 where
  pub expiry_checked : ℤ
  pub iat_checked : ℤ
  pub consumed : ℤ

pub data Denial : Type 0 where
  key_not_found : Denial
  key_disabled : Denial
  expired : Denial
  iat_expired : Denial
  sign_failed : Denial
  verify_denied : Denial
  replayed : Denial

pub data Verdict : Type 0 where
  accepted : AccessKey → Verdict
  denied : Denial → Verdict

abbrev pub app_auth_exp : ℤ
app_auth_exp = pos 60

-- 2 * appAuthExp + 30
abbrev pub token_replay_retention : ℤ
token_replay_retention = pos 150

unfoldable pub abs_int64 : ℤ → ℤ
abs_int64 a = if ltb_ℤ a (pos 0) then sub64 (pos 0) a else a

unfoldable pub is_expired : ℤ → AccessToken → Bool
is_expired now token = leb_ℤ token.exp now

unfoldable pub is_stale : ℤ → AccessToken → Bool
unfolding abs_int64
is_stale now token = ltb_ℤ app_auth_exp (abs_int64 (sub64 now token.iat))

unfoldable pub consume_nonce : Times → AccessToken → ReplayCache → AccessKey → Verdict × ReplayCache
consume_nonce times token cache ak =
    let used = consume token_replay_retention times.consumed token.kid token.nonce cache in
    if token.nonce == []
    then (accepted ak, cache)
    else if not used.0
    then (denied replayed, used.1)
    else (accepted ak, used.1)

module _ (sign : Text → Text → Option Text) (decode : Text → Option Text)
    (keys : Map Text AccessKey) where
  -- The checks that come before the nonce: the key, or the denial.
  unfoldable pub check_signature : AccessToken → AccessKey → Verdict
  check_signature token ak = elim (sign token.signing_string ak.secret) [
    | none ↦ denied sign_failed
    | some b ↦ elim (decode token.sign_string) [
      | none ↦ denied verify_denied
      | some want ↦ if not (b == want) then denied verify_denied else accepted ak
    ]
  ]

  unfoldable pub check_token : Times → AccessToken → Verdict
  unfolding check_signature is_expired is_stale
  check_token times token = elim (lookup token.kid keys) [
    | none ↦ denied key_not_found
    | some ak ↦
        if ak.state == access_key_state_disable
        then denied key_disabled
        else if is_expired times.expiry_checked token
        then denied expired
        else if is_stale times.iat_checked token
        then denied iat_expired
        else check_signature token ak
  ]

  -- `Verify`
  unfoldable pub verify : Times → AccessToken → ReplayCache → Verdict × ReplayCache
  unfolding check_token consume_nonce
  verify times token cache = elim (check_token times token) [
    | denied e ↦ (denied e, cache)
    | accepted ak ↦ consume_nonce times token cache ak
  ]
