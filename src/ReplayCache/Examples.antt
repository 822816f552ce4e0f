-- ===== src/ReplayCache/Examples.antt =====
-- A token that is sent three times, and another one between.
use innerstack.Prelude.Map.{lookup}
use innerstack.Prelude.{text_eq, ◌≡◌, refl, true, false, bytes, List, [], ◌∷◌, Text}
use innerstack.Prelude.Int.{ℤ, pos, add64, wrap64, ◌+ℤ◌}
use innerstack.ReplayCache.{new_replay_cache, consume}
use innerstack.ReplayCache.Refused.{Call, calls, Before, consume_refuses}

-- The retention is twice the lifetime of a token, and half a minute.
abbrev retention : ℤ
retention = pos 630

abbrev kid : Text
kid = bytes "app1"

abbrev nonce : Text
nonce = bytes "n1"

abbrev others : List Call
others = record { now = pos 1100; kid = kid; nonce = bytes "n2" } ∷ []

expiry : add64 (pos 1000) retention ≡ pos 1630
unfolding add64 wrap64 ◌+ℤ◌
expiry = refl

others-Before : Before (add64 (pos 1000) retention) others
unfolding Before add64 wrap64 ◌+ℤ◌
others-Before = (refl, tt)

first_accepted : (consume retention (pos 1000) kid nonce new_replay_cache).0 ≡ true
unfolding consume new_replay_cache text_eq lookup
first_accepted = refl

consume_refuses_example :
    (consume retention
      (pos 1200)
      kid
      nonce
      (calls retention others (consume retention (pos 1000) kid nonce new_replay_cache).1)).0
    ≡ false
consume_refuses_example =
    consume_refuses retention (pos 1000) (pos 1200) kid nonce others new_replay_cache (λ p. cc)
      (rw expiry refl) first_accepted others-Before (rw expiry refl)
