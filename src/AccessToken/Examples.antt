-- ===== src/AccessToken/Examples.antt =====
-- A token that is presented twice. The example's signature of a text is the text itself.
use innerstack.Prelude.{List, [], ◌∷◌, Option, some, Text, bytes, text_key, text_eq, arith}
use innerstack.Prelude.Int.{ℤ, pos, sub64, wrap64, ◌-ℤ◌}
use innerstack.Prelude.Map.{Map, lookup}
use innerstack.ReplayCache.{new_replay_cache, consume}
use innerstack.AccessToken.{AccessKey, AccessToken, Times, verify, is_expired, is_stale, abs_int64}
use innerstack.AccessToken.Once.{IsAccepted, Visit, verify_all, verify_once}

abbrev sign : Text → Text → Option Text
sign text secret = some text

abbrev key1 : AccessKey
key1 = record { id = bytes "k1"; state = []; secret = bytes "s" }

abbrev keys : Map Text AccessKey
keys = (bytes "k1", key1) ∷ []

abbrev token_of : Text → AccessToken
token_of nonce = record {
  kid = bytes "k1";
  iat = pos 1000;
  exp = pos 1060;
  nonce = nonce;
  signing_string = bytes "h.c";
  sign_string = bytes "h.c";
}

abbrev token1 : AccessToken
token1 = token_of (bytes "n1")

abbrev at_time : ℤ → Times
at_time t = record { expiry_checked = t; iat_checked = t; consumed = t }

abbrev visits : List Visit
visits = record { times = at_time (pos 1020); token = token_of (bytes "n2"); keys = keys } ∷ []

verify-IsAccepted :
    IsAccepted (verify sign some keys (at_time (pos 1001)) token1 new_replay_cache).0
unfolding verify consume new_replay_cache text_eq lookup is_expired is_stale abs_int64 sub64 wrap64
    ◌-ℤ◌
verify-IsAccepted = tt

verify_once_example :
    ¬ IsAccepted
      (verify sign some keys (at_time (pos 1050)) token1 (
        verify_all sign some visits
          (verify sign some keys (at_time (pos 1001)) token1 new_replay_cache).1)).0
verify_once_example =
    verify_once sign some keys keys (pos 1001) (pos 1050) 1001 1001 1050 1050 token1 visits
      new_replay_cache (λ e. cc) (omega arith) (omega arith) (omega arith) (omega arith)
      (omega arith) (omega arith) (omega arith, tt) verify-IsAccepted
