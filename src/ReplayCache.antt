-- ===== src/ReplayCache.antt =====
-- pkg/inauth/replay_cache.go: a token's nonce is accepted once while it is remembered.
mod Examples
pub mod Refused
use innerstack.Prelude.{
  ℕ, suc, ◌+◌, ◌%◌, ◌≡◌, refl, ◌≢◌, Bool, true, false, not, List, [], ◌∷◌, ◌++◌, Option, none, some,
  Text, if◌then◌else◌, ◌==◌, text_key, text_eq_iff, eqb, arith, ap, sym, Bool-cases, inl, inr,
  is_some, Option-cases,
}
use innerstack.Prelude.Int.{ℤ, pos, add64, ltb_ℤ, leb_ℤ, ◌≤ℤ◌, ◌<ℤ◌}
use innerstack.Prelude.Map.{Map, lookup, insert, lookup-insert_self}

abbrev pub replay_sweep_interval : ℕ
replay_sweep_interval = 1024

-- The expiry by kid, a zero byte and nonce, and the number of inserts.
pub record ReplayCache : Type 0 where
  pub items : Map Text ℤ
  pub inserts : ℕ

unfoldable pub new_replay_cache : ReplayCache
new_replay_cache = record { items = []; inserts = 0 }

abbrev pub item_key : Text → Text → Text
item_key kid nonce = kid ++ (0 ∷ nonce)

-- Entries that have expired are deleted.
unfoldable pub sweep_items : ℤ → Map Text ℤ → Map Text ℤ
sweep_items now [] = []
sweep_items now ((k, exp) ∷ rest) =
    let later = sweep_items now rest in if leb_ℤ exp now then later else (k, exp) ∷ later

-- `retention` is tokenReplayRetention, in seconds. The counter is an int64, and would take 2^63
-- inserts to wrap.
unfoldable pub remember : ℤ → ℤ → Text → ReplayCache → ReplayCache
unfolding sweep_items
remember retention now k c =
    let items = insert k (add64 now retention) c.items in
    let n = c.inserts + 1 in
    record {
      items = if eqb (n % replay_sweep_interval) 0 then sweep_items now items else items;
      inserts = n;
    }

is_remembered : ℤ → Option ℤ → Bool
is_remembered now none = false
is_remembered now (some exp) = ltb_ℤ now exp

unfoldable pub consume : ℤ → ℤ → Text → Text → ReplayCache → Bool × ReplayCache
unfolding is_remembered
consume retention now kid nonce c =
    if nonce == []
    then (true, c)
    else if is_remembered now (lookup (item_key kid nonce) c.items)
    then (false, c)
    else (true, remember retention now (item_key kid nonce) c)
