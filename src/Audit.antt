-- ===== src/Audit.antt =====
-- internal/audit/audit.go: the writer of the audit log, a chain of hashes.
-- `digest` is what `recordHash` makes of a record whose hash is cleared: the hex digits of the SHA-256
-- of its canonical encoding, or none where the encoding fails. A manager serves one zone here; `log`
-- is what the data store holds of it, the latest record first.
pub mod Verify
pub mod Chain
pub mod Log
pub mod Steps
pub mod Verified
pub mod Ids
mod Examples
use innerstack.Prelude.{
  ℕ, zero, suc, ◌+◌, ◌-◌, ◌*◌, ◌/◌, ◌%◌, ◌^◌, ◌≡◌, Bool, true, false, not, ◌&&◌, List, [], ◌∷◌,
  ◌++◌, Option, none, some, Text, bytes, if◌then◌else◌, ◌==◌, text_key, number_key, ltb, leb,
  length,
}

-- inapi.AuditRecord. The time is a number of milliseconds that is not negative; `dropped_before` holds
-- the bits of an int32.
pub record AuditRecord : Type 0 where
  pub zone : Text
  pub id : Text
  pub ts : ℕ
  pub actor_id : Text
  pub actor_user : Text
  pub actor_type : Text
  pub action : Text
  pub source_ip : Text
  pub target_type : Text
  pub target_id : Text
  pub status : Text
  pub error : Text
  pub detail : Text
  pub prev_hash : Text
  pub hash : Text
  pub dropped_before : ℕ
  pub suppressed_count : ℕ

abbrev pub queue_cap : ℕ
queue_cap = 1024

-- The fields of the Go struct that the writer uses, and the log.
pub record Manager : Type 0 where
  pub queue : List AuditRecord
  pub dropped_total : ℕ
  pub dropped_pending : ℕ
  pub written_total : ℕ
  pub last_ts : ℕ
  pub prev_hash : Text
  pub log : List AuditRecord

abbrev pub cleared : AuditRecord → AuditRecord
cleared rec = record rec { hash = [] }

-- `%x` of a digit, and `%012x`: twelve digits, or as many as the number has.
abbrev pub hex_digit : ℕ → ℕ
hex_digit d = if ltb d 10 then 48 + d else 87 + d

unfoldable pub hex_fixed : ℕ → ℕ → Text
hex_fixed zero n = []
hex_fixed (suc w) n = hex_fixed w (n / 16) ++ hex_digit (n % 16) ∷ []

-- The digits above the twelfth; the number itself is enough fuel.
unfoldable pub hex_above : ℕ → ℕ → Text
hex_above zero n = []
hex_above (suc f) n =
    let front = hex_above f (n / 16) in if n == 0 then [] else front ++ hex_digit (n % 16) ∷ []

unfoldable pub audit_id_of_ts : ℕ → Text
unfolding hex_fixed hex_above
audit_id_of_ts ts = hex_above ts (ts / 16 ^ 12) ++ hex_fixed 12 ts

-- The logical clock: later than the last record, whatever the wall clock says.
unfoldable pub next_ts : ℕ → ℕ → ℕ
next_ts now last_ts = if leb now last_ts then last_ts + 1 else now

-- `emit`: a full queue drops the record, and counts it.
unfoldable pub emit : AuditRecord → Manager → Manager
emit rec m =
    if ltb (length m.queue) queue_cap
    then record m { queue = m.queue ++ rec ∷ [] }
    else record m { dropped_total = m.dropped_total + 1; dropped_pending = m.dropped_pending + 1 }

-- The record as it is hashed.
unfoldable pub stamped : ℕ → Text → Manager → AuditRecord → AuditRecord
unfolding next_ts audit_id_of_ts
stamped now suffix m rec =
    let ts = next_ts now m.last_ts in
    record rec {
      ts = ts;
      id = audit_id_of_ts ts ++ suffix;
      dropped_before = m.dropped_pending % 2 ^ 32;
      prev_hash = m.prev_hash;
    }

module _ (digest : AuditRecord → Option Text) where
  -- `write`, at a time of the wall clock, with the random suffix; `stores` is whether the data store
  -- takes the record.
  unfoldable pub write : ℕ → Text → Bool → AuditRecord → Manager → Manager
  write now suffix stores rec m =
      let rec₁ = stamped now suffix m rec in
      let m₁ = record m { last_ts = next_ts now m.last_ts; dropped_pending = 0 } in
      elim (digest (cleared rec₁)) [
        | none ↦ m₁
        | some h ↦
            let rec₂ = record rec₁ { hash = h } in
            let m₂ = record m₁ { prev_hash = h } in
            if stores
            then record m₂ { log = rec₂ ∷ m.log; written_total = m.written_total + 1 }
            else m₂
      ]

  -- One turn of `run`: the first record of the queue is written.
  unfoldable pub run_once : ℕ → Text → Bool → Manager → Manager
  unfolding write
  run_once now suffix stores m = elim m.queue [
    | [] ↦ m
    | rec ∷ rest ↦ write now suffix stores rec (record m { queue = rest })
  ]

-- `recoverChainHead` for one zone: the latest record of the log, if any, gives the head. `before` is
-- the test that a text comes before another.
unfoldable pub recover_chain_head : (Text → Text → Bool) → List AuditRecord → Manager → Manager
recover_chain_head before [] m = m
recover_chain_head before (rec ∷ rest) m =
    if before (audit_id_of_ts m.last_ts ++ bytes "0000") rec.id
    then record m { prev_hash = rec.hash; last_ts = rec.ts }
    else m
