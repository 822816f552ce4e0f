-- ===== src/Audit/Steps.antt =====
-- The runs of the writer: records are emitted and written, in any order, with a data store that takes
-- every record.
use innerstack.Prelude.{
  ℕ, suc, ◌+◌, ◌%◌, ◌^◌, ◌<◌, ◌≤◌, ◌≡◌, refl, ap, ◌≢◌, true, List, [], ◌∷◌, Option, none, Text,
  arith, length, length-append, ltb, by_if, by_option,
}
use innerstack.Audit.{
  AuditRecord, Manager, cleared, write, stamped, run_once, emit, next_ts, queue_cap,
}
use innerstack.Audit.Chain.{head_of, IsChain}

-- A manager of an empty data store.
abbrev pub start : Manager
start = record {
  queue = [];
  dropped_total = 0;
  dropped_pending = 0;
  written_total = 0;
  last_ts = 0;
  prev_hash = [];
  log = [];
}

-- The records that were dropped before those of a log, by what the log says.
abbrev pub sum_dropped : List AuditRecord → ℕ
sum_dropped [] = 0
sum_dropped (rec ∷ rest) = rec.dropped_before + sum_dropped rest

-- The times of a log fall strictly, the latest record first, from below a bound.
abbrev pub IsLater : ℕ → List AuditRecord → Type 0
IsLater t [] = Unit
IsLater t (rec ∷ rest) = (rec.ts < t) × IsLater rec.ts rest

IsLater-weaken : (a b : ℕ) (log : List AuditRecord) → a ≤ b → IsLater a log → IsLater b log
IsLater-weaken a b [] h l = tt
IsLater-weaken a b (rec ∷ rest) h (t, l) = (omega arith, l)

mod_suc : (a b c : ℕ) → (a + b) % 2 ^ 32 ≡ c % 2 ^ 32 → (a + (b + 1)) % 2 ^ 32 ≡ (c + 1) % 2 ^ 32
mod_suc a b c h = omega arith

mod_moved : (a b c : ℕ) → (a + b) % 2 ^ 32 ≡ c % 2 ^ 32 → (b % 2 ^ 32 + a + 0) % 2 ^ 32 ≡ c % 2 ^ 32
mod_moved a b c h = omega arith

module _ (digest : AuditRecord → Option Text) where
  pub data Step (m : Manager) (m' : Manager) : Type 0 where
    emits : (rec : AuditRecord) → m' ≡ emit rec m → Step m m'
    turns : (now : ℕ) (suffix : Text) → m' ≡ run_once digest now suffix true m → Step m m'

  pub data Reach : Manager → Type 0 where
    here : Reach start
    next : {m m' : Manager} → Reach m → Step m m' → Reach m'

  -- What the writer keeps: the head is the hash of the latest record, the log is a chain in the order
  -- of time, the queue is bounded, and the counts agree with the log, those of the dropped records
  -- modulo 2 ^ 32.
  pub record Sound (m : Manager) : Type 0 where
    pub head : m.prev_hash ≡ head_of m.log
    pub chain : IsChain digest m.log
    pub times : IsLater (m.last_ts + 1) m.log
    pub bounded : length m.queue ≤ queue_cap
    pub written : m.written_total ≡ length m.log
    pub dropped : (sum_dropped m.log + m.dropped_pending) % 2 ^ 32 ≡ m.dropped_total % 2 ^ 32

  start-Sound : Sound start
  start-Sound = record {
    head = refl;
    chain = tt;
    times = tt;
    bounded = omega arith;
    written = refl;
    dropped = refl;
  }

  emit-Sound : (rec : AuditRecord) (m : Manager) → Sound m → Sound (emit rec m)
  unfolding emit
  emit-Sound rec m s =
      by_if Sound (ltb (length m.queue) queue_cap) _ _
        (λ e.
          let n = length-append m.queue (rec ∷ []) in
          record {
            head = s.head;
            chain = s.chain;
            times = s.times;
            bounded = ground (arith, e, n);
            written = s.written;
            dropped = s.dropped;
          })
        (λ e. record {
          head = s.head;
          chain = s.chain;
          times = s.times;
          bounded = s.bounded;
          written = s.written;
          dropped = mod_suc (sum_dropped m.log) m.dropped_pending m.dropped_total s.dropped;
        })

  next_ts_above : (now last_ts : ℕ) → last_ts < next_ts now last_ts
  unfolding next_ts
  next_ts_above now last_ts = ground arith

  write-Sound :
      (now : ℕ) (suffix : Text) (rec : AuditRecord) (m : Manager)
      → ((r : AuditRecord) → digest r ≢ none)
      → Sound m
      → Sound (write digest now suffix true rec m)
  unfolding write stamped
  write-Sound now suffix rec m total s =
      let later = next_ts_above now m.last_ts in
      by_option Sound (digest (cleared (stamped now suffix m rec))) _ _ (λ e. absurd (total _ e))
        (λ h e. record {
          head = refl;
          chain = (e, s.head, s.chain);
          times = (
            omega (arith, later),
            IsLater-weaken (m.last_ts + 1) _ m.log (omega (arith, later)) s.times,
          );
          bounded = s.bounded;
          written = let w = s.written in omega (arith, w);
          dropped = mod_moved (sum_dropped m.log) m.dropped_pending m.dropped_total s.dropped;
        })

  run_once-Sound :
      (now : ℕ) (suffix : Text) (m : Manager)
      → ((r : AuditRecord) → digest r ≢ none)
      → Sound m
      → Sound (run_once digest now suffix true m)
  unfolding run_once
  run_once-Sound now suffix m total s =
      elim m.queue
          as (λ q.
            m.queue ≡ q
            → Sound (elim q [
              | [] ↦ m
              | rec ∷ rest ↦ write digest now suffix true rec (record m { queue = rest })
            ])) [
              | [] ↦ λ e. s
              | rec ∷ rest ↦ λ e.
                  let b = s.bounded in
                  let len : length m.queue ≡ suc (length rest) = ap length e in
                  write-Sound now suffix rec (record m { queue = rest }) total
                    (record {
                      head = s.head;
                      chain = s.chain;
                      times = s.times;
                      bounded = omega arith;
                      written = s.written;
                      dropped = s.dropped;
                    })
            ]
        refl

  -- In every state that the writer reaches from an empty one while the data store takes every record,
  -- by emitting records and taking its turns in any order: the head is the hash of the latest record
  -- (empty while there is none); every record of the log holds its digest as its hash and names the hash
  -- of the one before it, the first none; their times rise strictly, and none is after the writer's last
  -- time; the queue holds at most 1024 records; the count of written records is the log's length; and the
  -- drops that the log tells of, with those still to be told, are those counted, modulo 2 ^ 32. Every
  -- record can be hashed.
  pub Reach-Sound : (m : Manager) → ((r : AuditRecord) → digest r ≢ none) → Reach m → Sound m
  Reach-Sound m total here = start-Sound
  Reach-Sound m total (next r (emits rec e)) = rw e (emit-Sound rec _ (Reach-Sound _ total r))
  Reach-Sound m total (next r (turns now suffix e)) =
      rw e (run_once-Sound now suffix _ total (Reach-Sound _ total r))
