-- ===== src/Audit/Verified.antt =====
-- What `Verify` says of the log of a run: sound when every record was stored, broken when one was not.
use innerstack.Prelude.{
  ℕ, ◌+◌, ◌<◌, ◌≡◌, ◌⊎◌, refl, sym, ◌∙◌, ap, subst, ◌≢◌, true, false, List, [], ◌∷◌, ◌++◌, map,
  Option, none, some, Text, arith, length, length-append, text_eq_iff, text_key, inl, inr,
  Bool-cases,
}
use innerstack.Prelude.Int.{ℤ, pos}
use innerstack.Audit.{AuditRecord, Manager, cleared, write, stamped}
use innerstack.Audit.Verify.{
  VerifyResult, verify_scan_max, start_result, with_head, counted, verify, is_linked,
}
use innerstack.Audit.Chain.{
  FullPage, as_page, items_of, stored, head_of, IsChain, Linked, last_of, counted_all,
  verify-Linked, verify_iff,
}
use innerstack.Audit.Log.{
  oldest_first, newest, last_of_log, Linked-IsChain, Linked-snoc_inv, IsChain-Linked,
  IsChain-head_of, NoCollision, IsTrail, IsTrail-Linked, IsTrail-head_of,
}
use innerstack.Audit.Steps.{Reach, Reach-Sound}

counted_all-count :
    (rs : List AuditRecord) (res : VerifyResult)
    → (counted_all rs res).count ≡ res.count + length rs
counted_all-count [] res = omega arith
counted_all-count (rec ∷ rest) res = let r = counted_all-count rest (counted rec res) in omega arith

length-oldest_first : (log : List AuditRecord) → length (oldest_first log) ≡ length log
length-oldest_first [] = refl
length-oldest_first (rec ∷ rest) =
    let n = length-append (oldest_first rest) (rec ∷ []) in
    let r = length-oldest_first rest in omega arith

with_head-newest :
    (log : List AuditRecord) (res : VerifyResult)
    → res.head_hash ≡ []
    → (with_head res (newest log)).head_hash ≡ head_of log
with_head-newest [] res e = e
with_head-newest (rec ∷ rest) res e = refl

with_head-count :
    (res : VerifyResult) (prev : Option AuditRecord) → (with_head res prev).count ≡ res.count
with_head-count res none = refl
with_head-count res (some prev) = refl

counted_all-head_hash :
    (rs : List AuditRecord) (res : VerifyResult) → (counted_all rs res).head_hash ≡ res.head_hash
counted_all-head_hash [] res = refl
counted_all-head_hash (rec ∷ rest) res = counted_all-head_hash rest (counted rec res)

module _ (digest : AuditRecord → Option Text) (anchors : List Text) (retention now : ℤ)
    (m : Manager) (pages : List FullPage) (same : items_of pages ≡ map stored (oldest_first m.log))
    (few : length (items_of pages) < verify_scan_max) where
  -- The log of any run whose records were all stored is found valid, whatever the pages it comes in;
  -- its head is the writer's, and its count that of the records written. Every record can be hashed,
  -- and the log holds fewer records than the limit.
  pub Reach-verify :
      ((r : AuditRecord) → digest r ≢ none)
      → Reach digest m
      → let res = verify digest anchors retention now (map as_page pages) in
        (res.valid ≡ true) × (res.head_hash ≡ m.prev_hash) × (res.count ≡ m.written_total)
  Reach-verify total r =
      let s = Reach-Sound digest m total r in
      let rs = oldest_first m.log in
      let l = Linked-IsChain digest anchors retention now m.log s.chain in
      let e = verify-Linked digest anchors retention now pages rs same few l in
      let n = counted_all-count rs start_result in
      let k = length-oldest_first m.log in
      let w = s.written in
      (
        (verify_iff digest anchors retention now pages rs same few).1 l,
        rw (e, last_of_log m.log) (with_head-newest m.log _ (counted_all-head_hash rs start_result))
            ∙ sym s.head,
        ap (λ (v : VerifyResult). v.count) e ∙ with_head-count _ (last_of none rs) ∙ omega arith,
      )

-- A log that is found valid, whatever is known of anchors and retention, is a chain from some record on, and the head is the
-- hash of its latest record.
pub verify-IsTrail :
    (digest : AuditRecord → Option Text) (anchors : List Text) (retention now : ℤ)
    (log : List AuditRecord) (pages : List FullPage)
    → items_of pages ≡ map stored (oldest_first log)
    → length (items_of pages) < verify_scan_max
    → (verify digest anchors retention now (map as_page pages)).valid ≡ true
    → IsTrail digest log
      × ((verify digest anchors retention now (map as_page pages)).head_hash ≡ head_of log)
verify-IsTrail digest anchors retention now log pages same few v =
    let rs = oldest_first log in
    let l = (verify_iff digest anchors retention now pages rs same few).0 v in
    let e = verify-Linked digest anchors retention now pages rs same few l in
    (
      IsTrail-Linked digest anchors retention now log l,
      rw (e, last_of_log log) (with_head-newest log _ (counted_all-head_hash rs start_result)),
    )

-- Where nothing expires and no anchor is known, it is a chain from its start.
verified_log :
    (digest : AuditRecord → Option Text) (now : ℤ) (log : List AuditRecord) (pages : List FullPage)
    → items_of pages ≡ map stored (oldest_first log)
    → length (items_of pages) < verify_scan_max
    → (verify digest [] (pos 0) now (map as_page pages)).valid ≡ true
    → IsChain digest log
      × ((verify digest [] (pos 0) now (map as_page pages)).head_hash ≡ head_of log)
verified_log digest now log pages same few v = (
  IsChain-Linked digest now log
      ((verify_iff digest [] (pos 0) now pages (oldest_first log) same few).0 v),
  (verify-IsTrail digest [] (pos 0) now log pages same few v).1,
)

-- Tamper evidence, where no daily anchor is known and nothing expires (the retention is 0): two logs
-- that `Verify` then both finds valid, with the same head, are the same log, down to every field of every
-- record. No record of one log shares a digest with a different one of the other, and no digest is empty;
-- the logs come in any pages and hold fewer records than the limit.
pub verify-head_hash :
    (digest : AuditRecord → Option Text) (now now' : ℤ) (log log' : List AuditRecord)
    (pages pages' : List FullPage)
    → ((r : AuditRecord) → digest r ≢ some [])
    → NoCollision digest log log'
    → items_of pages ≡ map stored (oldest_first log)
    → items_of pages' ≡ map stored (oldest_first log')
    → length (items_of pages) < verify_scan_max
    → length (items_of pages') < verify_scan_max
    → (verify digest [] (pos 0) now (map as_page pages)).valid ≡ true
    → (verify digest [] (pos 0) now' (map as_page pages')).valid ≡ true
    → (verify digest [] (pos 0) now (map as_page pages)).head_hash
      ≡ (verify digest [] (pos 0) now' (map as_page pages')).head_hash
    → log ≡ log'
verify-head_hash digest now now' log log' pages pages' ne nc same same' few few' v v' e =
    let (c, h) = verified_log digest now log pages same few v in
    let (c', h') = verified_log digest now' log' pages' same' few' v' in
    IsChain-head_of digest log log' ne nc c c' (sym h ∙ e ∙ h')

-- Tamper evidence in general: when `Verify` finds two logs valid, each with any daily anchors, any
-- retention and at any time, and with the same head, then one of the two logs is the other one with
-- nothing but older records added to it. So no record that both reach back to differs in any field, and
-- none was inserted or removed among them or after them. No record of one log shares a digest with a
-- different one of the other; the logs come in any pages and hold fewer records than the limit.
pub verify-Agree :
    (digest : AuditRecord → Option Text) (anchors anchors' : List Text)
    (retention retention' now now' : ℤ) (log log' : List AuditRecord) (pages pages' : List FullPage)
    → NoCollision digest log log'
    → items_of pages ≡ map stored (oldest_first log)
    → items_of pages' ≡ map stored (oldest_first log')
    → length (items_of pages) < verify_scan_max
    → length (items_of pages') < verify_scan_max
    → (verify digest anchors retention now (map as_page pages)).valid ≡ true
    → (verify digest anchors' retention' now' (map as_page pages')).valid ≡ true
    → (verify digest anchors retention now (map as_page pages)).head_hash
      ≡ (verify digest anchors' retention' now' (map as_page pages')).head_hash
    → (older : List AuditRecord) × ((log' ≡ log ++ older) ⊎ (log ≡ log' ++ older))
verify-Agree digest anchors anchors' retention retention' now now' log log' pages pages' nc same
      same' few few' v v' e =
    let (c, h) = verify-IsTrail digest anchors retention now log pages same few v in
    let (c', h') = verify-IsTrail digest anchors' retention' now' log' pages' same' few' v' in
    IsTrail-head_of digest log log' nc c c' (sym h ∙ e ∙ h')

-- What a write leaves, when the record could be hashed.
write_failed :
    (digest : AuditRecord → Option Text) (now : ℕ) (suffix : Text) (rec : AuditRecord) (m : Manager)
    (h : Text)
    → digest (cleared (stamped now suffix m rec)) ≡ some h
    → let m₁ = write digest now suffix false rec m in (m₁.log ≡ m.log) × (m₁.prev_hash ≡ h)
unfolding write
write_failed digest now suffix rec m h e = rw (e, write) (refl, refl)

write_stored :
    (digest : AuditRecord → Option Text) (now : ℕ) (suffix : Text) (rec : AuditRecord) (m : Manager)
    (h : Text)
    → digest (cleared (stamped now suffix m rec)) ≡ some h
    → (r : AuditRecord) × (r.prev_hash ≡ m.prev_hash)
      × ((write digest now suffix true rec m).log ≡ r ∷ m.log)
unfolding write stamped
write_stored digest now suffix rec m h e =
    (record (stamped now suffix m rec) { hash = h }, refl, rw (e, write) refl)

-- A record that could be hashed but not stored breaks the chain: once the next one is stored, `Verify`
-- finds the log not valid, though nothing in it was changed. The log was not empty before, and the lost
-- record has a hash of its own.
pub write-verify :
    (digest : AuditRecord → Option Text) (anchors : List Text) (retention now : ℤ)
    (first second : AuditRecord) (now₁ now₂ : ℕ) (suffix₁ suffix₂ : Text) (m₀ m₁ m₂ : Manager)
    (latest : AuditRecord) (rest : List AuditRecord) (h₁ h₂ : Text) (pages : List FullPage)
    → m₀.log ≡ latest ∷ rest
    → digest (cleared (stamped now₁ suffix₁ m₀ first)) ≡ some h₁
    → h₁ ≢ latest.hash
    → m₁ ≡ write digest now₁ suffix₁ false first m₀
    → digest (cleared (stamped now₂ suffix₂ m₁ second)) ≡ some h₂
    → m₂ ≡ write digest now₂ suffix₂ true second m₁
    → items_of pages ≡ map stored (oldest_first m₂.log)
    → length (items_of pages) < verify_scan_max
    → (verify digest anchors retention now (map as_page pages)).valid ≡ false
unfolding is_linked
write-verify digest anchors retention now first second now₁ now₂ suffix₁ suffix₂ m₀ m₁ m₂ latest
      rest h₁ h₂ pages el e₁ ne em₁ e₂ em₂ same few =
    let (log₁, head₁) = write_failed digest now₁ suffix₁ first m₀ h₁ e₁ in
    let (r, back, log₂) = write_stored digest now₂ suffix₂ second m₁ h₂ e₂ in
    let log : m₂.log ≡ r ∷ latest ∷ rest =
      ap (λ (m : Manager). m.log) em₂
      ∙ log₂
      ∙ ap (λ l. r ∷ l) (ap (λ (m : Manager). m.log) em₁ ∙ log₁ ∙ el) in
    let link : r.prev_hash ≡ h₁ = back ∙ ap (λ (m : Manager). m.prev_hash) em₁ ∙ head₁ in
    elim (Bool-cases (verify digest anchors retention now (map as_page pages)).valid) [
      | inr bad ↦ bad
      | inl good ↦
          let l =
            (verify_iff digest anchors retention now pages (oldest_first m₂.log) same few).0 good in
          let l' : Linked digest anchors retention now none
              (oldest_first (latest ∷ rest) ++ r ∷ []) =
            rw (← ap oldest_first log) l in
          let (front, sealed, last) =
            Linked-snoc_inv digest anchors retention now (oldest_first (latest ∷ rest)) none r l' in
          let eq : is_linked anchors retention now r (some latest) ≡ true =
            subst (λ p. is_linked anchors retention now r p ≡ true) (last_of_log (latest ∷ rest))
              last in
          absurd (ne (sym link ∙ (text_eq_iff r.prev_hash latest.hash).0 eq))
    ]
