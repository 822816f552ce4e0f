-- ===== src/Audit/Chain.antt =====
-- The chain of hashes in a zone's log, and what `Verify` says of it.
use innerstack.Prelude.{
  ◌+◌, ◌<◌, ◌≡◌, refl, sym, ◌∙◌, ap, ◌↔◌, ◌⊎◌, true, false, List, [], ◌∷◌, ◌++◌, map, Option, none,
  some, Text, arith, length, length-append, inl, inr, Bool-cases, text_eq_iff, text_key, leb,
}
use innerstack.Prelude.Int.{ℤ}
use innerstack.Audit.{AuditRecord, cleared}
use innerstack.Audit.Verify.{
  Item, Page, VerifyResult, Progress, page, returned, going, counted, start_result, broken,
  verify_scan_max, is_linked, has_hash, check_record, check_item, check_items, check_pages, finish,
  with_head, verify,
}

-- A record as the data store holds it.
abbrev pub stored : AuditRecord → Item
stored rec = record { key = rec.id; value = some rec }

-- A page that is not empty, and the items of a series of them.
pub record FullPage : Type 0 where
  pub first : Item
  pub others : List Item

abbrev pub as_page : FullPage → Page
as_page p = page (p.first ∷ p.others)

abbrev pub items_of : List FullPage → List Item
items_of [] = []
items_of (p ∷ rest) = (p.first ∷ p.others) ++ items_of rest

Progress-cases :
    (p : Progress)
    → ((r : VerifyResult) × (p ≡ returned r))
      ⊎ ((r : VerifyResult) × (q : Option AuditRecord) × (p ≡ going r q))
Progress-cases (returned r) = inl (r, refl)
Progress-cases (going r q) = inr (r, q, refl)

-- What the rounds over a linked list leave.
abbrev pub counted_all : List AuditRecord → VerifyResult → VerifyResult
counted_all [] res = res
counted_all (rec ∷ rest) res = counted_all rest (counted rec res)

abbrev pub last_of : Option AuditRecord → List AuditRecord → Option AuditRecord
last_of prev [] = prev
last_of prev (rec ∷ rest) = last_of (some rec) rest

-- The hash of the latest record.
abbrev pub head_of : List AuditRecord → Text
head_of [] = []
head_of (rec ∷ rest) = rec.hash

module _ (digest : AuditRecord → Option Text) where
  abbrev pub IsSealed : AuditRecord → Type 0
  IsSealed rec = digest (cleared rec) ≡ some rec.hash

  -- A log, the latest record first: every record is sealed, and names the hash of the one before.
  abbrev pub IsChain : List AuditRecord → Type 0
  IsChain [] = Unit
  IsChain (rec ∷ rest) = IsSealed rec × (rec.prev_hash ≡ head_of rest) × IsChain rest

  has_hash_iff : (o : Option Text) (h : Text) → (has_hash o h ≡ true) ↔ (o ≡ some h)
  unfolding has_hash
  has_hash_iff none h = (λ p. cc, λ p. cc)
  has_hash_iff (some d) h = (λ p. ap some ((text_eq_iff d h).0 p), λ p. (text_eq_iff d h).1 cc)

  module _ (anchors : List Text) (retention now : ℤ) where
    -- The records of a zone, the oldest first, after the record `prev`: each is sealed and linked.
    abbrev pub Linked : Option AuditRecord → List AuditRecord → Type 0
    Linked prev [] = Unit
    Linked prev (rec ∷ rest) =
        IsSealed rec × (is_linked anchors retention now rec prev ≡ true) × Linked (some rec) rest

    -- A run ends early, with the chain not valid.
    abbrev Fails : Progress → Type 0
    Fails p = (r : VerifyResult) × (p ≡ returned r) × (r.valid ≡ false)

    check_record_cases :
        (rec : AuditRecord) (res : VerifyResult) (prev : Option AuditRecord)
        → (IsSealed rec
            × (is_linked anchors retention now rec prev ≡ true)
            × (check_record digest anchors retention now rec res prev
                ≡ going (counted rec res) (some rec)))
          ⊎ ((¬ (IsSealed rec × (is_linked anchors retention now rec prev ≡ true)))
              × Fails (check_record digest anchors retention now rec res prev))
    unfolding check_record
    check_record_cases rec res prev = elim (Bool-cases (has_hash (digest (cleared rec)) rec.hash)) [
      | inr f ↦ inr (
        (λ p. let q = (has_hash_iff (digest (cleared rec)) rec.hash).1 p.0 in cc),
        (broken rec.id (counted rec res), rw f refl, refl),
      )
      | inl t ↦ elim (Bool-cases (is_linked anchors retention now rec prev)) [
        | inl l ↦ inl ((has_hash_iff (digest (cleared rec)) rec.hash).0 t, l, rw (t, l) refl)
        | inr l ↦
            inr ((λ p. let q = p.1 in cc), (broken rec.id (counted rec res), rw (t, l) refl, refl))
      ]
    ]

    check_items_cases :
        (rs : List AuditRecord) (res : VerifyResult) (prev : Option AuditRecord)
        → (Linked prev rs
            × (check_items digest anchors retention now (map stored rs) res prev
                ≡ going (counted_all rs res) (last_of prev rs)))
          ⊎ ((¬ Linked prev rs)
              × Fails (check_items digest anchors retention now (map stored rs) res prev))
    unfolding check_items check_item
    check_items_cases [] res prev = inl (tt, refl)
    check_items_cases (rec ∷ rest) res prev = elim (check_record_cases rec res prev) [
      | inr (no_link, (r, e, f)) ↦
          inr ((λ all. let (a, b, c) = all in no_link (a, b)), (r, rw (e, check_items) refl, f))
      | inl (s, l, e) ↦ elim (check_items_cases rest (counted rec res) (some rec)) [
        | inl (ls, q) ↦ inl ((s, l, ls), rw (e, check_items) q)
        | inr (no_rest, (r, q, f)) ↦
            inr ((λ all. let (a, b, c) = all in no_rest c), (r, rw (e, check_items) q, f))
      ]
    ]

    check_item_counted :
        (x : Item) (res : VerifyResult) (prev : Option AuditRecord) (r : VerifyResult)
        (p : Option AuditRecord)
        → check_item digest anchors retention now x res prev ≡ going r p
        → r.count ≡ res.count + 1
    unfolding check_item check_record
    check_item_counted x res prev r p e = ground (arith, e)

    check_items_none :
        (res : VerifyResult) (prev : Option AuditRecord)
        → check_items digest anchors retention now [] res prev ≡ going res prev
    unfolding check_items
    check_items_none res prev = refl

    -- The rounds over two stretches of items, one after the other.
    check_items-append :
        (xs ys : List Item) (res : VerifyResult) (prev : Option AuditRecord)
        → check_items digest anchors retention now (xs ++ ys) res prev
          ≡ elim (check_items digest anchors retention now xs res prev) [
            | returned r ↦ returned r
            | going r p ↦ check_items digest anchors retention now ys r p
          ]
    unfolding check_items
    check_items-append [] ys res prev = refl
    check_items-append (x ∷ xs) ys res prev =
        elim (Progress-cases (check_item digest anchors retention now x res prev)) [
          | inl (r, e) ↦ rw (e, check_items) refl
          | inr (r, p, e) ↦ rw (e, check_items) (check_items-append xs ys r p)
        ]

    check_items_counted :
        (xs : List Item) (res : VerifyResult) (prev : Option AuditRecord) (r : VerifyResult)
        (p : Option AuditRecord)
        → check_items digest anchors retention now xs res prev ≡ going r p
        → r.count ≡ res.count + length xs
    unfolding check_items check_item check_record
    check_items_counted [] res prev r p e = ground (arith, e)
    check_items_counted (x ∷ xs) res prev r p e =
        elim (Progress-cases (check_item digest anchors retention now x res prev)) [
          | inl (r', q) ↦ let same : returned r' ≡ going r p = ground (arith, q, e) in cc
          | inr (r', p', q) ↦
              let rest = check_items_counted xs r' p' r p (ground (arith, q, e)) in
              let one = check_item_counted x res prev r' p' q in omega arith
        ]

    check_pages-items :
        (pages : List FullPage) (res : VerifyResult) (prev : Option AuditRecord)
        → res.count + length (items_of pages) < verify_scan_max
        → check_pages digest anchors retention now (map as_page pages) res prev
          ≡ check_items digest anchors retention now (items_of pages) res prev
    unfolding check_pages
    check_pages-items [] res prev h = sym (check_items_none res prev)
    check_pages-items (p ∷ rest) res prev h =
        let items = p.first ∷ p.others in
        let low : leb verify_scan_max res.count ≡ false = ground (arith, h) in
        let both = check_items-append items (items_of rest) res prev in
        elim (Progress-cases (check_items digest anchors retention now items res prev)) [
          | inl (r, e) ↦ rw (both, low, e) refl
          | inr (r, q, e) ↦
              let len = length-append items (items_of rest) in
              let n = check_items_counted items res prev r q e in
              rw (both, low, e) (check_pages-items rest r q (omega arith))
        ]

    counted_all-valid :
        (rs : List AuditRecord) (res : VerifyResult) → (counted_all rs res).valid ≡ res.valid
    counted_all-valid [] res = refl
    counted_all-valid (rec ∷ rest) res = counted_all-valid rest (counted rec res)

    with_head-valid :
        (res : VerifyResult) (prev : Option AuditRecord) → (with_head res prev).valid ≡ res.valid
    with_head-valid res none = refl
    with_head-valid res (some prev) = refl

    finish_going :
        (res : VerifyResult) (prev : Option AuditRecord)
        → res.count < verify_scan_max
        → finish digest anchors retention now (going res prev) ≡ with_head res prev
    unfolding finish
    finish_going res prev h =
        let low : leb verify_scan_max res.count ≡ false = ground (arith, h) in rw low refl

    module _ (pages : List FullPage) (rs : List AuditRecord) (same : items_of pages ≡ map stored rs)
        (few : length (items_of pages) < verify_scan_max) where
      verify-check_items :
          verify digest anchors retention now (map as_page pages)
          ≡ finish digest anchors retention now
              (check_items digest anchors retention now (map stored rs) start_result none)
      unfolding verify
      verify-check_items =
          rw (check_pages-items pages start_result none (omega (arith, few)), same) refl

      -- The result for a linked log: every record counted, and the hash of the latest as the head.
      pub verify-Linked :
          Linked none rs
          → verify digest anchors retention now (map as_page pages)
            ≡ with_head (counted_all rs start_result) (last_of none rs)
      verify-Linked l = elim (check_items_cases rs start_result none) [
        | inl (m, e) ↦
            let n = check_items_counted (map stored rs) start_result none _ _ e in
            verify-check_items
            ∙ rw e (finish_going _ (last_of none rs) (rw (n, ← same) (omega (arith, few))))
        | inr (no_link, f) ↦ absurd (no_link l)
      ]

      -- `Verify` of the whole log, whatever the pages it comes in, when every value decodes and the
      -- records are fewer than the limit: it finds the chain valid exactly if each record is sealed by
      -- its hash and linked to the one before, the oldest of them explained.
      pub verify_iff :
          ((verify digest anchors retention now (map as_page pages)).valid ≡ true) ↔ Linked none rs
      unfolding finish
      verify_iff = elim (check_items_cases rs start_result none) [
        | inl (m, e) ↦ (
          λ h. m,
          λ l.
              rw (verify-Linked l)
                (with_head-valid _ (last_of none rs) ∙ counted_all-valid rs start_result),
        )
        | inr (no_link, (r, e, f)) ↦ (
          λ h.
              let q : (verify digest anchors retention now (map as_page pages)).valid ≡ false =
                rw (verify-check_items, e) f in
              cc,
          λ l. absurd (no_link l),
        )
      ]
