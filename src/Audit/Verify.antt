-- ===== src/Audit/Verify.antt =====
-- `Verify` of internal/audit/store.go: the check of a zone's chain, oldest record first.
-- The data store answers in pages. A key whose value does not decode has no record.
use innerstack.Prelude.{
  ℕ, ◌+◌, Bool, true, false, not, ◌||◌, List, [], ◌∷◌, ◌++◌, Option, none, some, Text, bytes,
  if◌then◌else◌, ◌==◌, text_key, leb, contains,
}
use innerstack.Prelude.Int.{ℤ, pos, sub64, add64, ltb_ℤ, leb_ℤ}
use innerstack.Audit.{AuditRecord, cleared}

abbrev pub verify_scan_max : ℕ
verify_scan_max = 1_000_000

abbrev pub ttl_slack_ms : ℤ
ttl_slack_ms = pos 60_000

pub record Item : Type 0 where
  pub key : Text
  pub value : Option AuditRecord

pub data Page : Type 0 where
  scan_failed : Text → Page
  page : List Item → Page

pub record VerifyResult : Type 0 where
  pub valid : Bool
  pub count : ℕ
  pub first_id : Text
  pub last_id : Text
  pub head_hash : Text
  pub broken_at : Text

abbrev pub start_result : VerifyResult
start_result = record {
  valid = true;
  count = 0;
  first_id = [];
  last_id = [];
  head_hash = [];
  broken_at = [];
}

abbrev pub broken : Text → VerifyResult → VerifyResult
broken at res = record res { valid = false; broken_at = at }

-- The result of the loop: either it returns, or it goes on with the last record that was checked.
pub data Progress : Type 0 where
  returned : VerifyResult → Progress
  going : VerifyResult → Option AuditRecord → Progress

-- An oldest record that is not the first of all: an anchor pins the hash before it, or the records
-- before it may have expired.
unfoldable pub tail_explained : List Text → ℤ → ℤ → AuditRecord → Bool
tail_explained anchors retention now rec =
    rec.prev_hash == []
    || contains anchors rec.prev_hash
    || not
        (leb_ℤ retention (pos 0) || ltb_ℤ (add64 (sub64 now retention) ttl_slack_ms) (pos rec.ts))

-- The record is linked to the one before it.
unfoldable pub is_linked : List Text → ℤ → ℤ → AuditRecord → Option AuditRecord → Bool
unfolding tail_explained
is_linked anchors retention now rec none = tail_explained anchors retention now rec
is_linked anchors retention now rec (some prev) = rec.prev_hash == prev.hash

abbrev pub counted : AuditRecord → VerifyResult → VerifyResult
counted rec res = record res {
  count = res.count + 1;
  first_id = if res.first_id == [] then rec.id else res.first_id;
  last_id = rec.id;
}

unfoldable pub has_hash : Option Text → Text → Bool
has_hash none h = false
has_hash (some d) h = d == h

abbrev pub with_head : VerifyResult → Option AuditRecord → VerifyResult
with_head res none = res
with_head res (some prev) = record res { head_hash = prev.hash }

module _ (digest : AuditRecord → Option Text) (anchors : List Text) (retention now : ℤ) where
  -- One round over the items of a page.
  unfoldable pub check_record : AuditRecord → VerifyResult → Option AuditRecord → Progress
  unfolding has_hash is_linked
  check_record rec res prev =
      let res' = counted rec res in
      if not (has_hash (digest (cleared rec)) rec.hash)
      then returned (broken rec.id res')
      else if not (is_linked anchors retention now rec prev)
      then returned (broken rec.id res')
      else going res' (some rec)

  unfoldable pub check_item : Item → VerifyResult → Option AuditRecord → Progress
  unfolding check_record
  check_item item res prev = elim item.value [
    | none ↦ returned (broken item.key res)
    | some rec ↦ check_record rec res prev
  ]

  unfoldable pub check_items : List Item → VerifyResult → Option AuditRecord → Progress
  unfolding check_item
  check_items [] res prev = going res prev
  check_items (item ∷ rest) res prev = elim (check_item item res prev) [
    | returned r ↦ returned r
    | going r p ↦ check_items rest r p
  ]

  -- The loop over the pages, while fewer records than the limit have been counted; an empty page ends
  -- it.
  unfoldable pub check_pages : List Page → VerifyResult → Option AuditRecord → Progress
  unfolding check_items
  check_pages [] res prev = going res prev
  check_pages (scan_failed msg ∷ rest) res prev =
      if leb verify_scan_max res.count
      then going res prev
      else returned (broken (bytes "(scan: " ++ (msg ++ bytes ")")) res)
  check_pages (page [] ∷ rest) res prev = going res prev
  check_pages (page (i ∷ is) ∷ rest) res prev =
      if leb verify_scan_max res.count
      then going res prev
      else elim (check_items (i ∷ is) res prev) [
        | returned r ↦ returned r
        | going r p ↦ check_pages rest r p
      ]

  unfoldable pub finish : Progress → VerifyResult
  finish (returned res) = res
  finish (going res prev) =
      let res' = with_head res prev in
      if leb verify_scan_max res.count then broken (bytes "(scan limit)") res' else res'

  unfoldable pub verify : List Page → VerifyResult
  unfolding finish check_pages
  verify pages = finish (check_pages pages start_result none)
