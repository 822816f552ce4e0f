-- ===== src/Audit/Examples.antt =====
-- Logs of a few records. The digest of an example is made of the records' id and of the hash before.
use innerstack.Prelude.{
  ℕ, ◌≡◌, ◌⊎◌, refl, sym, ◌∙◌, ap, ◌≢◌, ◌↔◌, true, false, List, [], ◌∷◌, ◌++◌, map, Option, none,
  some, Text, bytes, arith, text_eq, text_eq_iff, inl, inr, IsIn,
}
use innerstack.Prelude.Int.{ℤ, pos}
use innerstack.Audit.{AuditRecord, Manager, cleared, emit, run_once, write, stamped, audit_id_of_ts}
use innerstack.Audit.Verify.{verify, is_linked, tail_explained}
use innerstack.Audit.Chain.{FullPage, as_page, stored, Linked, verify_iff}
use innerstack.Audit.Log.{oldest_first, NoCollision}
use innerstack.Audit.Steps.{start, Step, Reach, Sound, Reach-Sound}
use innerstack.Audit.Verified.{
  Reach-verify, write-verify, verify-head_hash, verify-IsTrail, verify-Agree,
}
use innerstack.Audit.Ids.{text_ltb, audit_id_of_ts_lem}

abbrev digest : AuditRecord → Option Text
digest rec = some (98 ∷ rec.id ++ rec.prev_hash)

abbrev login : AuditRecord
login = record {
  zone = bytes "z1";
  id = [];
  ts = 0;
  actor_id = bytes "u1";
  actor_user = bytes "root";
  actor_type = bytes "user";
  action = bytes "login";
  source_ip = bytes "10.0.0.1";
  target_type = [];
  target_id = [];
  status = bytes "ok";
  error = [];
  detail = [];
  prev_hash = [];
  hash = [];
  dropped_before = 0;
  suppressed_count = 0;
}

digest-nonempty : (r : AuditRecord) → digest r ≢ some []
digest-nonempty r e = cc

digest-some : (r : AuditRecord) → digest r ≢ none
digest-some r e = cc

-- One record emitted and written at the time 5.
abbrev queued : Manager
queued = emit login start

abbrev one : Manager
one = run_once digest 5 (bytes "ab12") true queued

one-Reach : Reach digest one
one-Reach =
    Reach.next (Reach.next Reach.here (Step.emits login refl)) (Step.turns 5 (bytes "ab12") refl)

Reach-Sound_example : Sound digest one
Reach-Sound_example = Reach-Sound digest one digest-some one-Reach

-- A record as the writer leaves it.
abbrev entry : Text → ℕ → Text → AuditRecord
entry id ts back = record login { id = id; ts = ts; prev_hash = back; hash = 98 ∷ id ++ back }

abbrev entry1 : AuditRecord
entry1 = entry (bytes "000000000005ab12") 5 []

one_log : one.log ≡ entry1 ∷ []
unfolding emit run_once stamped audit_id_of_ts
one_log = refl

abbrev pages_of : AuditRecord → List AuditRecord → List FullPage
pages_of rec rest = record { first = stored rec; others = map stored rest } ∷ []

entry1_valid :
    (now : ℤ)
    → let res = verify digest [] (pos 0) now (map as_page (pages_of entry1 [])) in
      (res.valid ≡ true) × (res.head_hash ≡ one.prev_hash) × (res.count ≡ one.written_total)
entry1_valid now =
    Reach-verify digest [] (pos 0) now one (pages_of entry1 [])
      (ap (λ log. map stored (oldest_first log)) (sym one_log)) (omega arith) digest-some one-Reach

Reach-verify_example :
    let res = verify digest [] (pos 0) (pos 9) (map as_page (pages_of entry1 [])) in
    (res.valid ≡ true) × (res.head_hash ≡ one.prev_hash) × (res.count ≡ one.written_total)
Reach-verify_example =
    Reach-verify digest [] (pos 0) (pos 9) one (pages_of entry1 [])
      (ap (λ log. map stored (oldest_first log)) (sym one_log)) (omega arith) digest-some one-Reach

verify_iff_example :
    ((verify digest [] (pos 0) (pos 9) (map as_page (pages_of entry1 []))).valid ≡ true)
    ↔ Linked digest [] (pos 0) (pos 9) none (entry1 ∷ [])
verify_iff_example =
    verify_iff digest [] (pos 0) (pos 9) (pages_of entry1 []) (entry1 ∷ []) refl (omega arith)

only : {a b : AuditRecord} → IsIn a (b ∷ []) → a ≡ b
only (inl e) = e
only (inr m) = elim m [ ]

verify-head_hash_example : (entry1 ∷ []) ≡ (entry1 ∷ [])
verify-head_hash_example =
    verify-head_hash digest (pos 9) (pos 10) (entry1 ∷ []) (entry1 ∷ []) (pages_of entry1 [])
      (pages_of entry1 []) digest-nonempty (λ a b m n e. ap cleared (only m ∙ sym (only n))) refl
      refl (omega arith) (omega arith) (entry1_valid (pos 9)).0 (entry1_valid (pos 10)).0
      ((entry1_valid (pos 9)).1 ∙ sym (entry1_valid (pos 10)).1)

-- A second record after the first, and the log that has lost the first one, whose hash an anchor keeps.
abbrev follow : AuditRecord
follow = entry (bytes "000000000006cd34") 6 entry1.hash

kept_valid :
    (verify digest [] (pos 0) (pos 9) (map as_page (pages_of entry1 (follow ∷ [])))).valid ≡ true
unfolding is_linked tail_explained text_eq
kept_valid =
    (verify_iff digest [] (pos 0) (pos 9) (pages_of entry1 (follow ∷ [])) (entry1 ∷ follow ∷ [])
        refl (omega arith)).1
      (refl, refl, (refl, refl, tt))

cut_valid :
    (verify digest (entry1.hash ∷ []) (pos 7) (pos 9) (map as_page (pages_of follow []))).valid
    ≡ true
unfolding is_linked tail_explained text_eq
cut_valid =
    (verify_iff digest (entry1.hash ∷ []) (pos 7) (pos 9) (pages_of follow []) (follow ∷ []) refl
        (omega arith)).1
      (refl, refl, tt)

follow-NoCollision : NoCollision digest (follow ∷ []) (follow ∷ entry1 ∷ [])
unfolding text_eq
follow-NoCollision a b m (inl e) d = ap cleared (only m ∙ sym e)
follow-NoCollision a b m (inr n) d =
    let hash_of = λ (r : AuditRecord). 98 ∷ r.id ++ r.prev_hash in
    let differ : text_eq (hash_of follow) (hash_of entry1) ≡ false = refl in
    let same : hash_of a ≡ hash_of b = cc in
    let d' = sym (ap hash_of (only m)) ∙ same ∙ ap hash_of (only n) in
    let t = (text_eq_iff (hash_of follow) (hash_of entry1)).1 d' in cc

verify-Agree_example :
    (older : List AuditRecord) × (((follow ∷ entry1 ∷ []) ≡ (follow ∷ []) ++ older)
      ⊎ ((follow ∷ []) ≡ (follow ∷ entry1 ∷ []) ++ older))
verify-Agree_example =
    verify-Agree digest (entry1.hash ∷ []) [] (pos 7) (pos 0) (pos 9) (pos 9) (follow ∷ [])
      (follow ∷ entry1 ∷ []) (pages_of follow []) (pages_of entry1 (follow ∷ [])) follow-NoCollision
      refl refl (omega arith) (omega arith) cut_valid kept_valid
      ((verify-IsTrail digest (entry1.hash ∷ []) (pos 7) (pos 9) (follow ∷ []) (pages_of follow [])
          refl (omega arith) cut_valid).1
        ∙ sym
            (verify-IsTrail digest [] (pos 0) (pos 9) (follow ∷ entry1 ∷ [])
              (pages_of entry1 (follow ∷ [])) refl (omega arith) kept_valid).1)

abbrev lost : Manager
lost = write digest 6 (bytes "cd34") false login one

abbrev resumed : Manager
resumed = write digest 7 (bytes "ef56") true login lost

abbrev lost_hash : Text
lost_hash = 98 ∷ bytes "000000000006cd34" ++ entry1.hash

abbrev entry2 : AuditRecord
entry2 = entry (bytes "000000000007ef56") 7 lost_hash

other_hash : lost_hash ≢ entry1.hash
unfolding text_eq
other_hash e =
    let differ : text_eq lost_hash entry1.hash ≡ false = refl in
    let t = (text_eq_iff lost_hash entry1.hash).1 e in cc

lost_lem : digest (cleared (stamped 6 (bytes "cd34") one login)) ≡ some lost_hash
unfolding emit run_once stamped audit_id_of_ts
lost_lem = refl

resumed_lem : digest (cleared (stamped 7 (bytes "ef56") lost login)) ≡ some entry2.hash
unfolding emit run_once stamped audit_id_of_ts
resumed_lem = refl

resumed_log : resumed.log ≡ entry2 ∷ entry1 ∷ []
unfolding emit run_once stamped audit_id_of_ts
resumed_log = refl

write-verify_example :
    (verify digest [] (pos 0) (pos 9) (map as_page (pages_of entry1 (entry2 ∷ [])))).valid ≡ false
write-verify_example =
    write-verify digest [] (pos 0) (pos 9) login login 6 7 (bytes "cd34") (bytes "ef56") one lost
      resumed entry1 [] lost_hash entry2.hash (pages_of entry1 (entry2 ∷ [])) one_log lost_lem
      other_hash refl resumed_lem refl (ap (λ log. map stored (oldest_first log)) (sym resumed_log))
      (omega arith)

audit_id_of_ts_lem_example :
    text_ltb (audit_id_of_ts 255 ++ bytes "ffff") (audit_id_of_ts 256 ++ bytes "0000") ≡ true
audit_id_of_ts_lem_example =
    audit_id_of_ts_lem 255 256 (bytes "ffff") (bytes "0000") (omega arith) (omega arith)
