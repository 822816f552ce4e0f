-- ===== src/Stages/Legacy.antt =====
-- The normalisation of the deprecated resource limits.
use innerstack.Prelude.{◌≡◌, refl, [], ◌∷◌, Text, text_eq, text_key}
use innerstack.Stages.{Limits, Resources, norm_legacy_pair, normalize_legacy}

abbrev limits : Text → Text → Text → Limits
limits low high legacy = record { low = low; high = high; legacy = legacy }

pair_again :
    (low high legacy : Text)
    → norm_legacy_pair (norm_legacy_pair (limits low high legacy))
      ≡ norm_legacy_pair (limits low high legacy)
unfolding norm_legacy_pair text_eq
pair_again [] [] [] = refl
pair_again [] [] (c ∷ l) = refl
pair_again [] (c ∷ h) l = refl
pair_again (c ∷ w) [] l = refl
pair_again (c ∷ w) (d ∷ h) l = refl

norm_legacy_pair_again : (x : Limits) → norm_legacy_pair (norm_legacy_pair x) ≡ norm_legacy_pair x
norm_legacy_pair_again x = pair_again x.low x.high x.legacy

-- Normalising resources a second time changes nothing.
pub normalize_legacy_again :
    (x : Resources) → normalize_legacy (normalize_legacy x) ≡ normalize_legacy x
unfolding normalize_legacy
normalize_legacy_again x =
    rw
      (
        norm_legacy_pair_again x.cpu,
        norm_legacy_pair_again x.memory,
        norm_legacy_pair_again x.volume,
      )
      refl
