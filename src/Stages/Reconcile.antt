-- ===== src/Stages/Reconcile.antt =====
-- What a reconciled deployment looks like.
use innerstack.Prelude.{ℕ, ◌≡◌, refl, false, [], some, text_key, contains}
use innerstack.Prelude.Int.{ℤ}
use innerstack.Stages.{
  Stage, Stages, stage, no_stages, stage_then, info, children, name_replica, Deploy, set_running,
  set_revision_deep, set_revisions, prune_children, prune_replicas, on_children, is_local,
  relayed_names, reconcile, state_running,
}

-- Every stage of a tree is at a revision.
mutual
  pub AtRevision : ℕ → Stage → Type 0
  AtRevision rev (stage i below) = (i.revision ≡ rev) × AllAtRevision rev below

  pub AllAtRevision : ℕ → Stages → Type 0
  AllAtRevision rev no_stages = Unit {0}
  AllAtRevision rev (stage_then s rest) = AtRevision rev s × AllAtRevision rev rest

mutual
  unfolding set_revision_deep AtRevision

  set_revision_deep-AtRevision : (rev : ℕ) (s : Stage) → AtRevision rev (set_revision_deep rev s)
  set_revision_deep-AtRevision rev (stage i below) = (refl, set_revisions-AllAtRevision rev below)

  set_revisions-AllAtRevision : (rev : ℕ) (ss : Stages) → AllAtRevision rev (set_revisions rev ss)
  set_revisions-AllAtRevision rev no_stages = tt
  set_revisions-AllAtRevision rev (stage_then s rest) =
      (set_revision_deep-AtRevision rev s, set_revisions-AllAtRevision rev rest)

-- No stage of a list is one that the host reports.
pub AllLocal : Stages → Type 0
AllLocal no_stages = Unit {0}
AllLocal (stage_then s rest) = (contains relayed_names (info s).name ≡ false) × AllLocal rest

-- No replica node has a child that the host reports.
pub NoRelayed : Stages → Type 0
NoRelayed no_stages = Unit {0}
NoRelayed (stage_then s rest) =
    ((info s).name ≡ name_replica → AllLocal (children s)) × NoRelayed rest

info-prune_children : (s : Stage) → info (prune_children is_local s) ≡ info s
info-prune_children (stage i below) = refl

-- A deployment whose stage tree has been moved to its revision `rev`: the whole tree is at that
-- revision, the root runs, no replica node has a child that the host reports, and a further pass
-- changes nothing.
pub record IsReconciled (rev : ℕ) (d : Deploy) : Type 0 where
  pub same_revision : d.revision ≡ rev
  pub root : Stage
  pub at_root : d.stages ≡ some root
  pub current : AtRevision rev root
  pub runs : (info root).state ≡ state_running
  pub no_relayed : NoRelayed (children root)
  pub again : (later : ℤ) → reconcile later d ≡ (false, d)

-- What the pass makes of a root that is behind.
reconciled_root : ℤ → ℕ → Stage → Stage
unfolding set_running on_children set_revision_deep
reconciled_root now rev root =
    set_revision_deep rev (on_children prune_replicas (set_running now [] root))

abbrev at_root_only : ℕ → Stage → Deploy
at_root_only rev root = record { revision = rev; stages = some root }
