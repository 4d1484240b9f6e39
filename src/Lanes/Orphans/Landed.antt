-- ===== src/Lanes/Orphans/Landed.antt =====
-- `Find` behind `Build`: the plans whose checkout outlived their claim.
use frit.Base.{ℕ, ◌≡◌, false, some, List, Memᴰ}
use frit.Gitobj.{Ref}
use frit.Gitwt.{Worktree}
use frit.Lanes.{Lane, Evidence, plan_of}
use frit.Lanes.Gather.{lane_of}

-- A checkout of the plan that stands on disk.
abbrev pub IsStandingOn : Evidence → ℕ → List Worktree → Worktree → Type 0
IsStandingOn ev i worktrees w = Memᴰ w worktrees × (plan_of ev w ≡ some i) × (w.prunable ≡ false)

module _ (worktrees : List Worktree) (refs : List Ref) (ev : Evidence) (i : ℕ) where
  lane : Lane
  lane = lane_of ev i worktrees refs
