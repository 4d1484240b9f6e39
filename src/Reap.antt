-- ===== src/Reap.antt =====
-- internal/reap/reap.go: which worktrees of a stranded lane are cleared to be torn down.
pub mod Laws
use frit.Base.{ℕ, Bool, true, false, not, List, [], ◌∷◌, Text, codes, if◌then◌else◌}
use frit.Gitwt.{Worktree}

-- `refused` is empty where the worktree is cleared.
pub record Decision : Type 0 where
  pub plan_id : ℕ
  pub worktree : Worktree
  pub branch : Text
  pub refused : Text

abbrev decision : ℕ → (Text → Bool) → Worktree → Decision
decision id landed w = record {
  plan_id = id;
  worktree = w;
  branch = w.branch;
  refused = if not (landed w.branch) then codes "frit does not read this branch as landed" else [];
}

unfoldable pub decide : ℕ → List Worktree → (Text → Bool) → List Decision
decide id [] landed = []
decide id (w ∷ ws) landed = decision id landed w ∷ decide id ws landed
