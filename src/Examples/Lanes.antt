-- ===== src/Examples/Lanes.antt =====
-- What is dispatched and what is reaped, on a small ledger and two worktrees.
use frit.Base.{refl, Bool, false, List, [], ◌∷◌, Memᴰ, Text, codes, text_eq}
use frit.Planmeta.{Status, Phase}
use frit.Gitwt.{Worktree}
use frit.Reap.{Decision, decide}
use frit.Reap.Laws.{Clears, decide-Clears}

abbrev phase : Text → Status → Phase
phase n status = record {
  n = n;
  title = [];
  status = status;
  tier = [];
  design = [];
  implement = [];
  gate = [];
  has_execution_row = false;
  body = [];
}

abbrev ledger : List Phase
ledger =
    phase (codes "1") Status.done
    ∷ phase (codes "2") Status.superseded
    ∷ phase (codes "3") Status.in_progress
    ∷ []

abbrev worktree : Text → Text → Worktree
worktree path branch = record {
  path = path;
  head = codes "c1";
  branch = branch;
  detached = false;
  bare = false;
  locked = false;
  lock_reason = [];
  prunable = false;
  prune_reason = [];
}

abbrev worktrees : List Worktree
worktrees = worktree (codes "/a") (codes "plan/7") ∷ worktree (codes "/b") (codes "plan/8") ∷ []

abbrev landed : Text → Bool
landed branch = text_eq branch (codes "plan/7")

abbrev kept : Decision
kept = record {
  plan_id = 7;
  worktree = worktree (codes "/b") (codes "plan/8");
  branch = codes "plan/8";
  refused = codes "frit does not read this branch as landed";
}

kept_listed : Memᴰ kept (decide 7 worktrees landed)
unfolding decide text_eq
kept_listed = Memᴰ.tail (Memᴰ.head refl)

decide-Clears_example : Clears 7 landed kept
decide-Clears_example = decide-Clears 7 worktrees landed kept kept_listed
