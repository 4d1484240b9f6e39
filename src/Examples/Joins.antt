-- ===== src/Examples/Joins.antt =====
-- The theorems on lanes and orphans, on a plan whose branch has landed and a worktree that git calls prunable.
use frit.Base.{refl, Bool, true, false, List, [], ◌∷◌, Memᴰ, Text, codes}
use frit.Gitobj.{Ref}
use frit.Gitwt.{Worktree}
use frit.Repocfg.Pattern.{literal, Pattern}
use frit.Lanes.{Evidence, build}
use frit.Lanes.Orphans.{find}
use frit.Lanes.Orphans.Laws.{IsUnreported, find-IsUnreported}

abbrev pattern : Pattern
pattern = record { source = codes "p{id}"; before = literal b'p' ∷ []; after = [] }

abbrev evidence : Evidence
evidence = record {
  merged = λ name. false;
  landed = λ id. false;
  released = λ name. false;
  holds = pattern ∷ [];
}

abbrev worktree : Text → Text → Bool → Worktree
worktree path branch prunable = record {
  path = path;
  head = codes "c1";
  branch = branch;
  detached = false;
  bare = false;
  locked = false;
  lock_reason = [];
  prunable = prunable;
  prune_reason = [];
}

abbrev gone : Worktree
gone = worktree (codes "/b") (codes "p8") true

abbrev worktrees : List Worktree
worktrees = worktree (codes "/a") (codes "p7") false ∷ gone ∷ []

abbrev refs : List Ref
refs = record { name = codes "refs/heads/p8"; oid = codes "c1" } ∷ []

find-IsUnreported_example :
    IsUnreported gone (find (build worktrees refs evidence) worktrees)
    × Memᴰ gone (find (build worktrees refs evidence) worktrees).prunable
find-IsUnreported_example =
    find-IsUnreported (build worktrees refs evidence) worktrees gone (Memᴰ.tail (Memᴰ.head refl))
      refl refl
