-- ===== src/Lanes/Orphans.antt =====
-- internal/lanes/lanes.go: the lanes and the checkouts that no longer add up, and the aged ones.
pub mod Lists
pub mod Laws
pub mod Landed
use frit.Base.{
  ℕ, ◌*◌, Bool, true, false, ◌&&◌, ◌||◌, not, Option, none, some, List, [], ◌∷◌, ◌++◌, Text, codes,
  text_eq, is_empty, keep, filter_map, sort, if◌then◌else◌,
}
use frit.Base.Int.{ℤ, sub_ℕ, ltb_ℤ}
use frit.Gitwt.{Worktree, has_commit}
use frit.Lanes.{Hold, Lane, has_any, unstaffed, stranded, standing, id_only_hold}

pub record Migratable : Type 0 where
  pub plan_id : ℕ
  pub from_branch : Text
  pub to_branch : Text

pub record ForeignCheckout : Type 0 where
  pub plan_id : ℕ
  pub worktree : Worktree

pub record Orphans : Type 0 where
  pub unstaffed : List Lane
  pub stranded : List Lane
  pub empty : List Worktree
  pub prunable : List Worktree
  pub migratable : List Migratable
  pub foreign : List ForeignCheckout

abbrev pub any_orphan : Orphans → Bool
any_orphan o =
    has_any o.unstaffed
    || (has_any o.stranded
        || (has_any o.empty || (has_any o.prunable || (has_any o.migratable || has_any o.foreign))))

abbrev migration : ℕ → Text → Hold → Option Migratable
migration id target h =
    if not (text_eq h.branch target)
    then some (record { plan_id = id; from_branch = h.branch; to_branch = target })
    else none

unfoldable pub migratable : Lane → List Migratable
migratable l = filter_map (migration l.plan_id (id_only_hold l.plan_id)) l.holds

-- The map from a branch to the path that its hold's marker recorded; a later hold replaces an earlier
-- one of the same branch.
abbrev pub Paths : Type 0
Paths = Text → Option Text

abbrev with_recorded : Paths → Hold → Paths
with_recorded m h b = if text_eq b h.branch then some h.lane else m b

unfoldable pub paths_from : Paths → List Hold → Paths
paths_from m [] = m
paths_from m (h ∷ hs) = paths_from (if not (is_empty h.lane) then with_recorded m h else m) hs

abbrev foreign_at : Worktree → Option Text → Bool
foreign_at w none = false
foreign_at w (some path) = not (w.prunable || text_eq path w.path)

unfoldable pub is_foreign : Lane → Worktree → Bool
is_foreign l w = foreign_at w (paths_from (λ b. none) l.holds w.branch)

abbrev pub foreign_one : Lane → Worktree → Option ForeignCheckout
foreign_one l w =
    if is_foreign l w then some (record { plan_id = l.plan_id; worktree = w }) else none

unfoldable pub foreign_checkouts : Lane → List ForeignCheckout
foreign_checkouts l = filter_map (foreign_one l) l.worktrees

abbrev add_stranded : Lane → Orphans → Orphans
add_stranded l o =
    if has_any (standing l).worktrees
    then record o { stranded = o.stranded ++ standing l ∷ [] }
    else o

-- The body of the loop over the lanes.
abbrev pub add_lane : Lane → Orphans → Orphans
add_lane l o =
    let o₁ =
      if unstaffed l
      then record o { unstaffed = o.unstaffed ++ l ∷ []; migratable = o.migratable ++ migratable l }
      else o in
    let o₂ = if stranded l then add_stranded l o₁ else o₁ in
    record o₂ { foreign = o₂.foreign ++ foreign_checkouts l }

unfoldable pub find_lanes : List Lane → Orphans → Orphans
find_lanes [] o = o
find_lanes (l ∷ ls) o = find_lanes ls (add_lane l o)

-- The body of the loop over the worktrees.
abbrev pub add_worktree : Worktree → Orphans → Orphans
add_worktree w o =
    if w.bare
    then o
    else if w.prunable
    then record o { prunable = o.prunable ++ w ∷ [] }
    else if not (has_commit w)
    then record o { empty = o.empty ++ w ∷ [] }
    else o

unfoldable pub find_worktrees : List Worktree → Orphans → Orphans
find_worktrees [] o = o
find_worktrees (w ∷ ws) o = find_worktrees ws (add_worktree w o)

abbrev pub no_orphans : Orphans
no_orphans = record {
  unstaffed = [];
  stranded = [];
  empty = [];
  prunable = [];
  migratable = [];
  foreign = [];
}

unfoldable pub find : List Lane → List Worktree → Orphans
find built worktrees = find_worktrees worktrees (find_lanes built no_orphans)

pub record Aged : Type 0 where
  pub worktree : Worktree
  pub age : ℤ

abbrev aged_at : Worktree → ℕ → ℤ → Option ℕ → Option Aged
aged_at w now older_than none = none
aged_at w now older_than (some stamp) =
    let age = sub_ℕ now (stamp * 1000000000) in
    if ltb_ℤ older_than age then some (record { worktree = w; age = age }) else none

unfoldable pub aged : (Text → Option ℕ) → ℕ → ℤ → Worktree → Option Aged
aged times now older_than w =
    if w.bare || (is_empty w.branch || not (has_commit w))
    then none
    else aged_at w now older_than (times (codes "refs/heads/" ++ w.branch))

abbrev pub older : Aged → Aged → Bool
older a b = ltb_ℤ b.age a.age

unfoldable pub stale : List Worktree → (Text → Option ℕ) → ℕ → ℤ → List Aged
stale worktrees times now older_than = sort older (filter_map (aged times now older_than) worktrees)
