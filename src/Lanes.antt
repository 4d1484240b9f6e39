-- ===== src/Lanes.antt =====
-- internal/lanes/lanes.go: claims joined to checkouts. This file has the lanes and how they are built;
-- Orphans has the reports over them.
use frit.Base.{
  ℕ, Bool, true, false, ◌&&◌, not, Option, none, some, List, [], ◌∷◌, ◌++◌, map, Text, codes,
  text_ltb, is_empty, ltb, keep, filter_map, sort, if◌then◌else◌, ◌==◌,
}
use frit.Base.Strings.Decimal.{decimal}
use frit.Gitwt.{Worktree}
use frit.Gitobj.{Ref, NameSet, branch_of}
use frit.Repocfg.Pattern.{Pattern, match_holds}
pub mod Orphans
pub mod Gather
pub mod Laws

abbrev pub id_only_hold : ℕ → Text
id_only_hold plan_id = codes "plan/" ++ decimal plan_id

pub record Hold : Type 0 where
  pub ref : Text
  pub branch : Text
  pub plan_id : ℕ
  pub lane : Text

pub record Lane : Type 0 where
  pub plan_id : ℕ
  pub holds : List Hold
  pub worktrees : List Worktree

abbrev pub has_any : {A : Type 0} → List A → Bool
has_any [] = false
has_any (x ∷ xs) = true

abbrev pub unstaffed : Lane → Bool
unstaffed l = has_any l.holds && not (has_any l.worktrees)

abbrev pub stranded : Lane → Bool
stranded l = not (has_any l.holds) && has_any l.worktrees

abbrev pub standing : Lane → Lane
standing l = record l { worktrees = keep (λ w. not w.prunable) l.worktrees }

-- What `Build` is given beside the refs and the worktrees: the refs that are merged and those that are
-- released, the plans that have landed, and the patterns.
pub record Evidence : Type 0 where
  pub merged : NameSet
  pub landed : ℕ → Bool
  pub released : NameSet
  pub holds : List Pattern

abbrev hold_at : Evidence → Ref → Text → Option ℕ → Option Hold
hold_at ev ref branch none = none
hold_at ev ref branch (some id) =
    if ev.landed id
    then none
    else if ev.released ref.name
    then none
    else some (record { ref = ref.name; branch = branch; plan_id = id; lane = [] })

abbrev hold_on : Evidence → Ref → Option Text → Option Hold
hold_on ev ref none = none
hold_on ev ref (some branch) = hold_at ev ref branch (match_holds ev.holds branch)

-- The body of the loop over the refs, up to the hold that it appends.
unfoldable pub hold_of : Evidence → Ref → Option Hold
hold_of ev ref = if ev.merged ref.name then none else hold_on ev ref (branch_of ref)

-- The plan whose lane a worktree is appended to.
unfoldable pub plan_of : Evidence → Worktree → Option ℕ
plan_of ev w = if is_empty w.branch then none else match_holds ev.holds w.branch

abbrev pub empty_lane : ℕ → Lane
empty_lane id = record { plan_id = id; holds = []; worktrees = [] }

-- `laneFor`, and the change that is made to the lane it returns. The map is kept in the order in which
-- its keys came.
unfoldable pub update_lane : ℕ → (Lane → Lane) → List Lane → List Lane
update_lane id f [] = f (empty_lane id) ∷ []
update_lane id f (l ∷ ls) =
    let rest = update_lane id f ls in if l.plan_id == id then f l ∷ ls else l ∷ rest

abbrev pub with_hold : Hold → Lane → Lane
with_hold h l = record l { holds = l.holds ++ h ∷ [] }

abbrev pub with_worktree : Worktree → Lane → Lane
with_worktree w l = record l { worktrees = l.worktrees ++ w ∷ [] }

unfoldable pub add_refs : Evidence → List Lane → List Ref → List Lane
add_refs ev lanes [] = lanes
add_refs ev lanes (r ∷ rs) = elim (hold_of ev r) [
  | none ↦ add_refs ev lanes rs
  | some h ↦ add_refs ev (update_lane h.plan_id (with_hold h) lanes) rs
]

unfoldable pub add_worktrees : Evidence → List Lane → List Worktree → List Lane
add_worktrees ev lanes [] = lanes
add_worktrees ev lanes (w ∷ ws) = elim (plan_of ev w) [
  | none ↦ add_worktrees ev lanes ws
  | some id ↦ add_worktrees ev (update_lane id (with_worktree w) lanes) ws
]

abbrev pub ref_before : Hold → Hold → Bool
ref_before a b = text_ltb a.ref b.ref

abbrev pub path_before : Worktree → Worktree → Bool
path_before a b = text_ltb a.path b.path

abbrev pub plan_before : Lane → Lane → Bool
plan_before a b = ltb a.plan_id b.plan_id

abbrev pub sorted_lane : Lane → Lane
sorted_lane l = record l {
  holds = sort ref_before l.holds;
  worktrees = sort path_before l.worktrees;
}

unfoldable pub collect : List Lane → List Lane
collect lanes = sort plan_before (map sorted_lane lanes)

unfoldable pub build : List Worktree → List Ref → Evidence → List Lane
build worktrees refs ev = collect (add_worktrees ev (add_refs ev [] refs) worktrees)

-- `WithLanePaths`; a ref that the map does not have reads as the empty path.
abbrev with_path : (Text → Text) → Hold → Hold
with_path lane_of h = record h { lane = lane_of h.ref }

abbrev lane_with_paths : (Text → Text) → Lane → Lane
lane_with_paths lane_of l = record l { holds = map (with_path lane_of) l.holds }

unfoldable pub with_lane_paths : List Lane → (Text → Text) → List Lane
with_lane_paths built lane_of = map (lane_with_paths lane_of) built
