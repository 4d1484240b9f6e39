-- ===== src/Discovery.antt =====
-- internal/discovery: the pure decisions over the gathered plans. This file has the plan as
-- discovery sees it (discovery.go); the children have one part of the package each.
use frit.Base.{
  ℕ, Bool, true, false, ◌&&◌, ◌||◌, not, Option, none, some, List, [], ◌∷◌, Text, text_eq, text_ltb,
  contains, if◌then◌else◌, any, ltb,
}
use frit.Base.Int.{ℤ}
use frit.Planmeta.{
  Status, Phase, is_not_started, is_in_progress, is_done, is_superseded, first_open_phase,
}
pub mod Ready
pub mod Rank
pub mod Board
pub mod Resolve
pub mod Window
pub mod Deps
pub mod Order

-- What the observer's message about a voided window says: the gap seen and the bound it exceeded.
pub record Gap : Type 0 where
  pub gap : ℤ
  pub bound : ℤ

pub record Plan : Type 0 where
  pub key : Text
  pub repo : Text
  pub id : ℕ
  pub status : Status
  pub title : Text
  pub summary : Text
  pub model : Text
  pub goal : Text
  pub depends_on : List ℕ
  pub phases : List Phase
  pub path : Text
  pub branches : List Text
  pub held : Bool
  pub holds : List Text
  pub hold_tip : Text
  pub decorated_tips : List (Text × Text)
  pub stale : Bool
  pub stale_for : ℤ
  pub voided : Option Gap
  pub dead : Bool

abbrev pub not_started : Plan → Bool
not_started p = is_not_started p.status

abbrev pub done : Plan → Bool
done p = is_done p.status

abbrev pub superseded : Plan → Bool
superseded p = is_superseded p.status

abbrev pub in_progress : Plan → Bool
in_progress p = is_in_progress p.status

abbrev pub unfinished : Plan → Bool
unfinished p = not_started p || in_progress p

unfoldable pub deserted : Plan → Bool
deserted p = p.held && p.dead && not p.stale

unfoldable pub next_phase : Plan → Option Phase
unfolding first_open_phase
next_phase p = first_open_phase p.phases

-- `strings.ToLower` is the argument `to_lower`: its table of letters is Unicode's.
unfoldable pub matches_slug : (Text → Text) → Plan → Text → Bool
matches_slug to_lower p fragment =
    contains (to_lower p.title) fragment
    || (contains (to_lower p.path) fragment || any (λ b. contains (to_lower b) fragment) p.branches)

-- Repository, then id: `byRepoID`, and the `less` of `sortByRepoID`.
unfoldable pub by_repo_id : Plan → Plan → Bool
by_repo_id a b = if not (text_eq a.repo b.repo) then text_ltb a.repo b.repo else ltb a.id b.id
