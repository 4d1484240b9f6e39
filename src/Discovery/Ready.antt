-- ===== src/Discovery/Ready.antt =====
-- internal/discovery/ready.go: the plans that can be started now.
pub mod Laws
use frit.Base.{
  ℕ, Bool, true, false, ◌&&◌, ◌||◌, List, [], ◌∷◌, Text, text_eq, ◌==◌, if◌then◌else◌, keep, all,
  sort,
}
use frit.Discovery.{Plan, not_started, unfinished, done, by_repo_id}

unfoldable pub candidate : Plan → Bool
candidate p = if p.held then (p.stale || p.dead) && unfinished p else not_started p

-- The map of maps, read at a repository and an id; a missing key reads false.
abbrev pub DoneMap : Type 0
DoneMap = Text → ℕ → Bool

abbrev mark_done : DoneMap → Text → ℕ → DoneMap
mark_done m repo id r i = if text_eq r repo && (i == id) then true else m r i

-- The loop of `doneByRepo` over the plans, from the map built so far.
done_from : DoneMap → List Plan → DoneMap
done_from m [] = m
done_from m (p ∷ ps) = done_from (if done p then mark_done m p.repo p.id else m) ps

unfoldable pub done_by_repo : List Plan → DoneMap
unfolding done_from
done_by_repo plans = done_from (λ r i. false) plans

unfoldable pub all_done : Plan → DoneMap → Bool
all_done p m = all (λ dep. m p.repo dep) p.depends_on

unfoldable pub sort_by_repo_id : List Plan → List Plan
sort_by_repo_id plans = sort by_repo_id plans

unfoldable pub ready : List Plan → List Plan
ready plans =
    let m = done_by_repo plans in sort_by_repo_id (keep (λ p. candidate p && all_done p m) plans)
