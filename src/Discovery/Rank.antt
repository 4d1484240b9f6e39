-- ===== src/Discovery/Rank.antt =====
-- internal/discovery/pick.go: what to start next.
pub mod Laws
use frit.Base.{
  ℕ, zero, suc, ◌+◌, Bool, true, false, ◌&&◌, ◌||◌, not, List, [], ◌∷◌, ◌++◌, Text, text_eq,
  text_ltb, ◌==◌, ltb, if◌then◌else◌, keep, sort, take, length,
}
use frit.Discovery.{Plan, done, superseded, in_progress}
use frit.Discovery.Ready.{ready}

-- The map of maps, read at a repository and an id; a missing key reads zero.
abbrev pub Counts : Type 0
Counts = Text → ℕ → ℕ

abbrev bump : Counts → Text → ℕ → Counts
bump m repo id r i = if text_eq r repo && (i == id) then m r i + 1 else m r i

-- The inner loop over one plan's edges.
count_edges : Counts → Text → List ℕ → Counts
count_edges m repo [] = m
count_edges m repo (dep ∷ deps) = count_edges (bump m repo dep) repo deps

-- The outer loop, from the counts so far; `continue` on a done or superseded plan.
count_from : Counts → List Plan → Counts
unfolding count_edges
count_from m [] = m
count_from m (p ∷ ps) =
    count_from (if done p || superseded p then m else count_edges m p.repo p.depends_on) ps

unfoldable pub downstream_counts : List Plan → Counts
unfolding count_from
downstream_counts plans = count_from (λ r i. 0) plans

-- The `less` of the sort: most downstream work first, then repository, then id.
unfoldable pub ranks_before : Counts → Plan → Plan → Bool
ranks_before m a b =
    if not (m a.repo a.id == m b.repo b.id)
    then ltb (m b.repo b.id) (m a.repo a.id)
    else if not (text_eq a.repo b.repo)
    then text_ltb a.repo b.repo
    else ltb a.id b.id

unfoldable pub rank_by_unblock : List Plan → List Plan → List Plan
rank_by_unblock subset plans = sort (ranks_before (downstream_counts plans)) subset

-- A non-positive `n` (here zero) means all of them.
unfoldable pub pick : List Plan → ℕ → List Plan
pick plans n =
    let ranked = rank_by_unblock (ready plans) plans in
    if ltb 0 n && ltb n (length ranked) then take n ranked else ranked

unfoldable pub resumable : List Plan → List Plan
resumable plans = keep (λ p. not p.held && in_progress p) plans

unfoldable pub candidates : List Plan → List Plan
candidates plans = pick plans 0 ++ rank_by_unblock (resumable plans) plans
