-- ===== src/Discovery/Board.antt =====
-- internal/discovery/board.go and sort.go: the status board and the orders a person can ask for.
pub mod Laws
use frit.Base.{
  ℕ, zero, suc, Bool, true, false, ◌&&◌, ◌||◌, not, Option, none, some, List, [], ◌∷◌, ◌++◌, Text,
  codes, text_eq, text_ltb, ◌==◌, ltb, if◌then◌else◌, keep, sort,
}
use frit.Planmeta.{Status}
use frit.Discovery.{Plan, in_progress, unfinished, by_repo_id}

unfoldable pub rank : Plan → ℕ
rank p = if in_progress p then 0 else 1

unfoldable pub board_before : Plan → Plan → Bool
unfolding rank
board_before a b =
    if not (rank a == rank b)
    then ltb (rank a) (rank b)
    else if not (text_eq a.repo b.repo)
    then text_ltb a.repo b.repo
    else ltb a.id b.id

-- The two `continue` tests of the loop.
unfoldable pub on_board : Bool → Plan → Bool
on_board wip_only p =
    if wip_only && not (in_progress p)
    then false
    else if not wip_only && not (unfinished p)
    then false
    else true

unfoldable pub board : List Plan → Bool → List Plan
board plans wip_only = sort board_before (keep (on_board wip_only) plans)

pub data SortKey : Type 0 where
  by_status by_repo by_id by_held : SortKey

unfoldable pub parse_sort_key : Text → Option SortKey
parse_sort_key s =
    if text_eq s (codes "status")
    then some by_status
    else if text_eq s (codes "repo")
    then some by_repo
    else if text_eq s (codes "id") || text_eq s (codes "age")
    then some by_id
    else if text_eq s (codes "held")
    then some by_held
    else none

abbrev pub status_rank_of : Status → ℕ
status_rank_of Status.in_progress = 0
status_rank_of Status.not_started = 1
status_rank_of Status.done = 2
status_rank_of Status.superseded = 3
status_rank_of (Status.other s) = 4

abbrev pub status_rank : Plan → ℕ
status_rank p = status_rank_of p.status

abbrev bool_ne : Bool → Bool → Bool
bool_ne true b = not b
bool_ne false b = b

unfoldable pub less : SortKey → Plan → Plan → Bool
unfolding by_repo_id
less by_repo a b = by_repo_id a b
less by_id a b = if not (a.id == b.id) then ltb a.id b.id else text_ltb a.repo b.repo
less by_held a b = if bool_ne a.held b.held then a.held else by_repo_id a b
less by_status a b =
    if not (status_rank a == status_rank b)
    then ltb (status_rank a) (status_rank b)
    else by_repo_id a b

-- The list that the swaps of `Reverse` from both ends leave.
unfoldable pub reverse : List Plan → List Plan
reverse [] = []
reverse (p ∷ ps) = reverse ps ++ p ∷ []

unfoldable pub sort_by : List Plan → SortKey → Bool → List Plan
unfolding reverse
sort_by plans key flip =
    let sorted = sort (less key) plans in if flip then reverse sorted else sorted
