-- ===== src/Examples/Fleet.antt =====
-- The theorems of discovery, on a fleet of five plans in one repository.
use frit.Base.{
  ◌*◌, and-true, ==_iff, ℕ, ◌+◌, ◌≤◌, ◌<◌, ◌≡◌, refl, ◌⊎◌, ◌↔◌, Bool, true, false, ◌&&◌, some, List,
  [], ◌∷◌, ◌++◌, Memᴰ, Text, codes, text_eq, text_ltb, sort, insert, length, ◌==◌, arith,
}
use frit.Base.Int.{pos}
use frit.Base.Strings.Laws.{text_eq_iff}
use frit.Planmeta.{Status}
use frit.Discovery.{Plan, by_repo_id}
use frit.Discovery.Deps.Once.{IsExpandedOnce}
use frit.Discovery.Deps.{DepNode, DepNodes, dependencies, unresolved}
use frit.Discovery.Deps.Laws.{Edges, dependencies-total}
use frit.Discovery.Ready.{candidate, done_by_repo, all_done, sort_by_repo_id, ready}
use frit.Discovery.Ready.Laws.{IsStartable, ready-iff_IsStartable}
use frit.Discovery.Rank.{downstream_counts, ranks_before, rank_by_unblock, pick, candidates}
use frit.Discovery.Rank.Laws.{
  waiting_edges, downstream_counts-eq, pick_best, pick_sound, Outranks, IsRanked, IsResumable,
  candidates_total,
}
use frit.Discovery.Board.{rank, board_before, on_board, board, SortKey, less}
use frit.Discovery.Board.Laws.{board_iff}
use frit.Discovery.Resolve.{with_id}
use frit.Discovery.Window.{observe, stale_hold, span}
use frit.Discovery.Window.Laws.{Look, Run, observed, stale_hold_sound, stale_hold_complete}

abbrev plan : ℕ → Status → List ℕ → Plan
plan id status deps = record (unresolved (codes "r") id) {
  status = status;
  title = codes "Plan";
  depends_on = deps;
}

abbrev plan1 : Plan
plan1 = plan 1 Status.done []

abbrev plan2 : Plan
plan2 = plan 2 Status.not_started (1 ∷ [])

-- Held by a session that is gone.
abbrev plan3 : Plan
plan3 = record (plan 3 Status.in_progress (1 ∷ [])) { held = true; dead = true }

abbrev plan4 : Plan
plan4 = plan 4 Status.in_progress []

abbrev plan5 : Plan
plan5 = plan 5 Status.not_started (2 ∷ 2 ∷ [])

abbrev fleet : List Plan
fleet = plan5 ∷ plan4 ∷ plan3 ∷ plan2 ∷ plan1 ∷ []

second_listed : Memᴰ plan2 fleet
second_listed = Memᴰ.tail (Memᴰ.tail (Memᴰ.tail (Memᴰ.head refl)))

ready-iff_IsStartable_example :
    Memᴰ plan2 (ready fleet) ↔ Memᴰ plan2 fleet × IsStartable fleet plan2
ready-iff_IsStartable_example = ready-iff_IsStartable fleet plan2

ready-fleet : ready fleet ≡ plan2 ∷ plan3 ∷ []
unfolding ready candidate done_by_repo all_done sort_by_repo_id sort insert by_repo_id text_eq
    text_ltb
ready-fleet = refl

second_ready : Memᴰ plan2 (ready fleet)
second_ready = rw ready-fleet (Memᴰ.head refl)

second_picked : Memᴰ plan2 (pick fleet 1)
unfolding pick rank_by_unblock ready candidate done_by_repo all_done sort_by_repo_id sort insert
    by_repo_id text_eq text_ltb downstream_counts ranks_before
second_picked = Memᴰ.head refl

downstream_counts-eq_example :
    downstream_counts fleet (codes "r") 2 ≡ waiting_edges (codes "r") 2 fleet
downstream_counts-eq_example = downstream_counts-eq fleet (codes "r") 2

pick_best_example :
    Memᴰ plan2 (pick fleet 1)
    ⊎ (0 < 1)
      × (length (pick fleet 1) ≡ 1)
      × ((p : Plan) → Memᴰ p (pick fleet 1) → Outranks fleet p plan2)
pick_best_example =
    pick_best fleet 1 plan2 second_listed ((ready-iff_IsStartable fleet plan2).0 second_ready).1

pick_sound_example : Memᴰ plan2 fleet × IsStartable fleet plan2 × (length (pick fleet 1) ≤ 1)
pick_sound_example = pick_sound fleet 1 plan2 (omega arith) second_picked

candidates_total_example :
    (fresh : List Plan) × (tail : List Plan) × (candidates fleet ≡ fresh ++ tail)
    × IsRanked fleet (IsStartable fleet) fresh
    × IsRanked fleet IsResumable tail
candidates_total_example = candidates_total fleet

dependencies-total_example :
    (us : DepNodes) × (dependencies plan5 fleet ≡ some (DepNode.node plan5 true us))
    × Edges fleet (codes "r") (2 ∷ 2 ∷ []) us
    × IsExpandedOnce (DepNode.node plan5 true us)
dependencies-total_example = dependencies-total plan5 fleet

board_iff_example : Memᴰ plan4 (board fleet true) ↔ (
    Memᴰ plan4 fleet
    × ((plan4.status ≡ Status.in_progress) ⊎ (true ≡ false) × (plan4.status ≡ Status.not_started)))
board_iff_example = board_iff fleet true plan4

board-fleet : board fleet false ≡ (plan3 ∷ plan4 ∷ []) ++ (plan2 ∷ plan5 ∷ [])
unfolding board board_before on_board rank sort insert text_eq text_ltb
board-fleet = refl

-- Letters that have no case.
abbrev same_letters : Text → Text
same_letters t = t

fourth_alone : with_id 4 fleet ≡ plan4 ∷ []
unfolding with_id
fourth_alone = refl

abbrev look : ℕ → Look
look at = record { tip = codes "a"; at = at }

abbrev looks : List Look
looks = look 6 ∷ look 5 ∷ look 4 ∷ look 3 ∷ look 2 ∷ look 1 ∷ []

matured : stale_hold (observed (pos 1) looks) 7 (pos 4) (pos 1) ≡ true
unfolding observed observe stale_hold span text_eq
matured = refl

stale_hold_sound_example :
    (recent : List Look) × (older : List Look) × (tip : Text) × (first : ℕ) × (last : ℕ) × (looks
      ≡ recent ++ older)
    × Run (pos 1) tip first last recent
    × (first + 4 < last)
    × (7 ≤ last + 1)
    × (4 + 1 < length recent * 1)
    × ((4 < 1 * 4) ⊎ (6 ≤ length recent))
stale_hold_sound_example = stale_hold_sound 1 4 7 looks matured

two_looks : Run (pos 1) (codes "a") 1 2 (look 2 ∷ look 1 ∷ [])
two_looks = Run.later refl refl refl (Run.start refl refl)

stale_hold_complete_example :
    stale_hold (observed (pos 1) (look 2 ∷ look 1 ∷ [])) 3 (pos 0) (pos 1) ≡ true
stale_hold_complete_example =
    stale_hold_complete 1 0 3 (λ e. absurd (cc)) (omega arith) two_looks (omega arith) (omega arith)

-- A second copy of the second plan, in another file.
abbrev second_copy : Plan
second_copy = record plan2 { path = codes "copy.md" }

abbrev is_second : Plan → Bool
is_second p = text_eq p.repo (codes "r") && (p.id == 2)

seconds_alike :
    (a b : Plan) → is_second a ≡ true → is_second b ≡ true → less SortKey.by_id a b ≡ false
unfolding less
seconds_alike a b h k =
    let e = (text_eq_iff a.repo (codes "r")).0 (and-true _ _ h).0 in
    let f = (text_eq_iff b.repo (codes "r")).0 (and-true _ _ k).0 in
    let i : a.id ≡ 2 = (==_iff a.id 2).0 (and-true _ _ h).1 in
    let j : b.id ≡ 2 = (==_iff b.id 2).0 (and-true _ _ k).1 in
    rw (e, f, i, j) (unfold text_ltb in refl)
