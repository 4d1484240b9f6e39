-- ===== src/Discovery/Board/Laws.antt =====
-- What the board shows and in which order, and that every sort arranges the plans it is given.
use mathlib.Core.List.Perm
use frit.Base.{
  ◌≤◌, ◌≡◌, refl, subst, ◌↔◌, ◌⊎◌, Bool, true, false, List, [], ◌∷◌, ◌++◌, Memᴰ, Perm, arith, keep,
  mem-keep, mem_of_mem-keep, mem-sort, mem_of_mem-sort, sort-perm, keep-sort, IsSorted,
  sort-IsSorted, IsSorted-append,
}
use mathlib.Core.List.{perm_append_singleton}
use frit.Planmeta.{Status}
use frit.Discovery.{Plan}
use frit.Discovery.Order.{board_before-IsWeakOrder, less-IsWeakOrder}
use frit.Discovery.Board.{board, on_board, board_before, rank, SortKey, less, sort_by, reverse}

-- The board shows the plans in progress and, unless it is narrowed to those, the plans not started;
-- and no other.
pub board_iff :
    (plans : List Plan) (wip_only : Bool) (p : Plan)
    → Memᴰ p (board plans wip_only) ↔ (
        Memᴰ p plans
        × ((p.status ≡ Status.in_progress) ⊎ (wip_only ≡ false) × (p.status ≡ Status.not_started)))
unfolding board on_board
board_iff plans wip_only p = (
  λ m.
      let (m', t) = mem_of_mem-keep (on_board wip_only) plans (mem_of_mem-sort board_before _ m) in
      (m', ground arith),
  λ h. mem-sort board_before _ (mem-keep (on_board wip_only) plans h.0 (ground (arith, h.1))),
)

-- On the board no plan stands behind one that it comes before, and so work in progress stands above
-- what is not started: wherever the board is cut, nothing below the cut has a lower rank.
pub board_ranked :
    (plans : List Plan) (wip_only : Bool) (above below : List Plan) (p q : Plan)
    → board plans wip_only ≡ above ++ below
    → Memᴰ p above
    → Memᴰ q below
    → rank p ≤ rank q
unfolding board board_before
board_ranked plans wip_only above below p q e m n =
    let ordered =
      IsSorted-append board_before above below p q
        (subst (IsSorted board_before) e (sort-IsSorted board_before board_before-IsWeakOrder _)) m
        n in
    ground (arith, ordered)

reverse-perm : (ps : List Plan) → Perm (reverse ps) ps
unfolding reverse
reverse-perm [] = Perm.refl _
reverse-perm (p ∷ ps) =
    Perm.trans (perm_append_singleton p (reverse ps)) (Perm.cons p (reverse-perm ps))

-- A sort arranges the plans it is given: none is lost, added or doubled.
pub sort_by-perm :
    (plans : List Plan) (key : SortKey) (flip : Bool) → Perm (sort_by plans key flip) plans
unfolding sort_by
sort_by-perm plans key true = Perm.trans (reverse-perm _) (sort-perm (less key) plans)
sort_by-perm plans key false = sort-perm (less key) plans

-- A sort by any key puts no plan behind one that it comes before, and a reversed sort is the reverse
-- of that.
pub sort_by-IsSorted :
    (plans : List Plan) (key : SortKey)
    → IsSorted (less key) (sort_by plans key false)
      × (sort_by plans key true ≡ reverse (sort_by plans key false))
unfolding sort_by
sort_by-IsSorted plans key = (sort-IsSorted (less key) (less-IsWeakOrder key) plans, refl)

-- A sort that is not reversed is stable: plans of which, by the key, neither comes before the other
-- keep their order.
pub sort_by_stable :
    (plans : List Plan) (key : SortKey) (q : Plan → Bool)
    → ((a b : Plan) → q a ≡ true → q b ≡ true → less key a b ≡ false)
    → keep q (sort_by plans key false) ≡ keep q plans
unfolding sort_by
sort_by_stable plans key q alike = keep-sort (less key) q alike plans
