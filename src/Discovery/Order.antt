-- ===== src/Discovery/Order.antt =====
-- The orders of internal/discovery are strict weak orders.
use frit.Base.{IsWeakOrder, ◌≡◌, true, false, arith}
use frit.Base.Order.{
  text_order, nat_order, nat_order_descending, by_key-IsWeakOrder, lex-IsWeakOrder,
}
use frit.Discovery.{Plan, by_repo_id}
use frit.Discovery.Rank.{Counts, ranks_before}
use frit.Discovery.Board.{
  SortKey, by_status, by_repo, by_id, by_held, rank, board_before, status_rank, less,
}

pub by_repo_id-IsWeakOrder : IsWeakOrder by_repo_id
unfolding by_repo_id
by_repo_id-IsWeakOrder =
    lex-IsWeakOrder (λ (p : Plan). p.repo) text_order
      (by_key-IsWeakOrder (λ (p : Plan). p.id) nat_order)

pub ranks_before-IsWeakOrder : (m : Counts) → IsWeakOrder (ranks_before m)
unfolding ranks_before
ranks_before-IsWeakOrder m =
    lex-IsWeakOrder (λ (p : Plan). m p.repo p.id) nat_order_descending
      (lex-IsWeakOrder (λ (p : Plan). p.repo) text_order
        (by_key-IsWeakOrder (λ (p : Plan). p.id) nat_order))

pub board_before-IsWeakOrder : IsWeakOrder board_before
unfolding board_before
board_before-IsWeakOrder = lex-IsWeakOrder rank nat_order (
    lex-IsWeakOrder (λ (p : Plan). p.repo) text_order
      (by_key-IsWeakOrder (λ (p : Plan). p.id) nat_order))

by_held_asym : (a b : Plan) → less by_held a b ≡ true → less by_held b a ≡ false
unfolding less
by_held_asym a b h = ground (arith, by_repo_id-IsWeakOrder.asym a b)

by_held_trans :
    (a b c : Plan) → less by_held b a ≡ false → less by_held c b ≡ false → less by_held c a ≡ false
unfolding less
by_held_trans a b c h k = ground (arith, by_repo_id-IsWeakOrder.trans a b c)

-- Every order that a person can ask for is a strict weak order.
pub less-IsWeakOrder : (key : SortKey) → IsWeakOrder (less key)
unfolding less
less-IsWeakOrder by_repo = by_repo_id-IsWeakOrder
less-IsWeakOrder by_id =
    lex-IsWeakOrder (λ (p : Plan). p.id) nat_order
      (by_key-IsWeakOrder (λ (p : Plan). p.repo) text_order)
less-IsWeakOrder by_held = record { asym = by_held_asym; trans = by_held_trans }
less-IsWeakOrder by_status = lex-IsWeakOrder status_rank nat_order by_repo_id-IsWeakOrder
