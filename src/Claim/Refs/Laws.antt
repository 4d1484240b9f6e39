-- ===== src/Claim/Refs/Laws.antt =====
-- The id that a rescue ref is named by is read back from its name.
use frit.Base.{ℕ, ◌≤◌, ◌≡◌, some, ◌∷◌, ◌++◌, Text, codes, cut, arith}
use frit.Base.Strings.Decimal.{decimal, max_int64, parse_int-decimal, decimal-Lacks}
use frit.Base.Strings.Laws.{cut_prefix-append, cut-append}
use frit.Claim.Refs.{rescue_ref, rescue_plan_id}

cut-id : (id : ℕ) (name : Text) → cut 47 (decimal id ++ 47 ∷ name) ≡ some (decimal id, name)
cut-id id name = cut-append 47 (decimal id) name (decimal-Lacks 47 id (omega arith))

-- The plan that a rescue ref belongs to is read back from its name, whatever the holder and the tip.
pub rescue_plan_id-rescue_ref :
    (id : ℕ) (holder tip : Text)
    → id ≤ max_int64
    → rescue_plan_id (rescue_ref id holder tip) ≡ some id
unfolding rescue_plan_id rescue_ref
rescue_plan_id-rescue_ref id holder tip h =
    let name : Text = holder ++ (codes "-" ++ tip) in
    rw
      (
        rescue_plan_id,
        cut_prefix-append (codes "refs/frit/rescue/") (decimal id ++ 47 ∷ name),
        cut-id id name,
      )
      (parse_int-decimal id h)
