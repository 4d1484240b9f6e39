-- ===== src/Examples/Texts.antt =====
-- The round trips of a lease's texts.
use frit.Base.{◌≡◌, some, codes, arith}
use frit.Claim.Refs.{rescue_ref, rescue_plan_id}
use frit.Claim.Refs.Laws.{rescue_plan_id-rescue_ref}

rescue_plan_id-rescue_ref_example :
    rescue_plan_id (rescue_ref 7 (codes "ada/x") (codes "m1")) ≡ some 7
rescue_plan_id-rescue_ref_example =
    rescue_plan_id-rescue_ref 7 (codes "ada/x") (codes "m1") (omega arith)
