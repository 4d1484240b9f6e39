-- ===== src/Claim/Fault.antt =====
-- internal/claim/lease.go: the errors of a lease. An `errors.As` of the source is a function here.
use frit.Base.{ℕ, Bool, Option, none, some, Text}
use frit.Claim.{Marker}

pub record Held : Type 0 where
  pub plan_id : ℕ
  pub tip : Text
  pub marker : Option Marker
  pub this_holder : Bool
  pub landed : Bool

pub record Fence : Type 0 where
  pub plan_id : ℕ
  pub tip : Text
  pub marker : Option Marker

-- An error, with what its `Unwrap` gives inside it. The marker of `Held` and `Fence` is `some` where
-- the source's `Known` is true.
pub data Fault : Type 0 where
  git : (err : Text) → Fault
  no_marker : (plan_id : ℕ) (from : Text) → Fault
  held : Held → Fault
  fenced : Fence → Fault
  local_diverges : (plan_id : ℕ) (branch local_tip : Text) → Fault
  lease_diverges : (plan_id : ℕ) (branch local_tip from : Text) → Fault
  local_work : (plan_id : ℕ) (branch local_tip from : Text) → Fault
  still_held : (plan_id : ℕ) → Fault
  empty_local : (plan_id : ℕ) → Fault
  rescue_conflict : (plan_id : ℕ) (rescue found tip : Text) → Fault
  unconfirmed_push : (plan_id : ℕ) → Fault → Fault
  unconfirmed_delete : (plan_id : ℕ) (ref : Text) → Fault → Fault
  unconfirmed_yield : (plan_id : ℕ) → Fault → Fault
  delete_refused : (plan_id : ℕ) (ref holder : Text) → Fault → Fault
  wrapped : (what : Text) → Fault → Fault
  both : Fault → Fault → Fault

pub data Result {ℓ} (A : Type ℓ) : Type ℓ where
  done : A → Result A
  failed : Fault → Result A

-- `errors.As(err, &fenced)`: the first fence down the wraps.
unfoldable pub as_fence : Fault → Option Fence
as_fence (fenced e) = some e
as_fence (unconfirmed_push i e) = as_fence e
as_fence (unconfirmed_delete i r e) = as_fence e
as_fence (unconfirmed_yield i e) = as_fence e
as_fence (delete_refused i r h e) = as_fence e
as_fence (wrapped w e) = as_fence e
as_fence (both e f) = elim (as_fence e) [ none ↦ as_fence f | some x ↦ some x ]
as_fence _ = none
