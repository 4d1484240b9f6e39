-- ===== src/Claim/Rescue.antt =====
-- internal/claim/lease.go: the end of a lease that its holder left behind: the park of its unlanded
-- work, the delete of its ref, and the yield of a fenced lane.
pub mod Laws
mod Reads
use frit.Base.{
  ℕ, Bool, true, false, Option, none, some, List, [], ◌∷◌, ◌++◌, Text, codes, text_eq, is_empty,
  if◌then◌else◌,
}
use frit.Base.Strings.Decimal.{decimal}
use frit.Claim.{LeaseOptions}
use frit.Claim.Effects.{M}
use frit.Claim.Fault.{
  Fault, Result, done, failed, wrapped, rescue_conflict, empty_local, still_held, unconfirmed_yield,
}
use frit.Claim.Host.{Command, Outcome, Host}
use frit.Claim.Push.{remote_holder_err, cas_delete, park}
use frit.Claim.Read.{work_ref, has_unlanded, checked_out, fence_error}
use frit.Claim.Refs.{lease_branch, rescue_ref}

-- `Scavenge`'s two results; a delete that fails behind a park answers both.
pub record Scavenged : Type 0 where
  pub rescue : Text
  pub err : Option Fault

abbrev scavenged : Text → Scavenged
scavenged rescue = record { rescue = rescue; err = none }

abbrev refused : Text → Fault → Scavenged
refused rescue e = record { rescue = rescue; err = some e }

-- `errors.As(err, &conflict)`: the park's own errors, none of which holds another.
abbrev conflict_text : LeaseOptions → Fault → Fault
conflict_text opts (rescue_conflict id rescue found tip) =
    wrapped (codes "not deleting plan " ++ (decimal opts.plan_id ++ codes "'s ref"))
      (rescue_conflict id rescue found tip)
conflict_text opts e = e

abbrev read_text : LeaseOptions → Text
read_text opts =
    codes "read "
    ++ (work_ref opts.plan_id
        ++ (codes " from " ++ (opts.remote ++ (codes " for plan " ++ decimal opts.plan_id))))

module _ {W : Type 0} (host : Host W) where
  abbrev pub parked : LeaseOptions → Text → Result (Unit {0}) × W → Result Text × W
  parked opts rescue (done u, w) = (done rescue, w)
  parked opts rescue (failed e, w) = (failed e, w)

  abbrev pub park_if : LeaseOptions → Text → Result Bool × W → Result Text × W
  park_if opts tip (done true, w) =
      parked opts (rescue_ref opts.plan_id opts.holder tip)
        (park host opts (rescue_ref opts.plan_id opts.holder tip) tip w)
  park_if opts tip (done false, w) = (done [], w)
  park_if opts tip (failed e, w) = (failed e, w)

  -- The rescue ref that the work was parked to, empty where there was none to park.
  unfoldable pub park_unlanded : LeaseOptions → Text → M W Text
  park_unlanded opts tip w = park_if opts tip (has_unlanded host opts tip w)

  -- The local copy of the plan's ref is deleted where no worktree stands on its branch.
  unfoldable pub drop_local : LeaseOptions → W → W
  drop_local opts w =
      let (standing, w₁) = checked_out host (lease_branch opts.plan_id) w in
      let (o, w₂) = host.run (Command.delete_ref (work_ref opts.plan_id)) w₁ in
      if standing then w₁ else w₂

  abbrev pub deleted : LeaseOptions → Text → Result (Unit {0}) × W → Scavenged × W
  deleted opts rescue (done u, w) = (scavenged rescue, drop_local opts w)
  deleted opts rescue (failed e, w) = (refused rescue e, w)

  abbrev pub delete_behind : LeaseOptions → Text → Result Text × W → Scavenged × W
  delete_behind opts from (done rescue, w) =
      deleted opts rescue (cas_delete host opts (work_ref opts.plan_id) from w)
  delete_behind opts from (failed e, w) = (refused [] (conflict_text opts e), w)

  -- `Scavenge` behind its read of the ref.
  unfoldable pub scavenge_at : LeaseOptions → Text → Result Text → W → Scavenged × W
  scavenge_at opts from (failed e) w = (refused [] (wrapped (read_text opts) e), w)
  scavenge_at opts from (done now) w =
      if is_empty now
      then (scavenged [], drop_local opts w)
      else if text_eq now from
      then delete_behind opts from (park_unlanded opts from w)
      else let (e, w') = fence_error host opts now w in (refused [] e, w')

  unfoldable pub scavenge : LeaseOptions → Text → W → Scavenged × W
  scavenge opts from w =
      let (now, w') = remote_holder_err host opts.remote (work_ref opts.plan_id) w in
      scavenge_at opts from now w'

  -- `Yield` behind its read of the ref.
  unfoldable pub yield_at : LeaseOptions → Text → Result Text → M W Text
  yield_at opts local (failed e) w = (failed (unconfirmed_yield opts.plan_id e), w)
  yield_at opts local (done holder) w =
      if text_eq holder local
      then (failed (still_held opts.plan_id), w)
      else parked opts (rescue_ref opts.plan_id opts.holder local)
          (park host opts (rescue_ref opts.plan_id opts.holder local) local w)

  unfoldable pub yield_lane : LeaseOptions → Text → M W Text
  yield_lane opts local w =
      let (holder, w') = remote_holder_err host opts.remote (work_ref opts.plan_id) w in
      if is_empty local
      then (failed (empty_local opts.plan_id), w)
      else yield_at opts local holder w'
