-- ===== src/Claim/Decorated.antt =====
-- internal/claim/decorated.go: the takeover of a hold that is made of decorated branches alone.
pub mod Retire
pub mod Laws
use frit.Base.{
  ℕ, Bool, true, false, ◌&&◌, not, Option, none, some, List, [], ◌∷◌, ◌++◌, Text, codes, text_eq,
  text_ltb, is_empty, sort, if◌then◌else◌,
}
use frit.Base.Strings.Decimal.{decimal}
use frit.Claim.{LeaseOptions}
use frit.Claim.Effects.{M}
use frit.Claim.Fault.{
  Fault, git, held, fenced, unconfirmed_push, unconfirmed_delete, unconfirmed_yield, delete_refused,
  wrapped, both, Result, done, failed,
}
use frit.Claim.Host.{Command, Outcome, Host}
use frit.Claim.Push.{remote_holder_err, local_tip, cas_delete}
use frit.Claim.Read.{checked_out}
use frit.Claim.Rescue.{park_unlanded}
use frit.Claim.Lease.{Lease, acquire}

pub record Retired : Type 0 where
  pub branch : Text
  pub rescue : Text
  pub deleted_on_origin : Bool
  pub local_kept : Bool

-- An entry of the map from branches to the tips that their windows matured on.
pub record Tip : Type 0 where
  pub branch : Text
  pub tip : Text

-- A branch that still stands at its tip, and whether origin has it.
pub record Standing : Type 0 where
  pub branch : Text
  pub tip : Text
  pub pushed : Bool

-- The lease or the error, with the branches that were retired before it.
pub record Seized : Type 0 where
  pub lease : Result Lease
  pub retired : List Retired

abbrev pub ref_of : Text → Text
ref_of branch = codes "refs/heads/" ++ branch

abbrev pub tip_before : Tip → Tip → Bool
tip_before a b = text_ltb a.branch b.branch

-- The `HeldError` of a moved branch, which no marker is read for.
abbrev pub moved_to : LeaseOptions → Text → Fault
moved_to opts now = held (record {
  plan_id = opts.plan_id;
  tip = now;
  marker = none;
  this_holder = false;
  landed = false;
})

-- `errors.As(err, &refused)`: the holder of the first refused delete down the wraps.
unfoldable pub as_delete_refused : Fault → Option Text
as_delete_refused (delete_refused i r h e) = some h
as_delete_refused (unconfirmed_push i e) = as_delete_refused e
as_delete_refused (unconfirmed_delete i r e) = as_delete_refused e
as_delete_refused (unconfirmed_yield i e) = as_delete_refused e
as_delete_refused (wrapped w e) = as_delete_refused e
as_delete_refused (both e f) = elim (as_delete_refused e) [
  | none ↦ as_delete_refused f
  | some x ↦ some x
]
as_delete_refused _ = none

abbrev lost_to : LeaseOptions → Text → Fault → Option Text → Fault
lost_to opts tip e none = e
lost_to opts tip e (some holder) = if text_eq holder tip then e else moved_to opts holder

abbrev read_text : LeaseOptions → Text → Text
read_text opts ref =
    codes "read "
    ++ (ref ++ (codes " from " ++ (opts.remote ++ (codes " for plan " ++ decimal opts.plan_id))))

abbrev kept_text : LeaseOptions → Text → Text
kept_text opts branch =
    codes "not deleting " ++ (branch ++ (codes " for plan " ++ decimal opts.plan_id))

module _ {W : Type 0} (host : Host W) where
  abbrev pub tip_behind : LeaseOptions → Text → Result Text → M W (Text × Bool)
  tip_behind opts ref (failed e) w = (failed (wrapped (read_text opts ref) e), w)
  tip_behind opts ref (done now) w =
      let (here, w') = local_tip host ref w in
      if not (is_empty now) then (done (now, true), w) else (done (here, false), w')

  unfoldable pub decorated_tip : LeaseOptions → Text → M W (Text × Bool)
  decorated_tip opts branch w =
      let (r, w') = remote_holder_err host opts.remote (ref_of branch) w in
      tip_behind opts (ref_of branch) r w'

  abbrev pub with_standing : Standing → Result (List Standing) × W → Result (List Standing) × W
  with_standing s (done ss, w) = (done (s ∷ ss), w)
  with_standing s (failed e, w) = (failed e, w)

  -- The first loop's body at the branch's reading; `rest` is the loop behind it.
  abbrev pub surveyed_by :
      LeaseOptions
      → Tip
      → Result (Text × Bool)
      → W
      → Result (List Standing) × W
      → Result (List Standing) × W
  surveyed_by opts t (failed e) w rest = (failed e, w)
  surveyed_by opts t (done (now, on_origin)) w rest =
      if is_empty now
      then rest
      else if text_eq now t.tip
      then with_standing (record { branch = t.branch; tip = t.tip; pushed = on_origin }) rest
      else (failed (moved_to opts now), w)

  -- The first loop: every branch is read before any is touched.
  unfoldable pub survey : LeaseOptions → List Tip → M W (List Standing)
  survey opts [] w = (done [], w)
  survey opts (t ∷ ts) w =
      let (r, w') = decorated_tip opts t.branch w in
      let rest = survey opts ts w' in surveyed_by opts t r w' rest

  abbrev pub settled : LeaseOptions → Standing → Result (Unit {0}) × W → Result (Unit {0}) × W
  settled opts s (done u, w) = (done u, w)
  settled opts s (failed e, w) = (failed (lost_to opts s.tip e (as_delete_refused e)), w)

  -- The delete on origin, where origin has the branch.
  abbrev pub delete_pushed : LeaseOptions → Standing → M W (Unit {0})
  delete_pushed opts s w =
      let r = cas_delete host opts (ref_of s.branch) s.tip w in
      if not s.pushed then (done tt, w) else settled opts s r

  -- The local copy goes where it is at the tip and no worktree stands on it.
  unfoldable pub drop_copy : Standing → W → W
  drop_copy s w =
      let (here, w₁) = local_tip host (ref_of s.branch) w in
      let (on, w₂) = checked_out host s.branch w₁ in
      let (o, w₃) = host.run (Command.delete_ref_at (ref_of s.branch) s.tip) w₂ in
      if not (text_eq here s.tip) then w₁ else if on then w₂ else w₃

  abbrev pub retired_as : Standing → Text → W → Retired × W
  retired_as s rescue w =
      let (here, w') = local_tip host (ref_of s.branch) w in
      (
        record {
          branch = s.branch;
          rescue = rescue;
          deleted_on_origin = s.pushed;
          local_kept = not (is_empty here);
        },
        w',
      )

  abbrev pub retired_behind : Standing → Text → Result (Unit {0}) × W → Result Retired × W
  retired_behind s rescue (failed e, w) = (failed e, w)
  retired_behind s rescue (done u, w) =
      let (r, w') = retired_as s rescue (drop_copy s w) in (done r, w')

  abbrev pub retire_behind : LeaseOptions → Standing → Result Text × W → Result Retired × W
  retire_behind opts s (failed e, w) = (failed (wrapped (kept_text opts s.branch) e), w)
  retire_behind opts s (done rescue, w) = retired_behind s rescue (delete_pushed opts s w)

  unfoldable pub retire_decorated : LeaseOptions → Standing → M W Retired
  retire_decorated opts s w = retire_behind opts s (park_unlanded host opts s.tip w)

  abbrev pub with_retired : Retired → Seized × W → Seized × W
  with_retired r (x, w) = (record { lease = x.lease; retired = r ∷ x.retired }, w)

  abbrev pub not_seized : Fault → Seized
  not_seized e = record { lease = failed e; retired = [] }

  -- The second loop's body at the branch's retirement; `rest` is the loop behind it.
  abbrev pub seize_step : LeaseOptions → Result Retired × W → Seized × W → Seized × W
  seize_step opts (failed e, w) rest = (not_seized e, w)
  seize_step opts (done x, w) rest = with_retired x rest

  -- The second loop, and the acquire behind it.
  unfoldable pub seize : LeaseOptions → List Standing → W → Seized × W
  seize opts [] w = let (r, w') = acquire host opts w in (record { lease = r; retired = [] }, w')
  seize opts (s ∷ ss) w =
      let q = retire_decorated opts s w in let rest = seize opts ss q.1 in seize_step opts q rest

  abbrev pub seize_behind : LeaseOptions → Result (List Standing) × W → Seized × W
  seize_behind opts (failed e, w) = (not_seized e, w)
  seize_behind opts (done ss, w) = seize opts ss w

  -- `TakeoverDecorated`
  unfoldable pub take_over_decorated : LeaseOptions → List Tip → W → Seized × W
  take_over_decorated opts tips w = seize_behind opts (survey opts (sort tip_before tips) w)
