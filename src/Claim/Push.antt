-- ===== src/Claim/Push.antt =====
-- internal/claim/lease.go and claim.go: the pushes that move a shared ref, and the read that
-- confirms one whose answer was lost.
pub mod Laws
use frit.Base.{
  ℕ, Bool, true, false, ◌&&◌, not, Option, none, some, List, [], ◌∷◌, ◌++◌, Text, codes, text_eq,
  is_empty, fields, if◌then◌else◌,
}
use frit.Base.Strings.Decimal.{decimal}
use frit.Claim.{Kind, kind_text, LeaseOptions}
use frit.Claim.Effects.{M, output, trimmed}
use frit.Claim.Fault.{
  Fault, git, both, unconfirmed_push, unconfirmed_delete, delete_refused, rescue_conflict, Result,
  done, failed,
}
use frit.Claim.Host.{Command, Outcome, Host}

-- The first field of `ls-remote`'s output; empty where there is none.
abbrev pub first_field : List Text → Text
first_field [] = []
first_field (f ∷ fs) = f

abbrev pub holder_of : Outcome → Result Text
holder_of (Outcome.ok out) = done (first_field (fields out))
holder_of (Outcome.fail err) = failed (git err)

-- What a push came to: accepted; refused, where the remote could not be read behind it; or refused,
-- with what the remote then showed.
pub data Confirm : Type 0 where
  accepted : Confirm
  unread : (push_err read_err : Fault) → Confirm
  shows : (push_err : Fault) (now : Text) → Confirm

abbrev confirm_by : Fault → Result Text → Confirm
confirm_by push_err (done now) = shows push_err now
confirm_by push_err (failed read_err) = unread push_err read_err

pub data Race : Type 0 where
  won : (tip : Text) → Race
  lost : (tip : Text) → Race

abbrev or_empty : Result Text → Text
or_empty (done t) = t
or_empty (failed e) = []

abbrev reason_of : LeaseOptions → Kind → Text
reason_of opts kind =
    codes "frit: plan " ++ (decimal opts.plan_id ++ (codes ": " ++ kind_text kind))

module _ {W : Type 0} (host : Host W) where
  unfoldable pub remote_holder_err : Text → Text → M W Text
  remote_holder_err remote ref w =
      let (o, w') = host.run (Command.ls_remote remote ref) w in (holder_of o, w')

  -- An unreadable remote reads as an absent ref.
  unfoldable pub remote_holder : Text → Text → W → Text × W
  remote_holder remote ref w = let (r, w') = remote_holder_err remote ref w in (or_empty r, w')

  unfoldable pub local_tip : Text → W → Text × W
  local_tip ref w = let (o, w') = host.run (Command.verify ref) w in (or_empty (trimmed o), w')

  -- Best effort: its error is dropped.
  unfoldable pub sync_local_ref : Text → Text → Text → Text → W → W
  sync_local_ref ref tip reason seen w = (host.run (Command.update_ref reason ref tip seen) w).1

  unfoldable pub push_then_confirm : LeaseOptions → Text → Text → Text → W → Confirm × W
  push_then_confirm opts ref expected src w =
      let (o, w₁) = host.run (Command.push opts.remote ref expected src) w in
      elim o [
        | Outcome.ok out ↦ (accepted, w₁)
        | Outcome.fail err ↦
            let (r, w₂) = remote_holder_err opts.remote ref w₁ in (confirm_by (git err) r, w₂)
      ]

  -- The `switch now` behind a push that was not accepted.
  cas_settle : LeaseOptions → Text → Kind → Text → Text → Fault → Text → W → Result Race × W
  cas_settle opts ref kind marker seen push_err now w =
      if text_eq now marker
      then (done (won marker), sync_local_ref ref marker (reason_of opts kind) seen w)
      else if is_empty now
      then (failed push_err, w)
      else (done (lost now), w)

  unfoldable pub cas_push : LeaseOptions → Text → Kind → Text → Text → Text → M W Race
  unfolding cas_settle
  cas_push opts ref kind marker expected seen w =
      let (c, w') = push_then_confirm opts ref expected marker w in
      elim c [
        | accepted ↦ (done (won marker), sync_local_ref ref marker (reason_of opts kind) seen w')
        | unread push_err read_err ↦ (failed (unconfirmed_push opts.plan_id read_err), w')
        | shows push_err now ↦ cas_settle opts ref kind marker seen push_err now w'
      ]

  unfoldable pub cas_delete : LeaseOptions → Text → Text → M W (Unit {0})
  cas_delete opts ref from w =
      let (c, w') = push_then_confirm opts ref from [] w in
      elim c [
        | accepted ↦ (done tt, w')
        | unread push_err read_err ↦
            (failed (unconfirmed_delete opts.plan_id ref (both push_err read_err)), w')
        | shows push_err now ↦
            if is_empty now
            then (done tt, w')
            else (failed (delete_refused opts.plan_id ref now push_err), w')
      ]

  unfoldable pub park : LeaseOptions → Text → Text → M W (Unit {0})
  park opts rescue tip w =
      let (c, w') = push_then_confirm opts rescue [] tip w in
      elim c [
        | accepted ↦ (done tt, w')
        | unread push_err read_err ↦
            (failed (unconfirmed_push opts.plan_id (both push_err read_err)), w')
        | shows push_err now ↦
            if text_eq now tip
            then (done tt, w')
            else if is_empty now
            then (failed push_err, w')
            else (failed (rescue_conflict opts.plan_id rescue now tip), w')
      ]
