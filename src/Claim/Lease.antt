-- ===== src/Claim/Lease.antt =====
-- internal/claim/lease.go: the transitions of a lease, each one push to the work ref.
pub mod Laws
pub mod Mint
pub mod Advance
pub mod Take
pub mod Bind
pub mod Stands
pub mod Grows
use frit.Base.{
  ℕ, ◌+◌, ◌%◌, ◌^◌, Bool, true, false, ◌&&◌, ◌||◌, not, Option, none, some, List, [], ◌∷◌, ◌++◌,
  Text, codes, text_eq, is_empty, if◌then◌else◌,
}
use frit.Base.Strings.Decimal.{decimal}
use frit.Claim.{Kind, claim, beat, release, takeover, kind_text, LeaseOptions, Marker}
use frit.Claim.Message.{lease_message}
use frit.Claim.Refs.{lease_branch}
use frit.Claim.Effects.{M, output, trimmed, ◌>>=◌, ◌>>◌, pure, throw, lift, wrap}
use frit.Claim.Fault.{
  Fault, Fence, local_diverges, lease_diverges, local_work, no_marker, as_fence, Result, done,
  failed,
}
use frit.Claim.Host.{Command, Outcome, Host}
use frit.Claim.Push.{Race, won, lost, remote_holder, local_tip, cas_push}
use frit.Claim.Read.{
  work_ref, is_ancestor, ask_trimmed, commit_marker, latest_marker, fetched_marker, held_error,
  fence_error,
}
use frit.Claim.Token.{persist_token}

-- `base_sha` is empty but for an acquisition. What a takeover of decorated branches retired is that
-- call's own result.
pub record Lease : Type 0 where
  pub branch : Text
  pub tip : Text
  pub epoch : ℕ
  pub base_sha : Text

-- The commit that the next marker stands on, and the local tip that was read for it.
pub record Stand : Type 0 where
  pub parent : Text
  pub seen : Text

abbrev pub BaseFunc : Type 0 → Type 0
BaseFunc W = LeaseOptions → Text → Text → M W Stand

-- The mover's marker names this holder and this lane.
abbrev pub marker_is_own : Option Marker → LeaseOptions → Bool
marker_is_own none opts = false
marker_is_own (some m) opts =
    not (is_empty m.holder) && (text_eq m.holder opts.holder && text_eq m.lane opts.lane)

unfoldable pub own_hold : Fence → LeaseOptions → Bool
own_hold fence opts = not (is_empty fence.tip) && marker_is_own fence.marker opts

abbrev pub is_release : Option Marker → Bool
is_release none = false
is_release (some m) = elim m.kind [ release ↦ true | _ ↦ false ]

-- `m.Epoch + 1` on the word of an int, which wraps around.
abbrev pub next_word : ℕ → ℕ
next_word e = (e + 1) % 2 ^ 64

abbrev pub next_epoch : Option Marker → ℕ
next_epoch none = 1
next_epoch (some m) = next_word m.epoch

abbrev pub lease_of : LeaseOptions → Text → ℕ → Text → Lease
lease_of opts tip epoch base = record {
  branch = lease_branch opts.plan_id;
  tip = tip;
  epoch = epoch;
  base_sha = base;
}

module _ {W : Type 0} (host : Host W) where
  -- The `-S` flag, as git's own configuration decides it.
  unfoldable pub sign_args : M W Bool
  sign_args = do
    on ←
        wrap (codes "read commit.gpgsign")
          (ask_trimmed host (Command.config_bool (codes "commit.gpgsign")))
    pure (text_eq on (codes "true"))

  unfoldable pub mint_marker : Kind → Text → LeaseOptions → ℕ → Text → M W Text
  mint_marker kind parent opts epoch base = do
    tree ← ask_trimmed host (Command.rev_parse (parent ++ codes "^{tree}"))
    nonce ← λ w. let (o, w') = host.nonce w in (output o, w')
    sign ← sign_args
    ask_trimmed host
        (Command.commit_tree tree parent sign (lease_message kind opts epoch nonce base))

  unfoldable pub relay_base : BaseFunc W
  relay_base opts ref from w =
      let (local, w₁) = local_tip host ref w in
      let (ahead, w₂) = is_ancestor host from local w₁ in
      let (behind, w₃) = is_ancestor host local from w₂ in
      if is_empty local || text_eq local from
      then (done (record { parent = from; seen = local }), w₁)
      else if ahead
      then (done (record { parent = local; seen = local }), w₂)
      else if behind
      then (done (record { parent = from; seen = local }), w₃)
      else (failed (lease_diverges opts.plan_id (lease_branch opts.plan_id) local from), w₃)

  unfoldable pub holder_base : BaseFunc W
  holder_base opts ref from w =
      let (local, w₁) = local_tip host ref w in
      let (behind, w₂) = is_ancestor host local from w₁ in
      if is_empty local || text_eq local from
      then (done (record { parent = from; seen = local }), w₁)
      else if behind
      then (done (record { parent = from; seen = local }), w₂)
      else (failed (local_work opts.plan_id (lease_branch opts.plan_id) local from), w₂)

  -- The end of a transition that a fenced lane loses: a win is the lease, a loss names the mover.
  abbrev pub fence_or : LeaseOptions → Lease → Race → M W Lease
  fence_or opts lease (won tip) w = (done lease, w)
  fence_or opts lease (lost tip) w = let (e, w') = fence_error host opts tip w in (failed e, w')

  -- The same where the loser never held the lease. A win records the token.
  abbrev pub held_or : LeaseOptions → Lease → Race → M W Lease
  held_or opts lease (won tip) w = (done lease, persist_token host opts lease.tip w)
  held_or opts lease (lost tip) w = let (e, w') = held_error host opts tip w in (failed e, w')

  -- `advance` behind the marker that it extends.
  unfoldable pub advance_from : LeaseOptions → Kind → Text → BaseFunc W → Marker → M W Lease
  advance_from opts kind from base m = do
    stand ← base opts (work_ref opts.plan_id) from
    marker ← mint_marker kind stand.parent opts m.epoch []
    race ←
        wrap (codes "push " ++ (kind_text kind ++ (codes " for plan " ++ decimal opts.plan_id)))
          (cas_push host opts (work_ref opts.plan_id) kind marker from stand.seen)
    fence_or opts (lease_of opts marker m.epoch []) race

  unfoldable pub advance : LeaseOptions → Kind → Text → BaseFunc W → M W Lease
  advance opts kind from base w =
      let (found, w') = latest_marker host opts.plan_id from w in
      elim found [
        | none ↦ (failed (no_marker opts.plan_id from), w')
        | some m ↦ advance_from opts kind from base m w'
      ]

  -- `if err == nil { persistToken(…) }`
  abbrev pub persisting : LeaseOptions → Result Lease × W → Result Lease × W
  persisting opts (done lease, w) = (done lease, persist_token host opts lease.tip w)
  persisting opts (failed e, w) = (failed e, w)

  unfoldable pub renew : LeaseOptions → Text → M W Lease
  renew opts from w = persisting opts (advance opts beat from relay_base w)

  unfoldable pub beat_for : LeaseOptions → Text → M W Lease
  beat_for opts from w = persisting opts (advance opts beat from holder_base w)

  -- The second try of `RenewToBind`, from the tip that its own hold moved to.
  abbrev pub retry_own : LeaseOptions → Fault → Option Fence → M W Lease
  retry_own opts e none w = (failed e, w)
  retry_own opts e (some fence) w =
      let again = advance opts beat fence.tip relay_base w in
      if own_hold fence opts then again else (failed e, w)

  abbrev pub or_retry : LeaseOptions → Result Lease × W → Result Lease × W
  or_retry opts (done lease, w) = (done lease, w)
  or_retry opts (failed e, w) = retry_own opts e (as_fence e) w

  unfoldable pub renew_to_bind : LeaseOptions → Text → M W Lease
  renew_to_bind opts from w = persisting opts (or_retry opts (advance opts beat from relay_base w))

  unfoldable pub resume : LeaseOptions → Text → M W Lease
  resume opts from = renew opts from

  unfoldable pub release_lease : LeaseOptions → Text → M W Lease
  release_lease opts from = advance opts release from relay_base

  -- `Takeover` behind the marker that it reads; the base of a takeover is not recorded.
  unfoldable pub takeover_from : LeaseOptions → Text → Marker → M W Lease
  takeover_from opts from m = do
    marker ← mint_marker takeover from opts (next_word m.epoch) []
    seen ← lift (local_tip host (work_ref opts.plan_id))
    race ←
        wrap (codes "push takeover for plan " ++ decimal opts.plan_id)
          (cas_push host opts (work_ref opts.plan_id) takeover marker from seen)
    held_or opts (lease_of opts marker (next_word m.epoch) []) race

  unfoldable pub take_over : LeaseOptions → Text → M W Lease
  take_over opts from w =
      let (found, w') = fetched_marker host opts from w in
      elim found [
        | none ↦ (failed (no_marker opts.plan_id from), w')
        | some m ↦ takeover_from opts from m w'
      ]

  unfoldable pub refuse_diverging_local_branch : LeaseOptions → Text → Text → M W (Unit {0})
  refuse_diverging_local_branch opts ref base_sha w =
      let (local, w₁) = local_tip host ref w in
      let (merged, w₂) = is_ancestor host local base_sha w₁ in
      if is_empty local
      then (done tt, w₁)
      else if merged
      then (done tt, w₂)
      else (failed (local_diverges opts.plan_id (lease_branch opts.plan_id) local), w₂)

  unfoldable pub push_claim_marker : LeaseOptions → Text → Text → ℕ → M W Lease
  push_claim_marker opts ref parent epoch = do
    base_sha ← ask_trimmed host (Command.rev_parse opts.base)
    if is_empty parent then refuse_diverging_local_branch opts ref base_sha else pure tt
    seen ← lift (local_tip host ref)
    marker ← mint_marker claim (if is_empty parent then base_sha else parent) opts epoch base_sha
    race ←
        wrap (codes "push claim for plan " ++ decimal opts.plan_id)
          (cas_push host opts ref claim marker parent seen)
    held_or opts (lease_of opts marker epoch base_sha) race

  -- A ref at a tip: a released one is taken over by the next epoch, any other is held.
  unfoldable pub acquire_at : LeaseOptions → Text → Text → M W Lease
  acquire_at opts ref tip w =
      let (fetched, w₁) = host.run (Command.fetch opts.remote ref) w in
      let (found, w₂) = commit_marker host opts.plan_id tip w₁ in
      let (e, w₃) = held_error host opts tip w₂ in
      if is_release found
      then push_claim_marker opts ref tip (next_epoch found) w₂
      else (failed e, w₃)

  unfoldable pub acquire : LeaseOptions → M W Lease
  acquire opts w =
      let ref = work_ref opts.plan_id in
      let (tip, w₁) = remote_holder host opts.remote ref w in
      if is_empty tip then push_claim_marker opts ref [] 1 w₁ else acquire_at opts ref tip w₁
