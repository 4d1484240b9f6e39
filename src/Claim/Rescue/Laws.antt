-- ===== src/Claim/Rescue/Laws.antt =====
-- internal/claim/lease.go: what is kept of a lease's work when its ref goes.
use frit.Base.{
  ◌≡◌, refl, sym, ◌∙◌, ap, subst, ◌≢◌, ◌⊎◌, inl, inr, Bool, true, false, Bool-cases, none, [], Text,
  is_empty, text_eq,
}
use mathlib.Core.Bool.{false≢true}
use frit.Base.Strings.Laws.{text_eq_iff}
use frit.Claim.{LeaseOptions}
use frit.Claim.Fault.{Result, done, failed}
use frit.Claim.Host.{Command, Host}
use frit.Claim.Remote.{Remote, Extends, Extends-refl, Extends-trans, Seen, Seen-widen, Seen-Extends}
use frit.Claim.Push.{remote_holder_err, cas_delete, park}
use frit.Claim.Push.Laws.{
  Reads, remote_holder_err-Reads, empty_of, OnDone, park_sound, cas_delete_sound,
}
use frit.Claim.Read.{work_ref, has_unlanded, checked_out}
use frit.Claim.Refs.{lease_branch, rescue_ref}
use frit.Claim.Rescue.{
  parked, park_unlanded, drop_local, deleted, delete_behind, scavenge_at, scavenge, yield_at,
  yield_lane,
}
use frit.Claim.Rescue.Reads.{has_unlanded-Grows}

module _ {W : Type 0} {host : Host W} (remote : Remote host) where
  open remote use {run_grows}

  Reads-Extends :
      (ref : Text) (w w' : W) (r : Result Text) → Reads remote ref w w' r → Extends remote w w'
  Reads-Extends ref w w' (done v) s = Seen-Extends remote ref v w w' s
  Reads-Extends ref w w' (failed e) s = s

  -- What a park left of a tip: the name of the rescue ref, at which the remote pointed at the tip.
  abbrev pub Parked : LeaseOptions → Text → W → W → Text → Type 0
  Parked opts tip w w' rescue =
      (rescue ≡ rescue_ref opts.plan_id opts.holder tip) × Seen remote rescue tip w w'

  parked-Parked :
      (opts : LeaseOptions) (tip : Text) (w : W) (rescue : Text)
      → (parked host opts
          (rescue_ref opts.plan_id opts.holder tip)
          (park host opts (rescue_ref opts.plan_id opts.holder tip) tip w)).0
        ≡ done rescue
      → Parked opts tip w
          (parked host opts
            (rescue_ref opts.plan_id opts.holder tip)
            (park host opts (rescue_ref opts.plan_id opts.holder tip) tip w)).1
          rescue
  parked-Parked opts tip w rescue =
      go (park host opts ref tip w) refl (park_sound remote opts ref tip w)
    where
      ref : Text
      ref = rescue_ref opts.plan_id opts.holder tip

      go :
          (r : Result (Unit {0}) × W)
          → park host opts ref tip w ≡ r
          → OnDone remote
              (λ _. Seen remote ref tip w (park host opts ref tip w).1)
              (park host opts ref tip w).0
          → (parked host opts ref (park host opts ref tip w)).0 ≡ done rescue
          → Parked opts tip w (parked host opts ref (park host opts ref tip w)).1 rescue
      go (done u, w') e s = rw e λ k.
          let same : ref ≡ rescue = cc k in
          subst (λ x. Parked opts tip w w' x) same
            (
              refl,
              subst
                  (λ (x : Result (Unit {0}) × W).
                    OnDone remote (λ _. Seen remote ref tip w x.1) x.0)
                  e s,
            )
      go (failed x, w') e s = rw e λ k. absurd (cc)

  yield_at_lem :
      (opts : LeaseOptions) (local : Text) (r : Result Text) (w : W) (rescue : Text)
      → (yield_at host opts local r w).0 ≡ done rescue
      → (holder : Text) × (r ≡ done holder)
        × (holder ≢ local)
        × Parked opts local w (yield_at host opts local r w).1 rescue
  unfolding yield_at
  yield_at_lem opts local (failed e) w rescue = λ k. absurd (cc)
  yield_at_lem opts local (done holder) w rescue = elim (Bool-cases (text_eq holder local)) [
    | inl same ↦ rw same λ k. absurd (cc)
    | inr other ↦ rw other λ k. (
      holder,
      refl,
      (λ e. false≢true (sym other ∙ (text_eq_iff holder local).1 e)),
      parked-Parked opts local w rescue k,
    )
  ]

  -- A yield that succeeds was of a lane with a tip of its own, at which the work ref on the remote was
  -- read not to point; at some moment of the call the rescue ref that it names, by the plan, the
  -- holder and the tip, pointed at the lane's tip on the remote.
  pub yield_sound :
      (opts : LeaseOptions) (local : Text) (w : W) (rescue : Text)
      → (yield_lane host opts local w).0 ≡ done rescue
      → (is_empty local ≡ false)
        × (holder : Text) × ((remote_holder_err host opts.remote (work_ref opts.plan_id) w).0
            ≡ done holder)
        × (holder ≢ local)
        × Parked opts local w (yield_lane host opts local w).1 rescue
  unfolding yield_lane
  yield_sound opts local w rescue = elim (Bool-cases (is_empty local)) [
    | inl bare ↦ rw (yield_lane, bare) λ k. absurd (cc)
    | inr own ↦
        rw (yield_lane, own)
          λ k.
            let (holder, e, n, p) =
              yield_at_lem opts local
                (remote_holder_err host opts.remote (work_ref opts.plan_id) w).0 read rescue k in
            (
              refl,
              holder,
              e,
              n,
              (
                p.0,
                Seen-widen remote rescue local w read _ _
                    (Reads-Extends (work_ref opts.plan_id) w read _
                      (remote_holder_err-Reads remote opts.remote (work_ref opts.plan_id) w))
                    p.1 (Extends-refl remote _),
              ),
            )
  ]
    where
      read : W
      read = (remote_holder_err host opts.remote (work_ref opts.plan_id) w).1

  module _ (opts : LeaseOptions) (tip : Text) where
    -- What a scavenge keeps of the chain before it deletes the ref: nothing where the chain was judged
    -- to hold no unlanded work, else the tip on the rescue ref that it names.
    abbrev pub Kept : W → W → Text → Type 0
    Kept w w' rescue =
        ((has_unlanded host opts tip w).0 ≡ done false) × (rescue ≡ [])
        ⊎ ((has_unlanded host opts tip w).0 ≡ done true) × Parked opts tip w w' rescue

    pub park_unlanded-Kept :
        (w : W) (rescue : Text)
        → (park_unlanded host opts tip w).0 ≡ done rescue
        → Kept w (park_unlanded host opts tip w).1 rescue
          × Extends remote w (park_unlanded host opts tip w).1
    unfolding park_unlanded
    park_unlanded-Kept w rescue = go (has_unlanded host opts tip w).0 refl
      where
        w₁ : W
        w₁ = (has_unlanded host opts tip w).1

        go :
            (r : Result Bool)
            → (has_unlanded host opts tip w).0 ≡ r
            → (park_unlanded host opts tip w).0 ≡ done rescue
            → Kept w (park_unlanded host opts tip w).1 rescue
              × Extends remote w (park_unlanded host opts tip w).1
        go (failed x) e = rw (park_unlanded, e) λ k. absurd (cc)
        go (done false) e =
            rw (park_unlanded, e) λ k. (inl (refl, cc k), has_unlanded-Grows remote opts tip w)
        go (done true) e =
            rw (park_unlanded, e)
              λ k.
                let (n, s) = parked-Parked opts tip w₁ rescue k in
                let kept =
                  Seen-widen remote rescue tip w w₁ _ _ (has_unlanded-Grows remote opts tip w) s
                    (Extends-refl remote _) in
                (inr (refl, (n, kept)), Seen-Extends remote rescue tip w _ kept)

  drop_local-Extends : (opts : LeaseOptions) (w : W) → Extends remote w (drop_local host opts w)
  unfolding drop_local checked_out
  drop_local-Extends opts w = elim (Bool-cases (checked_out host (lease_branch opts.plan_id) w).0) [
    | inl on ↦ rw on (run_grows Command.worktree_list w)
    | inr off ↦ rw off (
        Extends-trans remote w (checked_out host (lease_branch opts.plan_id) w).1 _
          (run_grows Command.worktree_list w)
          (run_grows (Command.delete_ref (work_ref opts.plan_id)) _))
  ]

  deleted-Seen :
      (opts : LeaseOptions) (from rescue : Text) (w : W)
      → (deleted host opts rescue (cas_delete host opts (work_ref opts.plan_id) from w)).0.err
        ≡ none
      → ((deleted host opts rescue (cas_delete host opts (work_ref opts.plan_id) from w)).0.rescue
          ≡ rescue)
        × Seen remote
            (work_ref opts.plan_id)
            []
            w
            (deleted host opts rescue (cas_delete host opts (work_ref opts.plan_id) from w)).1
  deleted-Seen opts from rescue w =
      go (cas_delete host opts (work_ref opts.plan_id) from w)
        (cas_delete_sound remote opts (work_ref opts.plan_id) from w)
    where
      go :
          (r : Result (Unit {0}) × W)
          → OnDone remote (λ _. Seen remote (work_ref opts.plan_id) [] w r.1) r.0
          → (deleted host opts rescue r).0.err ≡ none
          → ((deleted host opts rescue r).0.rescue ≡ rescue)
            × Seen remote (work_ref opts.plan_id) [] w (deleted host opts rescue r).1
      go (done u, w') s k = (
        refl,
        Seen-widen remote (work_ref opts.plan_id) [] w w w' _ (Extends-refl remote w) s
            (drop_local-Extends opts w'),
      )
      go (failed x, w') s k = absurd (cc)

  -- What a scavenge that finds the ref at the observed tip has done when it ends without an error.
  abbrev pub Swept : LeaseOptions → Text → W → W → Text → Type 0
  Swept opts from w w' rescue =
      (mid : W) × Kept opts from w mid rescue
      × Extends remote w mid
      × Seen remote (work_ref opts.plan_id) [] mid w'

  delete_behind-Swept :
      (opts : LeaseOptions) (from : Text) (w : W)
      → (delete_behind host opts from (park_unlanded host opts from w)).0.err ≡ none
      → Swept opts from w
          (delete_behind host opts from (park_unlanded host opts from w)).1
          (delete_behind host opts from (park_unlanded host opts from w)).0.rescue
  delete_behind-Swept opts from w =
      go (park_unlanded host opts from w) (park_unlanded-Kept opts from w)
    where
      go :
          (r : Result Text × W)
          → ((rescue : Text)
              → r.0 ≡ done rescue
              → Kept opts from w r.1 rescue × Extends remote w r.1)
          → (delete_behind host opts from r).0.err ≡ none
          → Swept opts from w
              (delete_behind host opts from r).1
              (delete_behind host opts from r).0.rescue
      go (done rescue, mid) kept k =
          let (same, gone) = deleted-Seen opts from rescue mid k in
          (mid, rw same (kept rescue refl).0, (kept rescue refl).1, gone)
      go (failed x, mid) kept k = absurd (cc)

  -- A scavenge that ends without an error either read the ref as gone, and parked nothing; or read the
  -- observed tip, and before the delete either judged its chain to hold no unlanded work or had the
  -- tip on the rescue ref that it names, on the remote; and the work ref was absent on the remote at
  -- some moment behind that.
  pub scavenge_sound :
      (opts : LeaseOptions) (from : Text) (w : W)
      → (scavenge host opts from w).0.err ≡ none
      → let (now, read) = remote_holder_err host opts.remote (work_ref opts.plan_id) w in
        ((now ≡ done []) × ((scavenge host opts from w).0.rescue ≡ []))
        ⊎ ((now ≡ done from)
            × Swept opts from read
                (scavenge host opts from w).1
                (scavenge host opts from w).0.rescue)
  unfolding scavenge scavenge_at
  scavenge_sound opts from w = go (remote_holder_err host opts.remote (work_ref opts.plan_id) w)
    where
      go :
          (r : Result Text × W)
          → (scavenge_at host opts from r.0 r.1).0.err ≡ none
          → ((r.0 ≡ done []) × ((scavenge_at host opts from r.0 r.1).0.rescue ≡ []))
            ⊎ ((r.0 ≡ done from)
                × Swept opts from r.1
                    (scavenge_at host opts from r.0 r.1).1
                    (scavenge_at host opts from r.0 r.1).0.rescue)
      go (failed e, w') = λ k. absurd (cc)
      go (done now, w') = elim (Bool-cases (is_empty now)) [
        | inl gone ↦ rw gone λ k. inl (ap done (empty_of remote now gone), refl)
        | inr there ↦ elim (Bool-cases (text_eq now from)) [
          | inl same ↦
              rw (there, same)
                λ k.
                  inr (ap done ((text_eq_iff now from).0 same), delete_behind-Swept opts from w' k)
          | inr moved ↦ rw (there, moved) λ k. absurd (cc)
        ]
      ]
