-- ===== src/Claim/Lease/Take.antt =====
-- internal/claim/lease.go: what a lease says that a takeover, an acquisition or a renewal reports.
use frit.Base.{
  sym, subst, ℕ, ◌+◌, ◌%◌, ◌^◌, ◌≡◌, refl, ◌∙◌, ◌⊎◌, inl, inr, true, false, Bool-cases, Option,
  none, some, [], ◌++◌, Text, codes, is_empty, if◌then◌else◌,
}
use frit.Base.Strings.Decimal.{decimal}
use frit.Claim.{Kind, claim, beat, release, takeover, LeaseOptions, Marker}
use frit.Claim.Effects.{M, ◌>>=◌, ◌>>◌, pure, lift, wrap}
use frit.Claim.Fault.{Result, done, failed}
use frit.Claim.Host.{Command, Host}
use frit.Claim.Remote.{Remote, Extends, Extends-refl, Extends-trans, Seen, Seen-widen}
use frit.Claim.Push.{remote_holder, local_tip, cas_push}
use frit.Claim.Read.{work_ref, ask_trimmed, commit_marker, latest_marker, fetched_marker}
use frit.Claim.Refs.{lease_branch}
use frit.Claim.Lease.{
  Lease, lease_of, held_or, mint_marker, relay_base, advance, takeover_from, take_over,
  push_claim_marker, refuse_diverging_local_branch, acquire_at, acquire, is_release, next_epoch,
  renew, persisting,
}
use frit.Claim.Lease.Grows.{
  Grows, ask_trimmed-Grows, refuse-Grows, commit_marker-Grows, remote_holder-Grows,
  mint_marker-Grows, local_tip-Grows, fetched_marker-Grows, persist_token-Grows, relay_base-Grows,
}
use frit.Claim.Lease.Mint.{IsMinted, mint_marker-IsMinted}
use frit.Claim.Lease.Laws.{Takes, >>=-Takes, >>=-TakesOf}
use frit.Claim.Lease.Advance.{Carries, held_push-Takes, advance_sound}

module _ {W : Type 0} {host : Host W} (remote : Remote host) where
  open remote use {run_grows}

  module _ (opts : LeaseOptions) (from : Text) (m : Marker) where
    abbrev push_text : Text
    push_text = codes "push takeover for plan " ++ decimal opts.plan_id

    abbrev pushed : Text → Text → M W Lease
    pushed marker seen =
        wrap push_text (cas_push host opts (work_ref opts.plan_id) takeover marker from seen)
        >>= held_or host opts (lease_of opts marker ((m.epoch + 1) % 2 ^ 64) [])

    abbrev minted : Text → M W Lease
    minted marker = lift (local_tip host (work_ref opts.plan_id)) >>= pushed marker

    takeover_from-Takes :
        Takes remote
          (work_ref opts.plan_id)
          (Carries remote opts takeover ((m.epoch + 1) % 2 ^ 64))
          (takeover_from host opts from m)
    unfolding takeover_from
    takeover_from-Takes =
        >>=-TakesOf remote (work_ref opts.plan_id)
          (Carries remote opts takeover ((m.epoch + 1) % 2 ^ 64))
          (IsMinted host opts takeover ((m.epoch + 1) % 2 ^ 64))
          (mint_marker host takeover from opts ((m.epoch + 1) % 2 ^ 64) []) minted
          (mint_marker-Grows remote takeover from opts ((m.epoch + 1) % 2 ^ 64) [])
          (mint_marker-IsMinted host takeover from opts ((m.epoch + 1) % 2 ^ 64) [])
          (λ marker made.
            >>=-Takes remote (work_ref opts.plan_id)
              (Carries remote opts takeover ((m.epoch + 1) % 2 ^ 64))
              (lift (local_tip host (work_ref opts.plan_id))) (pushed marker)
              (local_tip-Grows remote (work_ref opts.plan_id))
              (λ seen.
                held_push-Takes remote opts takeover push_text marker from seen []
                  ((m.epoch + 1) % 2 ^ 64) made))

  -- A takeover that reports a lease read a marker from the tip it takes over, fetched where it was
  -- not at hand; its lease is on the plan's branch one epoch above that marker's, in the 64-bit
  -- arithmetic of an int, where the largest is followed by the smallest. Its tip is what git
  -- answers, in some state, when it is asked for a commit with a takeover marker of that epoch, and
  -- at some moment of the call the work ref on the remote pointed at it.
  pub take_over_sound :
      (opts : LeaseOptions) (from : Text) (w : W) (l : Lease)
      → (take_over host opts from w).0 ≡ done l
      → (m : Marker) × ((fetched_marker host opts from w).0 ≡ some m)
        × Carries remote opts takeover ((m.epoch + 1) % 2 ^ 64) l
        × Seen remote (work_ref opts.plan_id) l.tip w (take_over host opts from w).1
  unfolding take_over
  take_over_sound opts from w l = go (fetched_marker host opts from w).0 refl
    where
      go :
          (found : Option Marker)
          → (fetched_marker host opts from w).0 ≡ found
          → (take_over host opts from w).0 ≡ done l
          → (m : Marker) × ((fetched_marker host opts from w).0 ≡ some m)
            × Carries remote opts takeover ((m.epoch + 1) % 2 ^ 64) l
            × Seen remote (work_ref opts.plan_id) l.tip w (take_over host opts from w).1
      go none e = rw (e, take_over) λ k. absurd (cc)
      go (some m) e =
          rw (e, take_over)
            λ k.
              let (p, s) =
                takeover_from-Takes opts from m (fetched_marker host opts from w).1 l k in
              (
                m,
                refl,
                p,
                Seen-widen remote (work_ref opts.plan_id) l.tip w _ _ _
                    (fetched_marker-Grows remote opts from w) s (Extends-refl remote _),
              )

  module _ (opts : LeaseOptions) (ref_parent : Text) (epoch : ℕ) where
    abbrev claim_text : Text
    claim_text = codes "push claim for plan " ++ decimal opts.plan_id

    abbrev claim_pushed : Text → Text → Text → M W Lease
    claim_pushed base_sha seen marker =
        wrap claim_text (cas_push host opts (work_ref opts.plan_id) claim marker ref_parent seen)
        >>= held_or host opts (lease_of opts marker epoch base_sha)

    abbrev claim_minted : Text → Text → M W Lease
    claim_minted base_sha seen =
        mint_marker host claim (if is_empty ref_parent then base_sha else ref_parent) opts epoch
          base_sha
        >>= claim_pushed base_sha seen

    abbrev claim_read : Text → M W Lease
    claim_read base_sha = lift (local_tip host (work_ref opts.plan_id)) >>= claim_minted base_sha

    abbrev refused : Text → M W (Unit {0})
    refused base_sha =
        if is_empty ref_parent
        then refuse_diverging_local_branch host opts (work_ref opts.plan_id) base_sha
        else pure tt

    refused-Grows : (base_sha : Text) → Grows remote (refused base_sha)
    refused-Grows base_sha = elim (Bool-cases (is_empty ref_parent)) [
      | inl absent ↦ rw absent (refuse-Grows remote opts (work_ref opts.plan_id) base_sha)
      | inr there ↦ rw there (λ w. Extends-refl remote w)
    ]

    abbrev claim_checked : Text → M W Lease
    claim_checked base_sha = refused base_sha >> claim_read base_sha

    push_claim-Takes :
        Takes remote
          (work_ref opts.plan_id)
          (Carries remote opts claim epoch)
          (push_claim_marker host opts (work_ref opts.plan_id) ref_parent epoch)
    unfolding push_claim_marker
    push_claim-Takes =
        >>=-Takes remote (work_ref opts.plan_id) (Carries remote opts claim epoch)
          (ask_trimmed host (Command.rev_parse opts.base)) claim_checked
          (ask_trimmed-Grows remote (Command.rev_parse opts.base))
          (λ base_sha.
            >>=-Takes remote (work_ref opts.plan_id) (Carries remote opts claim epoch)
              (refused base_sha) (λ _. claim_read base_sha) (refused-Grows base_sha)
              (λ _.
                >>=-Takes remote (work_ref opts.plan_id) (Carries remote opts claim epoch)
                  (lift (local_tip host (work_ref opts.plan_id))) (claim_minted base_sha)
                  (local_tip-Grows remote (work_ref opts.plan_id))
                  (λ seen.
                    >>=-TakesOf remote (work_ref opts.plan_id) (Carries remote opts claim epoch)
                      (IsMinted host opts claim epoch)
                      (mint_marker host claim (if is_empty ref_parent then base_sha else ref_parent)
                        opts epoch base_sha)
                      (claim_pushed base_sha seen)
                      (mint_marker-Grows remote claim
                        (if is_empty ref_parent then base_sha else ref_parent) opts epoch base_sha)
                      (mint_marker-IsMinted host claim
                        (if is_empty ref_parent then base_sha else ref_parent) opts epoch base_sha)
                      (λ marker made.
                        held_push-Takes remote opts claim claim_text marker ref_parent seen base_sha
                          epoch made))))

  -- The state behind the read of the ref that an acquisition starts with, and behind its fetch.
  abbrev pub looked : LeaseOptions → W → W
  looked opts w = (remote_holder host opts.remote (work_ref opts.plan_id) w).1

  abbrev pub fetched : LeaseOptions → W → W
  fetched opts w = (host.run (Command.fetch opts.remote (work_ref opts.plan_id)) (looked opts w)).1

  -- Where an acquisition may claim: an absent ref, in epoch 1, or a tip that the read of the ref
  -- names and whose commit is a release marker, in the epoch above.
  abbrev pub Claimable : LeaseOptions → W → ℕ → Type 0
  Claimable opts w epoch =
      (is_empty (remote_holder host opts.remote (work_ref opts.plan_id) w).0 ≡ true) × (epoch ≡ 1)
      ⊎ (m : Marker) × ((commit_marker host opts.plan_id
            (remote_holder host opts.remote (work_ref opts.plan_id) w).0 (fetched opts w)).0
          ≡ some m)
        × (m.kind ≡ release)
        × (epoch ≡ (m.epoch + 1) % 2 ^ 64)

  release_kind : (k : Kind) → (elim k [ release ↦ true | _ ↦ false ]) ≡ true → k ≡ release
  release_kind release h = refl
  release_kind claim h = absurd (cc)
  release_kind beat h = absurd (cc)
  release_kind takeover h = absurd (cc)

  released_marker :
      (found : Option Marker)
      → is_release found ≡ true
      → (m : Marker) × (found ≡ some m)
        × (m.kind ≡ release)
        × (next_epoch found ≡ (m.epoch + 1) % 2 ^ 64)
  released_marker none h = absurd (cc)
  released_marker (some m) h = (m, refl, release_kind m.kind h, refl)

  -- An acquisition that reports a lease read the ref as absent, as it reads an unreadable remote
  -- too, and starts epoch 1, or found a release marker at its tip and starts the epoch above, in
  -- the 64-bit arithmetic of an int, where the largest is followed by the smallest. Its tip is what
  -- git answers, in some state, when it is asked for a commit with a claim marker of that epoch,
  -- and at some moment of the call the work ref on the remote pointed at it.
  pub acquire_sound :
      (opts : LeaseOptions) (w : W) (l : Lease)
      → (acquire host opts w).0 ≡ done l
      → (l.branch ≡ lease_branch opts.plan_id)
        × Claimable opts w l.epoch
        × IsMinted host opts claim l.epoch l.tip
        × Seen remote (work_ref opts.plan_id) l.tip w (acquire host opts w).1
  unfolding acquire acquire_at
  acquire_sound opts w l = elim (Bool-cases (is_empty tip)) [
    | inl absent ↦
        rw (acquire, absent)
          λ k.
            let (p, s) = push_claim-Takes opts [] 1 (looked opts w) l k in
            (
              p.0,
              inl (refl, p.1),
              subst (λ e. IsMinted host opts claim e l.tip) (sym p.1) p.2,
              Seen-widen remote (work_ref opts.plan_id) l.tip w (looked opts w) _ _
                  (remote_holder-Grows remote opts.remote (work_ref opts.plan_id) w) s
                  (Extends-refl remote _),
            )
    | inr there ↦ elim (Bool-cases (is_release found)) [
      | inl free ↦
          rw (acquire, there, acquire_at, free)
            λ k.
              let (p, s) = push_claim-Takes opts tip (next_epoch found) read l k in
              let (m, e, r, n) = released_marker found free in
              (
                p.0,
                inr (m, e, r, p.1 ∙ n),
                subst (λ e. IsMinted host opts claim e l.tip) (sym p.1) p.2,
                Seen-widen remote (work_ref opts.plan_id) l.tip w read _ _ grows s
                    (Extends-refl remote _),
              )
      | inr taken ↦ rw (acquire, there, acquire_at, taken) λ k. absurd (cc)
    ]
  ]
    where
      tip : Text
      tip = (remote_holder host opts.remote (work_ref opts.plan_id) w).0

      read : W
      read = (commit_marker host opts.plan_id tip (fetched opts w)).1

      grows : Extends remote w read
      grows =
          Extends-trans remote w (looked opts w) read
            (remote_holder-Grows remote opts.remote (work_ref opts.plan_id) w)
            (Extends-trans remote (looked opts w) (fetched opts w) read
              (run_grows (Command.fetch opts.remote (work_ref opts.plan_id)) (looked opts w))
              (commit_marker-Grows remote opts.plan_id tip (fetched opts w)))

      found : Option Marker
      found = (commit_marker host opts.plan_id tip (fetched opts w)).0

  pub persisted-Extends :
      (opts : LeaseOptions) (r : Result Lease × W) → Extends remote r.1 (persisting host opts r).1
  persisted-Extends opts (done l, w) = persist_token-Grows remote opts l.tip w
  persisted-Extends opts (failed e, w) = Extends-refl remote w

  pub persisted_done :
      (opts : LeaseOptions) (r : Result Lease × W) (l : Lease)
      → (persisting host opts r).0 ≡ done l
      → r.0 ≡ done l
  persisted_done opts (done x, w) l k = k
  persisted_done opts (failed e, w) l k = absurd (cc)

  -- A renewal that reports a lease keeps the epoch of the latest marker from the tip it advances.
  -- Its tip is what git answers, in some state, when it is asked for a commit with a beat marker of
  -- that epoch, and at some moment of the call, before or behind the write of the token, the work
  -- ref on the remote pointed at it.
  pub renew_sound :
      (opts : LeaseOptions) (from : Text) (w : W) (l : Lease)
      → (renew host opts from w).0 ≡ done l
      → (m : Marker) × ((latest_marker host opts.plan_id from w).0 ≡ some m)
        × Carries remote opts beat m.epoch l
        × Seen remote (work_ref opts.plan_id) l.tip w (renew host opts from w).1
  unfolding renew
  renew_sound opts from w l k =
      let r = advance host opts beat from (relay_base host) w in
      let (m, e, p, s) =
        advance_sound remote opts beat from (relay_base host)
          (relay_base-Grows remote opts (work_ref opts.plan_id) from) w l
          (persisted_done opts r l k) in
      (
        m,
        e,
        p,
        Seen-widen remote (work_ref opts.plan_id) l.tip w w r.1 _ (Extends-refl remote w) s
            (persisted-Extends opts r),
      )
