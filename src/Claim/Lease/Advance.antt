-- ===== src/Claim/Lease/Advance.antt =====
-- internal/claim/lease.go: what a lease says that a renewal, a release or a takeover reports.
use frit.Base.{ℕ, ◌≡◌, refl, Option, none, some, [], ◌++◌, Text, codes}
use frit.Base.Strings.Decimal.{decimal}
use frit.Claim.{Kind, kind_text, LeaseOptions, Marker}
use frit.Claim.Effects.{M, ◌>>=◌, wrap}
use frit.Claim.Fault.{done}
use frit.Claim.Host.{Host}
use frit.Claim.Remote.{Remote, Extends-refl, Seen, Seen-widen}
use frit.Claim.Push.{cas_push}
use frit.Claim.Push.Laws.{cas_push_sound}
use frit.Claim.Read.{work_ref, latest_marker}
use frit.Claim.Refs.{lease_branch}
use frit.Claim.Lease.{
  Lease, Stand, lease_of, fence_or, held_or, mint_marker, BaseFunc, advance_from, advance,
}
use frit.Claim.Lease.Grows.{Grows, mint_marker-Grows, latest_marker-Grows, persist_token-Grows}
use frit.Claim.Lease.Mint.{IsMinted, mint_marker-IsMinted}
use frit.Claim.Lease.Laws.{Takes, >>=-Takes, >>=-TakesOf, race-Takes, wrapped-RaceShows}

module _ {W : Type 0} {host : Host W} (remote : Remote host) where
  -- The branch and the epoch of a lease, whose tip git answered for a marker of the kind in that
  -- epoch.
  abbrev pub Carries : LeaseOptions → Kind → ℕ → Lease → Type 0
  Carries opts kind epoch l =
      (l.branch ≡ lease_branch opts.plan_id)
      × (l.epoch ≡ epoch)
      × IsMinted host opts kind epoch l.tip

  -- The push of a transition whose loser is fenced.
  fenced_push-Takes :
      (opts : LeaseOptions) (kind : Kind) (what marker from seen : Text) (epoch : ℕ)
      → IsMinted host opts kind epoch marker
      → Takes remote (work_ref opts.plan_id) (Carries opts kind epoch) (
          wrap what (cas_push host opts (work_ref opts.plan_id) kind marker from seen)
          >>= fence_or host opts (lease_of opts marker epoch []))
  fenced_push-Takes opts kind what marker from seen epoch minted =
      race-Takes remote (work_ref opts.plan_id) (Carries opts kind epoch)
        (wrap what (cas_push host opts (work_ref opts.plan_id) kind marker from seen)) marker
        (lease_of opts marker epoch []) (fence_or host opts (lease_of opts marker epoch []))
        (λ w.
          wrapped-RaceShows remote (work_ref opts.plan_id) marker what
            (cas_push host opts (work_ref opts.plan_id) kind marker from seen) w
            (cas_push_sound remote opts (work_ref opts.plan_id) kind marker from seen w))
        refl (refl, refl, minted) (λ t w. Extends-refl remote w) (λ t w. refl) (λ t w. (_, refl))

  -- The push of a transition whose winner keeps its token.
  pub held_push-Takes :
      (opts : LeaseOptions) (kind : Kind) (what marker from seen base : Text) (epoch : ℕ)
      → IsMinted host opts kind epoch marker
      → Takes remote (work_ref opts.plan_id) (Carries opts kind epoch) (
          wrap what (cas_push host opts (work_ref opts.plan_id) kind marker from seen)
          >>= held_or host opts (lease_of opts marker epoch base))
  held_push-Takes opts kind what marker from seen base epoch minted =
      race-Takes remote (work_ref opts.plan_id) (Carries opts kind epoch)
        (wrap what (cas_push host opts (work_ref opts.plan_id) kind marker from seen)) marker
        (lease_of opts marker epoch base) (held_or host opts (lease_of opts marker epoch base))
        (λ w.
          wrapped-RaceShows remote (work_ref opts.plan_id) marker what
            (cas_push host opts (work_ref opts.plan_id) kind marker from seen) w
            (cas_push_sound remote opts (work_ref opts.plan_id) kind marker from seen w))
        refl (refl, refl, minted) (λ t w. persist_token-Grows remote opts marker w) (λ t w. refl)
        (λ t w. (_, refl))

  module _ (opts : LeaseOptions) (kind : Kind) (from : Text) (base : BaseFunc W) (m : Marker) where
    abbrev push_text : Text
    push_text = codes "push " ++ (kind_text kind ++ (codes " for plan " ++ decimal opts.plan_id))

    abbrev pushed : Stand → Text → M W Lease
    pushed stand marker =
        wrap push_text (cas_push host opts (work_ref opts.plan_id) kind marker from stand.seen)
        >>= fence_or host opts (lease_of opts marker m.epoch [])

    abbrev minted : Stand → M W Lease
    minted stand = mint_marker host kind stand.parent opts m.epoch [] >>= pushed stand

    advance_from-Takes :
        Grows remote (base opts (work_ref opts.plan_id) from)
        → Takes remote
            (work_ref opts.plan_id)
            (Carries opts kind m.epoch)
            (advance_from host opts kind from base m)
    unfolding advance_from
    advance_from-Takes g =
        >>=-Takes remote (work_ref opts.plan_id) (Carries opts kind m.epoch)
          (base opts (work_ref opts.plan_id) from) minted g
          (λ stand.
            >>=-TakesOf remote (work_ref opts.plan_id) (Carries opts kind m.epoch)
              (IsMinted host opts kind m.epoch) (mint_marker host kind stand.parent opts m.epoch [])
              (pushed stand) (mint_marker-Grows remote kind stand.parent opts m.epoch [])
              (mint_marker-IsMinted host kind stand.parent opts m.epoch [])
              (λ marker. fenced_push-Takes opts kind push_text marker from stand.seen m.epoch))

  -- A renewal or a release that reports a lease read a marker from the tip it advances, and its
  -- lease is on the plan's branch in that marker's epoch. Its tip is what git answers, in some
  -- state, when it is asked for a commit with a marker of that transition's kind and that epoch,
  -- and at some moment of the call the work ref on the remote pointed at it. The base check only
  -- adds to the remote's history.
  pub advance_sound :
      (opts : LeaseOptions) (kind : Kind) (from : Text) (base : BaseFunc W)
      → Grows remote (base opts (work_ref opts.plan_id) from)
      → (w : W) (l : Lease) → (advance host opts kind from base w).0 ≡ done l
      → (m : Marker) × ((latest_marker host opts.plan_id from w).0 ≡ some m)
        × Carries opts kind m.epoch l
        × Seen remote (work_ref opts.plan_id) l.tip w (advance host opts kind from base w).1
  unfolding advance
  advance_sound opts kind from base g w l = go (latest_marker host opts.plan_id from w).0 refl
    where
      go :
          (found : Option Marker)
          → (latest_marker host opts.plan_id from w).0 ≡ found
          → (advance host opts kind from base w).0 ≡ done l
          → (m : Marker) × ((latest_marker host opts.plan_id from w).0 ≡ some m)
            × Carries opts kind m.epoch l
            × Seen remote (work_ref opts.plan_id) l.tip w (advance host opts kind from base w).1
      go none e = rw (e, advance) λ k. absurd (cc)
      go (some m) e =
          rw (e, advance)
            λ k.
              let (p, s) =
                advance_from-Takes opts kind from base m g
                  (latest_marker host opts.plan_id from w).1 l k in
              (
                m,
                refl,
                p,
                Seen-widen remote (work_ref opts.plan_id) l.tip w _ _ _
                    (latest_marker-Grows remote opts.plan_id from w) s (Extends-refl remote _),
              )
