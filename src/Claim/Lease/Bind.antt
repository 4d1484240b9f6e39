-- ===== src/Claim/Lease/Bind.antt =====
-- internal/claim/lease.go: what a lease says that `RenewToBind` reports, and what `OwnAdvance` finds.
use frit.Base.{
  ℕ, ◌≡◌, refl, ◌⊎◌, inl, inr, ◌≢◌, Bool, true, false, not, Bool-cases, Option, none, some, Text,
  text_eq, is_empty, ◌==◌, Option-cases, [], ◌∷◌, ◌||◌, ◌&&◌, ==_iff, and-true, arith,
}
use frit.Base.Strings.Laws.{text_eq_iff}
use frit.Claim.{Kind, claim, beat, release, takeover, LeaseOptions, Marker}
use frit.Claim.Fault.{Fault, Fence, as_fence, Result, done, failed}
use frit.Claim.Host.{Host}
use frit.Claim.Remote.{Remote, Extends-refl, Seen, Seen-widen}
use frit.Claim.Read.{work_ref, is_ancestor, commit_marker, latest_marker, own_advance}
use frit.Claim.Lease.{
  Lease, relay_base, advance, own_hold, marker_is_own, retry_own, or_retry, renew_to_bind,
}
use frit.Claim.Lease.Grows.{relay_base-Grows}
use frit.Claim.Lease.Advance.{Carries, advance_sound}
use frit.Claim.Lease.Take.{persisted-Extends, persisted_done}

-- The mover that a fence names: a tip, whose marker has the holder and the lane of these options.
pub record OwnHold (opts : LeaseOptions) (fence : Fence) : Type 0 where
  pub moved : fence.tip ≢ []
  pub marker : Marker
  pub read : fence.marker ≡ some marker
  pub named : marker.holder ≢ []
  pub same_holder : marker.holder ≡ opts.holder
  pub same_lane : marker.lane ≡ opts.lane

named_by : (t : Text) → not (is_empty t) ≡ true → t ≢ []
named_by [] h = absurd (cc)
named_by (c ∷ cs) h = λ e. cc

own_hold-OwnHold :
    (opts : LeaseOptions) (fence : Fence) → own_hold fence opts ≡ true → OwnHold opts fence
unfolding own_hold
own_hold-OwnHold opts fence own =
    let (moved, mine) = and-true _ (marker_is_own fence.marker opts) own in
    elim (Option-cases fence.marker) [
      | inl e ↦ let never : false ≡ true = rw e at mine in absurd (cc)
      | inr (m, e) ↦
          let (named, alike) =
            and-true (not (is_empty m.holder))
              (text_eq m.holder opts.holder && text_eq m.lane opts.lane) (rw e at mine) in
          let (holder, lane) =
            and-true (text_eq m.holder opts.holder) (text_eq m.lane opts.lane) alike in
          record {
            moved = named_by fence.tip moved;
            marker = m;
            read = e;
            named = named_by m.holder named;
            same_holder = (text_eq_iff m.holder opts.holder).0 holder;
            same_lane = (text_eq_iff m.lane opts.lane).0 lane;
          }
    ]

module _ {W : Type 0} {host : Host W} (remote : Remote host) where
  -- The tip that a binding renewal advanced, and the state that it did so in: the tip it was given,
  -- or, behind a first try that was fenced off, the tip of a hold of this holder and lane.
  abbrev pub Started : LeaseOptions → Text → W → Text → W → Type 0
  Started opts from w tip start =
      (tip ≡ from) × (start ≡ w)
      ⊎ (e : Fault) × (fence : Fence) × ((advance host opts beat from (relay_base host) w).0
          ≡ failed e)
        × (as_fence e ≡ some fence)
        × OwnHold opts fence
        × (tip ≡ fence.tip)
        × (start ≡ (advance host opts beat from (relay_base host) w).1)

  -- What the advance of such a tip leaves, up to a state behind it.
  abbrev pub Advanced : LeaseOptions → Text → W → W → Lease → Type 0
  Advanced opts tip start w' l =
      (m : Marker) × ((latest_marker host opts.plan_id tip start).0 ≡ some m)
      × Carries remote opts beat m.epoch l
      × Seen remote (work_ref opts.plan_id) l.tip start w'

  advance-Advanced :
      (opts : LeaseOptions) (tip : Text) (start : W) (l : Lease)
      → (advance host opts beat tip (relay_base host) start).0 ≡ done l
      → Advanced opts tip start (advance host opts beat tip (relay_base host) start).1 l
  advance-Advanced opts tip start l =
      advance_sound remote opts beat tip (relay_base host)
        (relay_base-Grows remote opts (work_ref opts.plan_id) tip) start l

  or_retry-Advanced :
      (opts : LeaseOptions) (from : Text) (w : W) (l : Lease)
      → (or_retry host opts (advance host opts beat from (relay_base host) w)).0 ≡ done l
      → (tip : Text) × (start : W) × Started opts from w tip start
        × Advanced opts tip start
            (or_retry host opts (advance host opts beat from (relay_base host) w)).1
            l
  or_retry-Advanced opts from w l =
      go (advance host opts beat from (relay_base host) w) refl (advance-Advanced opts from w l)
    where
      Goal : Result Lease × W → Type 0
      Goal r =
          (or_retry host opts r).0 ≡ done l
          → (tip : Text) × (start : W) × Started opts from w tip start
            × Advanced opts tip start (or_retry host opts r).1 l

      retry :
          (e : Fault) (w' : W) (o : Option Fence)
          → advance host opts beat from (relay_base host) w ≡ (failed e, w')
          → as_fence e ≡ o
          → (retry_own host opts e o w').0 ≡ done l
          → (tip : Text) × (start : W) × Started opts from w tip start
            × Advanced opts tip start (retry_own host opts e o w').1 l
      retry e w' none a f = λ k. absurd (cc)
      retry e w' (some fence) a f = elim (Bool-cases (own_hold fence opts)) [
        | inl own ↦ rw own λ k. (
          fence.tip,
          w',
          inr (e, fence, rw a refl, f, own_hold-OwnHold opts fence own, refl, rw a refl),
          advance-Advanced opts fence.tip w' l k,
        )
        | inr other ↦ rw other λ k. absurd (cc)
      ]

      go :
          (r : Result Lease × W)
          → advance host opts beat from (relay_base host) w ≡ r
          → (r.0 ≡ done l → Advanced opts from w r.1 l)
          → Goal r
      go (done x, w') a h k = (from, w, inl (refl, refl), h k)
      go (failed e, w') a h k = retry e w' (as_fence e) a refl k

  -- A binding renewal that reports a lease advanced the tip it was given or, where that try was
  -- fenced off by a hold whose marker names this holder and this lane, that hold's tip. The lease
  -- keeps the epoch of the latest marker from the tip it advanced; its tip is what git answers, in
  -- some state, when it is asked for a commit with a beat marker of that epoch, and at some moment
  -- of that advance or of the write of the token behind it the work ref on the remote pointed at
  -- it.
  pub renew_to_bind_sound :
      (opts : LeaseOptions) (from : Text) (w : W) (l : Lease)
      → (renew_to_bind host opts from w).0 ≡ done l
      → (tip : Text) × (start : W) × Started opts from w tip start
        × Advanced opts tip start (renew_to_bind host opts from w).1 l
  unfolding renew_to_bind
  renew_to_bind_sound opts from w l k =
      let r = or_retry host opts (advance host opts beat from (relay_base host) w) in
      let (tip, start, s, advanced) =
        or_retry-Advanced opts from w l (persisted_done remote opts r l k) in
      let (m, e, p, seen) = advanced in
      (
        tip,
        start,
        s,
        (
          m,
          e,
          p,
          Seen-widen remote (work_ref opts.plan_id) l.tip start start r.1 _
              (Extends-refl remote start) seen (persisted-Extends remote opts r),
        ),
      )

left_false : (a b : Bool) → (a || b) ≡ false → a ≡ false
left_false a b h = ground arith

unreleased :
    (k : Kind) (b : Bool) → (not (elim k [ release ↦ true | _ ↦ false ]) && b) ≡ true → k ≢ release
unreleased release b h = absurd (cc)
unreleased claim b h = λ e. absurd (cc)
unreleased beat b h = λ e. absurd (cc)
unreleased takeover b h = λ e. absurd (cc)

-- A tip is found to be the lane's own advance only where the lane has a token, the tip stands on it,
-- the token's commit is a marker of the plan, and the latest marker from the tip is no release and has
-- the token's epoch and holder.
pub own_advance_sound :
    {W : Type 0} (host : Host W) (id : ℕ) (token tip : Text) (w : W)
    → (own_advance host id token tip w).0 ≡ true
    → let (reached, w₁) = is_ancestor host token tip w in
      let (owned, w₂) = commit_marker host id token w₁ in
      (is_empty token ≡ false)
      × (reached ≡ true)
      × (m : Marker) × (g : Marker) × (owned ≡ some m)
      × ((latest_marker host id tip w₂).0 ≡ some g)
      × (g.kind ≢ release)
      × (g.epoch ≡ m.epoch)
      × (g.holder ≡ m.holder)
unfolding own_advance
own_advance_sound {W} host id token tip w = elim (Bool-cases (is_empty token || is_empty tip)) [
  | inl bare ↦ rw bare λ k. absurd (cc)
  | inr named ↦ elim (Bool-cases (is_ancestor host token tip w).0) [
    | inr apart ↦ rw (named, apart) λ k. absurd (cc)
    | inl reached ↦ token_read named reached (commit_marker host id token read).0 refl
  ]
]
  where
    read : W
    read = (is_ancestor host token tip w).1

    owned : W
    owned = (commit_marker host id token read).1

    Found : Type 0
    Found =
        (is_empty token ≡ false)
        × ((is_ancestor host token tip w).0 ≡ true)
        × (m : Marker) × (g : Marker) × ((commit_marker host id token read).0 ≡ some m)
        × ((latest_marker host id tip owned).0 ≡ some g)
        × (g.kind ≢ release)
        × (g.epoch ≡ m.epoch)
        × (g.holder ≡ m.holder)

    compared :
        (is_empty token || is_empty tip) ≡ false
        → (is_ancestor host token tip w).0 ≡ true
        → (m : Marker) → (commit_marker host id token read).0 ≡ some m
        → (g : Option Marker) → (latest_marker host id tip owned).0 ≡ g
        → (own_advance host id token tip w).0 ≡ true
        → Found
    compared n r m e none f = rw (n, r, e, f) λ k. absurd (cc)
    compared n r m e (some g) f =
        rw (n, r, e, f)
          λ k.
            let alike = (and-true _ (g.epoch == m.epoch && text_eq g.holder m.holder) k).1 in
            let (epoch, holder) = and-true (g.epoch == m.epoch) (text_eq g.holder m.holder) alike in
            (
              left_false (is_empty token) (is_empty tip) n,
              refl,
              m,
              g,
              refl,
              refl,
              unreleased g.kind (g.epoch == m.epoch && text_eq g.holder m.holder) k,
              (==_iff g.epoch m.epoch).0 epoch,
              (text_eq_iff g.holder m.holder).0 holder,
            )

    token_read :
        (is_empty token || is_empty tip) ≡ false
        → (is_ancestor host token tip w).0 ≡ true
        → (o : Option Marker) → (commit_marker host id token read).0 ≡ o
        → (own_advance host id token tip w).0 ≡ true
        → Found
    token_read n r none e = rw (n, r, e) λ k. absurd (cc)
    token_read n r (some m) e = compared n r m e (latest_marker host id tip owned).0 refl
