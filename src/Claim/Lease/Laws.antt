-- ===== src/Claim/Lease/Laws.antt =====
-- What a lease that a transition reports shows of the work ref, and the epoch that it carries.
use frit.Base.{◌≡◌, refl, subst, Text}
use frit.Claim.Effects.{M, ◌>>=◌, wrap}
use frit.Claim.Fault.{Fault, Result, done, failed}
use frit.Claim.Host.{Host}
use frit.Claim.Remote.{Remote, Extends, Extends-refl, Seen, Seen-widen}
use frit.Claim.Push.{Race, won, lost}
use frit.Claim.Push.Laws.{RaceShows}
use frit.Claim.Lease.{Lease}
use frit.Claim.Lease.Grows.{Grows}

module _ {W : Type 0} {host : Host W} (remote : Remote host) where
  open remote use {run_grows, nonce_grows, write_grows}

  module _ (ref : Text) (P : Lease → Type 0) where
    -- A lease that the call reports has the property, and at some moment of the call the ref pointed
    -- at its tip.
    abbrev pub Takes : M W Lease → Type 0
    Takes m = (w : W) (l : Lease) → (m w).0 ≡ done l → P l × Seen remote ref l.tip w (m w).1

    -- A step whose results have a property, and the rest from any such result.
    pub >>=-TakesOf :
        {A : Type 0} (Q : A → Type 0) (m : M W A) (f : A → M W Lease)
        → Grows remote m
        → ((w : W) (a : A) → (m w).0 ≡ done a → Q a)
        → ((a : A) → Q a → Takes (f a))
        → Takes (m >>= f)
    >>=-TakesOf {A} Q m f g q h w l = go (m w).0 refl
      where
        go :
            (r : Result A)
            → (m w).0 ≡ r
            → ((m >>= f) w).0 ≡ done l
            → P l × Seen remote ref l.tip w ((m >>= f) w).1
        go (done a) e =
            rw (e, ◌>>=◌)
              λ k.
                let (p, s) = h a (q w a e) (m w).1 l k in
                (p, Seen-widen remote ref l.tip w (m w).1 _ _ (g w) s (Extends-refl remote _))
        go (failed x) e = rw (e, ◌>>=◌) λ k. absurd (cc)

    pub >>=-Takes :
        {A : Type 0} (m : M W A) (f : A → M W Lease)
        → Grows remote m
        → ((a : A) → Takes (f a))
        → Takes (m >>= f)
    >>=-Takes {A} m f g h = >>=-TakesOf (λ (a : A). Unit {0}) m f g (λ w a e. tt) (λ a u. h a)

    -- The push that ends a transition, and what is made of its outcome.
    pub race-Takes :
        (push : M W Race) (marker : Text) (lease : Lease) (finish : Race → M W Lease)
        → ((w : W) → RaceShows remote ref marker w (push w).1 (push w).0)
        → lease.tip ≡ marker
        → P lease
        → ((t : Text) (w : W) → Extends remote w (finish (won t) w).1)
        → ((t : Text) (w : W) → (finish (won t) w).0 ≡ done lease)
        → ((t : Text) (w : W) → (f : Fault) × ((finish (lost t) w).0 ≡ failed f))
        → Takes (push >>= finish)
    race-Takes push marker lease finish shows tip p ext wins loses w l =
        go (push w).0 refl (shows w)
      where
        go :
            (r : Result Race)
            → (push w).0 ≡ r
            → RaceShows remote ref marker w (push w).1 (push w).0
            → ((push >>= finish) w).0 ≡ done l
            → P l × Seen remote ref l.tip w ((push >>= finish) w).1
        go (done (won t)) e s =
            rw (e, ◌>>=◌)
              λ k.
                let same : lease ≡ l = cc (wins t (push w).1) in
                subst (λ (x : Lease). P x × Seen remote ref x.tip w (finish (won t) (push w).1).1)
                  same
                  (
                    p,
                    rw tip (
                        Seen-widen remote ref marker w w (push w).1 _ (Extends-refl remote w)
                          (subst (RaceShows remote ref marker w (push w).1) e s).1
                          (ext t (push w).1)),
                  )
        go (done (lost t)) e s = rw (e, ◌>>=◌) λ k. absurd (cc (loses t (push w).1).1)
        go (failed x) e s = rw (e, ◌>>=◌) λ k. absurd (cc)

  pub wrapped-RaceShows :
      (ref marker what : Text) (m : M W Race) (w : W)
      → RaceShows remote ref marker w (m w).1 (m w).0
      → RaceShows remote ref marker w (wrap what m w).1 (wrap what m w).0
  wrapped-RaceShows ref marker what m w s = go (m w).0 refl
    where
      go :
          (r : Result Race)
          → (m w).0 ≡ r
          → RaceShows remote ref marker w (wrap what m w).1 (wrap what m w).0
      go (done (won t)) e = rw (e, wrap) (subst (RaceShows remote ref marker w (m w).1) e s)
      go (done (lost t)) e = rw (e, wrap) (subst (RaceShows remote ref marker w (m w).1) e s)
      go (failed x) e = rw (e, wrap) (subst (RaceShows remote ref marker w (m w).1) e s)
