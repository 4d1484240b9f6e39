-- ===== src/Claim/Push/Laws.antt =====
-- What the outcome of a push shows of the remote.
use frit.Base.{
  ◌≡◌, refl, sym, ◌∙◌, ap, ◌≢◌, inl, inr, true, [], ◌∷◌, Text, text_eq, is_empty, Bool-cases,
}
use mathlib.Core.Bool.{false≢true}
use frit.Base.Strings.Laws.{text_eq_iff}
use frit.Claim.{Kind, LeaseOptions}
use frit.Claim.Fault.{Fault, git, Result, done, failed}
use frit.Claim.Host.{Command, Outcome, Host}
use frit.Claim.Remote.{Remote, Extends, Seen, Extends-refl, Extends-trans, Seen-widen, Seen-Extends}
use frit.Claim.Push.{
  Race, won, lost, Confirm, accepted, unread, shows, holder_of, push_then_confirm,
  remote_holder_err, sync_local_ref, cas_push, cas_settle, cas_delete, park, confirm_by, reason_of,
}

module _ {W : Type 0} {host : Host W} (remote : Remote host) where
  open remote use {history, run_grows, push_shows, read_shows}

  -- What a confirmed outcome says of the interval from `w` to `w'`.
  abbrev Shows : Text → Text → W → W → Confirm → Type 0
  Shows ref src w w' accepted = Seen remote ref src w w'
  Shows ref src w w' (unread e f) = Extends remote w w'
  Shows ref src w w' (shows e now) = Seen remote ref now w w'

  abbrev pub Reads : Text → W → W → Result Text → Type 0
  Reads ref w w' (done v) = Seen remote ref v w w'
  Reads ref w w' (failed e) = Extends remote w w'

  pub remote_holder_err-Reads :
      (r ref : Text) (w : W)
      → Reads ref w (remote_holder_err host r ref w).1 (remote_holder_err host r ref w).0
  unfolding remote_holder_err
  remote_holder_err-Reads r ref w = go (host.run (Command.ls_remote r ref) w).0 refl
    where
      go :
          (o : Outcome)
          → (host.run (Command.ls_remote r ref) w).0 ≡ o
          → Reads ref w
              (host.run (Command.ls_remote r ref) w).1
              (holder_of (host.run (Command.ls_remote r ref) w).0)
      go (Outcome.ok out) e = rw e (read_shows r ref w out e)
      go (Outcome.fail err) e = rw e (run_grows (Command.ls_remote r ref) w)

  pub push_then_confirm-Shows :
      (opts : LeaseOptions) (ref expected src : Text) (w : W)
      → Shows ref src w
          (push_then_confirm host opts ref expected src w).1
          (push_then_confirm host opts ref expected src w).0
  unfolding push_then_confirm
  push_then_confirm-Shows opts ref expected src w =
      go (host.run (Command.push opts.remote ref expected src) w).0 refl
    where
      pushed : W
      pushed = (host.run (Command.push opts.remote ref expected src) w).1

      confirm :
          (err : Fault) (r : Result Text) (w' : W)
          → Reads ref pushed w' r
          → Shows ref src w w' (confirm_by err r)
      confirm err (done v) w' s =
          Seen-widen remote ref v w pushed w' w' (run_grows _ w) s (Extends-refl remote w')
      confirm err (failed e) w' x = Extends-trans remote w pushed w' (run_grows _ w) x

      go :
          (o : Outcome)
          → (host.run (Command.push opts.remote ref expected src) w).0 ≡ o
          → Shows ref src w
              (push_then_confirm host opts ref expected src w).1
              (push_then_confirm host opts ref expected src w).0
      go (Outcome.ok out) e =
          rw (e, push_then_confirm) (push_shows opts.remote ref expected src w out e)
      go (Outcome.fail err) e =
          rw (e, push_then_confirm)
            (confirm (git err) (remote_holder_err host opts.remote ref pushed).0 _
              (remote_holder_err-Reads opts.remote ref pushed))

  sync-Extends :
      (ref tip reason seen : Text) (u w : W)
      → Extends remote u w
      → Extends remote u (sync_local_ref host ref tip reason seen w)
  unfolding sync_local_ref
  sync-Extends ref tip reason seen u w e =
      Extends-trans remote u w _ e (run_grows (Command.update_ref reason ref tip seen) w)

  -- What a compare-and-swap push that answers says of the remote.
  abbrev pub RaceShows : Text → Text → W → W → Result Race → Type 0
  RaceShows ref marker w w' (done (won t)) = (t ≡ marker) × Seen remote ref marker w w'
  RaceShows ref marker w w' (done (lost t)) = (t ≢ marker) × (t ≢ []) × Seen remote ref t w w'
  RaceShows ref marker w w' (failed e) = Extends remote w w'

  sync-Seen :
      (ref tip reason seen r x : Text) (u w : W)
      → Seen remote r x u w
      → Seen remote r x u (sync_local_ref host ref tip reason seen w)
  unfolding sync_local_ref
  sync-Seen ref tip reason seen r x u w s =
      Seen-widen remote r x u u w _ (Extends-refl remote u) s
        (run_grows (Command.update_ref reason ref tip seen) w)

  settle-RaceShows :
      (opts : LeaseOptions) (ref : Text) (kind : Kind) (marker seen : Text) (err : Fault)
      (now : Text) (u w : W)
      → Seen remote ref now u w
      → RaceShows ref marker u
          (cas_settle host opts ref kind marker seen err now w).1
          (cas_settle host opts ref kind marker seen err now w).0
  unfolding cas_settle
  settle-RaceShows opts ref kind marker seen err now u w s =
      elim (Bool-cases (text_eq now marker)) [
        | inl same ↦
            let e : now ≡ marker = (text_eq_iff now marker).0 same in
            rw same
              (refl, sync-Seen ref marker (reason_of opts kind) seen ref marker u w (rw e at s))
        | inr other ↦ elim (Bool-cases (is_empty now)) [
          | inl absent ↦ rw (other, absent) (Seen-Extends remote ref now u w s)
          | inr there ↦
              rw (other, there)
                (
                  λ e. false≢true (sym other ∙ (text_eq_iff now marker).1 e),
                  λ e. false≢true (sym there ∙ ap is_empty e),
                  s,
                )
        ]
      ]

  -- A compare-and-swap push that reports a win was taken by the remote: at some moment of the call
  -- the ref pointed at the marker, also where the push's own answer was lost. One that reports a loss
  -- names another commit that the ref pointed at during the call.
  pub cas_push_sound :
      (opts : LeaseOptions) (ref : Text) (kind : Kind) (marker expected seen : Text) (w : W)
      → RaceShows ref marker w
          (cas_push host opts ref kind marker expected seen w).1
          (cas_push host opts ref kind marker expected seen w).0
  unfolding cas_push
  cas_push_sound opts ref kind marker expected seen w =
      go (push_then_confirm host opts ref expected marker w).0 refl
        (push_then_confirm-Shows opts ref expected marker w)
    where
      pushed : W
      pushed = (push_then_confirm host opts ref expected marker w).1

      go :
          (c : Confirm)
          → (push_then_confirm host opts ref expected marker w).0 ≡ c
          → Shows ref marker w pushed (push_then_confirm host opts ref expected marker w).0
          → RaceShows ref marker w
              (cas_push host opts ref kind marker expected seen w).1
              (cas_push host opts ref kind marker expected seen w).0
      go accepted e s =
          rw (e, cas_push) (refl, sync-Seen ref marker _ seen ref marker w pushed (rw e at s))
      go (unread p r) e s = rw (e, cas_push) (rw e at s)
      go (shows p now) e s =
          rw (e, cas_push) (settle-RaceShows opts ref kind marker seen p now w pushed (rw e at s))

  -- What is kept by a call that fails.
  abbrev pub OnDone : (Unit {0} → Type 0) → Result (Unit {0}) → Type 0
  OnDone P (done u) = P u
  OnDone P (failed e) = Unit

  -- A park that succeeds left the tip on the rescue ref: at some moment of the call the rescue ref
  -- on the remote pointed at it, whether this push put it there or an earlier one had.
  pub park_sound :
      (opts : LeaseOptions) (rescue tip : Text) (w : W)
      → OnDone
          (λ _. Seen remote rescue tip w (park host opts rescue tip w).1)
          (park host opts rescue tip w).0
  unfolding park
  park_sound opts rescue tip w =
      go (push_then_confirm host opts rescue [] tip w).0 refl
        (push_then_confirm-Shows opts rescue [] tip w)
    where
      pushed : W
      pushed = (push_then_confirm host opts rescue [] tip w).1

      go :
          (c : Confirm)
          → (push_then_confirm host opts rescue [] tip w).0 ≡ c
          → Shows rescue tip w pushed (push_then_confirm host opts rescue [] tip w).0
          → OnDone
              (λ _. Seen remote rescue tip w (park host opts rescue tip w).1)
              (park host opts rescue tip w).0
      go accepted e s = rw (e, park) (rw e at s)
      go (unread p r) e s = rw (e, park) tt
      go (shows p now) e s = elim (Bool-cases (text_eq now tip)) [
        | inl same ↦ rw (e, park, same) (rw ((text_eq_iff now tip).0 same) at (rw e at s))
        | inr other ↦ elim (Bool-cases (is_empty now)) [
          | inl absent ↦ rw (e, park, other, absent) tt
          | inr there ↦ rw (e, park, other, there) tt
        ]
      ]

  pub empty_of : (t : Text) → is_empty t ≡ true → t ≡ []
  empty_of [] h = refl
  empty_of (c ∷ cs) h = cc

  -- A delete that succeeds left the ref absent at some moment of the call, also where the push's own
  -- answer was lost.
  pub cas_delete_sound :
      (opts : LeaseOptions) (ref from : Text) (w : W)
      → OnDone
          (λ _. Seen remote ref [] w (cas_delete host opts ref from w).1)
          (cas_delete host opts ref from w).0
  unfolding cas_delete
  cas_delete_sound opts ref from w =
      go (push_then_confirm host opts ref from [] w).0 refl
        (push_then_confirm-Shows opts ref from [] w)
    where
      go :
          (c : Confirm)
          → (push_then_confirm host opts ref from [] w).0 ≡ c
          → Shows ref [] w
              (push_then_confirm host opts ref from [] w).1
              (push_then_confirm host opts ref from [] w).0
          → OnDone
              (λ _. Seen remote ref [] w (cas_delete host opts ref from w).1)
              (cas_delete host opts ref from w).0
      go accepted e s = rw (e, cas_delete) (rw e at s)
      go (unread p r) e s = rw (e, cas_delete) tt
      go (shows p now) e s = elim (Bool-cases (is_empty now)) [
        | inl absent ↦ rw (e, cas_delete, absent) (rw (empty_of now absent) at (rw e at s))
        | inr there ↦ rw (e, cas_delete, there) tt
      ]
