-- ===== src/Claim/Rescue/Reads.antt =====
-- internal/claim/lease.go and claim.go: the reads by which a scavenge judges a chain only add to the
-- remote's history.
use frit.Base.{
  ◌≡◌, refl, inl, inr, Bool, true, false, not, Bool-cases, ◌++◌, Text, codes, is_empty, split, any,
  if◌then◌else◌,
}
use frit.Base.Strings.Decimal.{decimal}
use frit.Claim.{LeaseOptions}
use frit.Claim.Effects.{M, ◌>>=◌, pure, lift, wrap}
use frit.Claim.Fault.{Result, done, failed}
use frit.Claim.Host.{Command, Host}
use frit.Claim.Remote.{Remote, Extends, Extends-refl, Extends-trans}
use frit.Claim.Read.{
  ask, ask_trimmed, is_work, is_ok, fresh_base, has_work, landed_by_content, has_unlanded,
}
use frit.Claim.Refs.{base_branch}
use frit.Claim.Lease.Grows.{Grows, >>=-Grows, wrap-Grows}

module _ {W : Type 0} {host : Host W} (remote : Remote host) where
  open remote use {run_grows}

  fresh_base-Grows : (base r : Text) (w : W) → Extends remote w (fresh_base host base r w).1
  unfolding fresh_base
  fresh_base-Grows base r w = elim (Bool-cases (is_empty (base_branch base r))) [
    | inl bare ↦ rw bare (Extends-refl remote w)
    | inr named ↦ elim (Bool-cases (is_ok (host.run (Command.fetch r (base_branch base r)) w).0)) [
      | inl there ↦ rw (named, there) (run_grows (Command.fetch r (base_branch base r)) w)
      | inr gone ↦ rw (named, gone) (run_grows (Command.fetch r (base_branch base r)) w)
    ]
  ]

  landed_by_content-Grows :
      (base tip : Text) (w : W) → Extends remote w (landed_by_content host base tip w).1
  unfolding landed_by_content
  landed_by_content-Grows base tip w = go (ask_trimmed host (Command.merge_tree base tip) w).0 refl
    where
      go :
          (r : Result Text)
          → (ask_trimmed host (Command.merge_tree base tip) w).0 ≡ r
          → Extends remote w (landed_by_content host base tip w).1
      go (done t) e =
          rw (landed_by_content, e)
            (Extends-trans remote w (host.run (Command.merge_tree base tip) w).1 _
              (run_grows (Command.merge_tree base tip) w) (run_grows _ _))
      go (failed x) e = rw (landed_by_content, e) (run_grows (Command.merge_tree base tip) w)

  module _ (opts : LeaseOptions) (tip : Text) where
    abbrev chain_text : Text
    chain_text = codes "read the chain for plan " ++ decimal opts.plan_id

    has_work-Grows : (base : Text) → Grows remote (has_work host opts.plan_id base tip)
    unfolding has_work
    has_work-Grows base =
        >>=-Grows remote (wrap chain_text (ask host (Command.log_subjects tip base)))
          (λ out. pure (any (is_work opts.plan_id) (split 10 out)))
          (wrap-Grows remote chain_text (ask host (Command.log_subjects tip base))
            (run_grows (Command.log_subjects tip base)))
          (λ out w. Extends-refl remote w)

    abbrev landed_if : Text → Bool → M W Bool
    landed_if base work = if work then lift (landed_by_content host base tip) else pure true

    landed_if-Grows : (base : Text) (work : Bool) → Grows remote (landed_if base work)
    landed_if-Grows base true w = landed_by_content-Grows base tip w
    landed_if-Grows base false w = Extends-refl remote w

    abbrev judged : Text → Bool → M W Bool
    judged base work = landed_if base work >>= (λ landed. pure (not landed))

    abbrev worked : Text → M W Bool
    worked base = has_work host opts.plan_id base tip >>= judged base

    pub has_unlanded-Grows : Grows remote (has_unlanded host opts tip)
    unfolding has_unlanded
    has_unlanded-Grows =
        >>=-Grows remote (lift (fresh_base host opts.base opts.remote)) worked
          (fresh_base-Grows opts.base opts.remote)
          (λ base.
            >>=-Grows remote (has_work host opts.plan_id base tip) (judged base)
              (has_work-Grows base)
              (λ work.
                >>=-Grows remote (landed_if base work) (λ landed. pure (not landed))
                  (landed_if-Grows base work) (λ landed w. Extends-refl remote w)))
