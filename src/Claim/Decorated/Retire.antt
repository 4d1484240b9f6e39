-- ===== src/Claim/Decorated/Retire.antt =====
-- What is kept of a decorated branch's work before the branch is deleted.
use frit.Base.{◌≡◌, refl, sym, ap, subst, ◌⊎◌, inl, inr, true, false, Bool-cases, [], Text, text_eq}
use frit.Claim.{LeaseOptions}
use frit.Claim.Fault.{Result, done, failed}
use frit.Claim.Host.{Command, Host}
use frit.Claim.Remote.{Remote, Extends, Extends-refl, Extends-trans, Seen, Seen-widen}
use frit.Claim.Push.{local_tip, cas_delete}
use frit.Claim.Push.Laws.{OnDone, cas_delete_sound}
use frit.Claim.Read.{checked_out}
use frit.Claim.Rescue.{park_unlanded}
use frit.Claim.Rescue.Laws.{Kept, park_unlanded-Kept}
use frit.Claim.Decorated.{
  Retired, Standing, ref_of, settled, delete_pushed, drop_copy, retired_as, retired_behind,
  retire_behind, retire_decorated,
}

module _ {W : Type 0} {host : Host W} (remote : Remote host) where
  open remote use {run_grows}

  drop_copy-Extends : (s : Standing) (w : W) → Extends remote w (drop_copy host s w)
  unfolding drop_copy local_tip checked_out
  drop_copy-Extends s w = elim (Bool-cases (text_eq (local_tip host (ref_of s.branch) w).0 s.tip)) [
    | inr other ↦ rw other (run_grows (Command.verify (ref_of s.branch)) w)
    | inl same ↦ elim (Bool-cases (checked_out host s.branch w₁).0) [
      | inl on ↦ rw (same, on) listed
      | inr off ↦
          rw (same, off)
            (Extends-trans remote w w₂ _ listed
              (run_grows (Command.delete_ref_at (ref_of s.branch) s.tip) w₂))
    ]
  ]
    where
      w₁ : W
      w₁ = (local_tip host (ref_of s.branch) w).1

      w₂ : W
      w₂ = (checked_out host s.branch w₁).1

      listed : Extends remote w w₂
      listed =
          Extends-trans remote w w₁ w₂ (run_grows (Command.verify (ref_of s.branch)) w)
            (run_grows Command.worktree_list w₁)

  -- What the delete on origin leaves behind when it ends without an error.
  abbrev pub Gone : Standing → W → W → Type 0
  Gone s w w' =
      (s.pushed ≡ false) × Extends remote w w'
      ⊎ (s.pushed ≡ true) × Seen remote (ref_of s.branch) [] w w'

  -- What a branch's retirement has done when it ends without an error: at a moment `mid` of it the
  -- unlanded work was on the rescue ref, and only behind that is the branch gone from origin.
  pub record IsRetired (opts : LeaseOptions) (s : Standing) (w w' : W) (r : Retired) : Type 0 where
    pub mid : W
    pub branch : r.branch ≡ s.branch
    pub on_origin : r.deleted_on_origin ≡ s.pushed
    pub kept : Kept remote opts s.tip w mid r.rescue
    pub before : Extends remote w mid
    pub gone : Gone s mid w'

  settled-Seen :
      (opts : LeaseOptions) (s : Standing) (w : W) (u : Unit {0}) (r : Result (Unit {0}) × W)
      → OnDone remote (λ _. Seen remote (ref_of s.branch) [] w r.1) r.0
      → (settled host opts s r).0 ≡ done u
      → Seen remote (ref_of s.branch) [] w (settled host opts s r).1
  settled-Seen opts s w u (done v, w') seen h = seen
  settled-Seen opts s w u (failed e, w') seen h = absurd (cc)

  delete_pushed-Gone :
      (opts : LeaseOptions) (s : Standing) (w : W) (u : Unit {0})
      → (delete_pushed host opts s w).0 ≡ done u
      → Gone s w (delete_pushed host opts s w).1
  delete_pushed-Gone opts s w u = elim (Bool-cases s.pushed) [
    | inr here ↦ rw here λ h. inl (refl, Extends-refl remote w)
    | inl there ↦ rw there λ h. inr (
      refl,
      settled-Seen opts s w u (cas_delete host opts (ref_of s.branch) s.tip w)
          (cas_delete_sound remote opts (ref_of s.branch) s.tip w) h,
    )
  ]

  Gone-widen : (s : Standing) (w v v' : W) → Gone s w v → Extends remote v v' → Gone s w v'
  Gone-widen s w v v' (inl (p, e)) f = inl (p, Extends-trans remote w v v' e f)
  Gone-widen s w v v' (inr (p, e)) f =
      inr (p, Seen-widen remote (ref_of s.branch) [] w w v v' (Extends-refl remote w) e f)

  retired_behind-IsRetired :
      (opts : LeaseOptions) (s : Standing) (w mid : W) (rescue : Text) (r : Retired)
      (q : Result (Unit {0}) × W)
      → Kept remote opts s.tip w mid rescue × Extends remote w mid
      → ((u : Unit {0}) → q.0 ≡ done u → Gone s mid q.1)
      → (retired_behind host s rescue q).0 ≡ done r
      → IsRetired opts s w (retired_behind host s rescue q).1 r
  unfolding local_tip
  retired_behind-IsRetired opts s w mid rescue r (failed e, w₁) kept gone h = absurd (cc)
  retired_behind-IsRetired opts s w mid rescue r (done u, w₁) (kept, before) gone h = record {
    mid = mid;
    branch = ap (λ x. x.branch) (sym same);
    on_origin = ap (λ x. x.deleted_on_origin) (sym same);
    kept = subst (λ x. Kept remote opts s.tip w mid x.rescue) same kept;
    before = before;
    gone = Gone-widen s mid w₁ _ (gone u refl) (
        Extends-trans remote w₁ (drop_copy host s w₁) _ (drop_copy-Extends s w₁)
          (run_grows (Command.verify (ref_of s.branch)) (drop_copy host s w₁)));
  }
    where
      same : (retired_as host s rescue (drop_copy host s w₁)).0 ≡ r
      same = cc

  retire_behind-IsRetired :
      (opts : LeaseOptions) (s : Standing) (w : W) (r : Retired) (p : Result Text × W)
      → ((rescue : Text)
          → p.0 ≡ done rescue
          → Kept remote opts s.tip w p.1 rescue × Extends remote w p.1)
      → (retire_behind host opts s p).0 ≡ done r
      → IsRetired opts s w (retire_behind host opts s p).1 r
  retire_behind-IsRetired opts s w r (failed e, w₁) kept h = absurd (cc)
  retire_behind-IsRetired opts s w r (done rescue, w₁) kept h =
      retired_behind-IsRetired opts s w w₁ rescue r (delete_pushed host opts s w₁)
        (kept rescue refl) (delete_pushed-Gone opts s w₁) h

  pub retire_decorated_sound :
      (opts : LeaseOptions) (s : Standing) (w : W) (r : Retired)
      → (retire_decorated host opts s w).0 ≡ done r
      → IsRetired opts s w (retire_decorated host opts s w).1 r
  unfolding retire_decorated
  retire_decorated_sound opts s w r =
      retire_behind-IsRetired opts s w r (park_unlanded host opts s.tip w)
        (park_unlanded-Kept remote opts s.tip w)
