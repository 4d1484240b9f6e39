-- ===== src/Claim/Decorated/Laws.antt =====
-- What a takeover of decorated branches answers, however it ends: each branch is accounted for.
use frit.Base.{
  ℕ, ◌⊎◌, ◌≢◌, true, false, ◌∙◌, ◌≡◌, refl, sym, ap, subst, inl, inr, Bool, Bool-cases, List, [],
  ◌∷◌, Memᴰ, Text, text_eq, is_empty, sort, mem_of_mem-sort,
}
use frit.Base.Strings.Laws.{eq_of_text_eq}
use frit.Claim.{LeaseOptions}
use frit.Claim.Fault.{Result, done, failed}
use frit.Claim.Host.{Command, Host}
use frit.Claim.Remote.{Remote, Extends, Extends-refl, Extends-trans, Seen-Extends}
use frit.Claim.Push.{remote_holder_err, local_tip}
use frit.Claim.Decorated.{
  Tip, tip_before, surveyed_by, seize, seize_step, seize_behind, take_over_decorated, tip_behind,
  decorated_tip, survey, with_standing, Retired, Standing, ref_of, retire_decorated,
}
use frit.Claim.Decorated.Retire.{IsRetired, Gone, retire_decorated_sound}

done_inj : {A : Type 0} {x y : A} → done x ≡ done y → x ≡ y
done_inj h = cc

cons_not_nil : {x : ℕ} {xs : Text} → x ∷ xs ≡ [] → ⊥
cons_not_nil h = cc

module _ {W : Type 0} {host : Host W} (remote : Remote host) where
  open remote use {run_grows}

  tip_behind-Extends :
      (opts : LeaseOptions) (ref : Text) (r : Result Text) (w : W)
      → Extends remote w (tip_behind host opts ref r w).1
  unfolding local_tip
  tip_behind-Extends opts ref (failed e) w = Extends-refl remote w
  tip_behind-Extends opts ref (done now) w = elim (Bool-cases (is_empty now)) [
    | inl gone ↦ rw gone (run_grows (Command.verify ref) w)
    | inr there ↦ rw there (Extends-refl remote w)
  ]

  decorated_tip-Extends :
      (opts : LeaseOptions) (branch : Text) (w : W)
      → Extends remote w (decorated_tip host opts branch w).1
  unfolding decorated_tip remote_holder_err
  decorated_tip-Extends opts branch w =
      Extends-trans remote w (remote_holder_err host opts.remote (ref_of branch) w).1 _
        (run_grows (Command.ls_remote opts.remote (ref_of branch)) w)
        (tip_behind-Extends opts (ref_of branch) _ _)

  -- A branch that stands is one of those asked for, at the tip it was asked for at.
  abbrev pub IsAsked : List Tip → Standing → Type 0
  IsAsked tips s = (t : Tip) × Memᴰ t tips × (s.branch ≡ t.branch) × (s.tip ≡ t.tip)

  -- What a read of the branch found in a state: origin at the tip, or origin without the branch and
  -- the local copy at the tip.
  abbrev pub IsReadAt : LeaseOptions → Standing → W → Type 0
  IsReadAt opts s u =
      let (answer, u') = remote_holder_err host opts.remote (ref_of s.branch) u in
      (s.pushed ≡ true) × (s.tip ≢ []) × (answer ≡ done s.tip)
      ⊎ (s.pushed ≡ false) × (answer ≡ done []) × ((local_tip host (ref_of s.branch) u').0 ≡ s.tip)

  -- The branch was read so somewhere between two states.
  abbrev pub IsRead : LeaseOptions → W → W → Standing → Type 0
  IsRead opts w v s = (u : W) × Extends remote w u × Extends remote u v × IsReadAt opts s u

  tip_behind-IsReadAt :
      (opts : LeaseOptions) (branch : Text) (r : Result Text) (w : W) (now : Text) (on : Bool)
      → (tip_behind host opts (ref_of branch) r w).0 ≡ done (now, on)
      → (on ≡ true) × (now ≢ []) × (r ≡ done now)
        ⊎ (on ≡ false) × (r ≡ done []) × ((local_tip host (ref_of branch) w).0 ≡ now)
  tip_behind-IsReadAt opts branch (failed e) w now on h = absurd (cc)
  tip_behind-IsReadAt opts branch (done []) w now on h =
      let e : (local_tip host (ref_of branch) w).0 ≡ now = ap (λ p. p.0) (done_inj h) in
      inr (sym (ap (λ p. p.1) (done_inj h)), refl, e)
  tip_behind-IsReadAt opts branch (done (c ∷ cs)) w now on h =
      let e : c ∷ cs ≡ now = ap (λ p. p.0) (done_inj h) in
      inl (sym (ap (λ p. p.1) (done_inj h)), (λ n. cons_not_nil (e ∙ n)), ap done e)

  abbrev IsSurveyed : LeaseOptions → List Tip → W → Result (List Standing) × W → Type 0
  IsSurveyed opts tips w (done ss, w') =
      Extends remote w w' × ((s : Standing) → Memᴰ s ss → IsAsked tips s × IsRead opts w w' s)
  IsSurveyed opts tips w (failed e, w') = Extends remote w w'

  IsAsked-cons : (t : Tip) (ts : List Tip) (s : Standing) → IsAsked ts s → IsAsked (t ∷ ts) s
  IsAsked-cons t ts s (k, m, e, f) = (k, Memᴰ.tail m, e, f)

  IsSurveyed-later :
      (opts : LeaseOptions) (t : Tip) (ts : List Tip) (w v : W) (q : Result (List Standing) × W)
      → Extends remote w v
      → IsSurveyed opts ts v q
      → IsSurveyed opts (t ∷ ts) w q
  IsSurveyed-later opts t ts w v (done ss, w') e (f, a) = (
    Extends-trans remote w v w' e f,
    λ s m.
        let (asked, (u, g, k, read)) = a s m in
        (IsAsked-cons t ts s asked, (u, Extends-trans remote w v u e g, k, read)),
  )
  IsSurveyed-later opts t ts w v (failed x, w') e f = Extends-trans remote w v w' e f

  abbrev stands : Tip → Bool → Standing
  stands t on = record { branch = t.branch; tip = t.tip; pushed = on }

  with_standing-IsSurveyed :
      (opts : LeaseOptions) (t : Tip) (ts : List Tip) (w : W) (on : Bool)
      (q : Result (List Standing) × W)
      → IsReadAt opts (stands t on) w
      → IsSurveyed opts (t ∷ ts) w q
      → IsSurveyed opts (t ∷ ts) w (with_standing host (stands t on) q)
  with_standing-IsSurveyed opts t ts w on (done ss, w') read (e, a) = (e, asked)
    where
      asked : (s : Standing) → Memᴰ s (stands t on ∷ ss) → IsAsked (t ∷ ts) s × IsRead opts w w' s
      asked s (Memᴰ.head k) = (
        (t, Memᴰ.head refl, ap (λ x. x.branch) k, ap (λ x. x.tip) k),
        subst (IsRead opts w w') (sym k) (w, Extends-refl remote w, e, read),
      )
      asked s (Memᴰ.tail m) = a s m
  with_standing-IsSurveyed opts t ts w on (failed x, w') read e = e

  surveyed_by-IsSurveyed :
      (opts : LeaseOptions) (t : Tip) (ts : List Tip) (w v : W) (r : Result (Text × Bool))
      (rest : Result (List Standing) × W)
      → Extends remote w v
      → ((on : Bool) → r ≡ done (t.tip, on) → IsReadAt opts (stands t on) w)
      → IsSurveyed opts ts v rest
      → IsSurveyed opts (t ∷ ts) w (surveyed_by host opts t r v rest)
  surveyed_by-IsSurveyed opts t ts w v (failed e) rest reading read a = reading
  surveyed_by-IsSurveyed opts t ts w v (done (now, on)) rest reading read a =
      elim (Bool-cases (is_empty now)) [
        | inl gone ↦ rw gone (IsSurveyed-later opts t ts w v rest reading a)
        | inr there ↦ elim (Bool-cases (text_eq now t.tip)) [
          | inl same ↦
              rw (there, same)
                (with_standing-IsSurveyed opts t ts w on rest
                  (read on (ap (λ x. done (x, on)) (eq_of_text_eq now t.tip same)))
                  (IsSurveyed-later opts t ts w v rest reading a))
          | inr moved ↦ rw (there, moved) reading
        ]
      ]

  survey-IsSurveyed :
      (opts : LeaseOptions) (ts : List Tip) (w : W) → IsSurveyed opts ts w (survey host opts ts w)
  unfolding survey decorated_tip
  survey-IsSurveyed opts [] w = (Extends-refl remote w, λ s m. elim m [ ])
  survey-IsSurveyed opts (t ∷ ts) w =
      let v = (decorated_tip host opts t.branch w).1 in
      surveyed_by-IsSurveyed opts t ts w v (decorated_tip host opts t.branch w).0
        (survey host opts ts v) (decorated_tip-Extends opts t.branch w)
        (λ on e. tip_behind-IsReadAt opts t.branch _ _ t.tip on e) (survey-IsSurveyed opts ts v)

  -- A retirement, somewhere behind a state, of a branch with a property.
  abbrev pub IsRetiredOf : LeaseOptions → (Standing → Type 0) → W → Retired → Type 0
  IsRetiredOf opts P w r =
      (s : Standing) × P s
      × ((u : W) × (v : W) × Extends remote w u × IsRetired remote opts s u v r)

  IsRetiredOf-later :
      (opts : LeaseOptions) (P : Standing → Type 0) (w v : W) (r : Retired)
      → Extends remote w v
      → IsRetiredOf opts P v r
      → IsRetiredOf opts P w r
  IsRetiredOf-later opts P w v r e (s, a, (u, x, f, c)) =
      (s, a, (u, x, Extends-trans remote w v u e f, c))

  -- A retirement of a branch that was asked for, behind a state before which it was read.
  abbrev pub IsAccounted : LeaseOptions → List Tip → W → Retired → Type 0
  IsAccounted opts tips w r =
      (v : W) × Extends remote w v × IsRetiredOf opts (λ s. IsAsked tips s × IsRead opts w v s) v r

  IsRetired-Extends :
      (opts : LeaseOptions) (s : Standing) (w v : W) (r : Retired)
      → IsRetired remote opts s w v r
      → Extends remote w v
  IsRetired-Extends opts s w v r c = Extends-trans remote w c.mid v c.before (after c.gone)
    where
      after : Gone remote s c.mid v → Extends remote c.mid v
      after (inl (p, e)) = e
      after (inr (p, e)) = Seen-Extends remote (ref_of s.branch) [] c.mid v e

  seize-IsRetiredOf :
      (opts : LeaseOptions) (P : Standing → Type 0) (ss : List Standing) (w : W)
      → ((s : Standing) → Memᴰ s ss → P s)
      → (r : Retired) → Memᴰ r (seize host opts ss w).0.retired
      → IsRetiredOf opts P w r
  unfolding seize
  seize-IsRetiredOf opts P [] w asked r m = elim m [ ]
  seize-IsRetiredOf opts P (s ∷ ss) w asked r m =
      go (retire_decorated host opts s w) (λ x h. retire_decorated_sound remote opts s w x h)
        (λ v x n. seize-IsRetiredOf opts P ss v (λ k l. asked k (Memᴰ.tail l)) x n) m
    where
      go :
          (q : Result Retired × W)
          → ((x : Retired) → q.0 ≡ done x → IsRetired remote opts s w q.1 x)
          → ((v : W) (x : Retired)
              → Memᴰ x (seize host opts ss v).0.retired
              → IsRetiredOf opts P v x)
          → Memᴰ r (seize_step host opts q (seize host opts ss q.1)).0.retired
          → IsRetiredOf opts P w r
      go (failed e, v) sound ih n = elim n [ ]
      go (done x, v) sound ih (Memᴰ.head k) = (
        s,
        asked s (Memᴰ.head refl),
        (w, v, Extends-refl remote w, subst (IsRetired remote opts s w v) (sym k) (sound x refl)),
      )
      go (done x, v) sound ih (Memᴰ.tail n) =
          IsRetiredOf-later opts P w v r (IsRetired-Extends opts s w v x (sound x refl)) (ih v r n)

  -- However a takeover of decorated branches ends, each branch that it answers as retired is one of
  -- those it was asked for. Of the tip it was asked for, either the chain was judged to hold no
  -- unlanded work, or the rescue ref that it names pointed at that tip on the remote. Either a read
  -- of origin before that found the branch at the tip, and behind the rescue the branch was absent
  -- on the remote and is answered as deleted there; or a read of origin before that found no such
  -- branch and the local copy was at the tip, and the branch is answered as not deleted on origin.
  pub take_over_decorated_sound :
      (opts : LeaseOptions) (tips : List Tip) (w : W) (r : Retired)
      → Memᴰ r (take_over_decorated host opts tips w).0.retired
      → IsAccounted opts tips w r
  unfolding take_over_decorated
  take_over_decorated_sound opts tips w r m =
      go (survey host opts (sort tip_before tips) w)
        (survey-IsSurveyed opts (sort tip_before tips) w) m
    where
      unsorted : (s : Standing) → IsAsked (sort tip_before tips) s → IsAsked tips s
      unsorted s (t, n, e, f) = (t, mem_of_mem-sort tip_before tips n, e, f)

      go :
          (q : Result (List Standing) × W)
          → IsSurveyed opts (sort tip_before tips) w q
          → Memᴰ r (seize_behind host opts q).0.retired
          → IsAccounted opts tips w r
      go (failed e, v) a n = elim n [ ]
      go (done ss, v) (e, a) n = (
        v,
        e,
        seize-IsRetiredOf opts (λ s. IsAsked tips s × IsRead opts w v s) ss v
            (λ s k. (unsorted s (a s k).0, (a s k).1)) r n,
      )
