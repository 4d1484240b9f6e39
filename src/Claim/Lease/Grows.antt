-- ===== src/Claim/Lease/Grows.antt =====
-- Every call of a lease only adds to the remote's history.
use frit.Base.{
  trim_space, fields, codes, ◌++◌, ◌||◌, inl, inr, Bool-cases, ℕ, ◌≡◌, refl, Bool, Option, none,
  some, List, [], ◌∷◌, Text, is_empty, text_eq,
}
use frit.Claim.{Kind, LeaseOptions, Marker}
use frit.Claim.Effects.{M, ◌>>=◌, pure, wrap, output}
use frit.Claim.Fault.{Result, done, failed}
use frit.Claim.Host.{Command, Outcome, ok, fail, Host}
use frit.Claim.Remote.{Remote, Extends, Extends-refl, Extends-trans}
use frit.Claim.Push.{remote_holder_err, remote_holder, local_tip}
use frit.Claim.Read.{
  work_ref, ask_trimmed, is_ancestor, commit_marker, first_marker, latest_marker, patterns,
  fetched_marker,
}
use frit.Claim.Message.{lease_message}
use frit.Claim.Lease.{
  sign_args, mint_marker, refuse_diverging_local_branch, relay_base, holder_base,
}
use frit.Claim.Token.{store_token, token_file, write_token, persist_token, token_path}

module _ {W : Type 0} {host : Host W} (remote : Remote host) where
  open remote use {run_grows, nonce_grows, write_grows}

  -- A call that only adds to the history.
  abbrev pub Grows : {A : Type 0} → (W → A × W) → Type 0
  Grows m = (w : W) → Extends remote w (m w).1

  pub >>=-Grows :
      {A B : Type 0} (m : M W A) (f : A → M W B)
      → Grows m
      → ((a : A) → Grows (f a))
      → Grows (m >>= f)
  >>=-Grows {A} m f g h w = go (m w).0 refl
    where
      go : (r : Result A) → (m w).0 ≡ r → Extends remote w ((m >>= f) w).1
      go (done a) e = rw (e, ◌>>=◌) (Extends-trans remote w (m w).1 _ (g w) (h a (m w).1))
      go (failed x) e = rw (e, ◌>>=◌) (g w)

  pub wrap-Grows : {A : Type 0} (what : Text) (m : M W A) → Grows m → Grows (wrap what m)
  wrap-Grows {A} what m g w = go (m w).0 refl
    where
      go : (r : Result A) → (m w).0 ≡ r → Extends remote w (wrap what m w).1
      go (done a) e = rw (e, wrap) (g w)
      go (failed x) e = rw (e, wrap) (g w)

  pub ask_trimmed-Grows : (c : Command) → Grows (ask_trimmed host c)
  ask_trimmed-Grows c = run_grows c

  pub remote_holder-Grows : (r ref : Text) → Grows (remote_holder host r ref)
  unfolding remote_holder remote_holder_err
  remote_holder-Grows r ref = run_grows (Command.ls_remote r ref)

  pub local_tip-Grows : (ref : Text) → Grows (local_tip host ref)
  unfolding local_tip
  local_tip-Grows ref = run_grows (Command.verify ref)

  pub is_ancestor-Grows : (sha base : Text) → Grows (is_ancestor host sha base)
  unfolding is_ancestor
  is_ancestor-Grows sha base = run_grows (Command.is_ancestor sha base)

  pub commit_marker-Grows : (id : ℕ) (sha : Text) → Grows (commit_marker host id sha)
  unfolding commit_marker
  commit_marker-Grows id sha = run_grows (Command.log_body sha)

  first_marker-Grows : (id : ℕ) (shas : List Text) → Grows (first_marker host id shas)
  unfolding first_marker
  first_marker-Grows id [] w = Extends-refl remote w
  first_marker-Grows id (sha ∷ shas) w =
      go (commit_marker host id sha w).0 refl
        (first_marker-Grows id shas (commit_marker host id sha w).1)
    where
      read : W
      read = (commit_marker host id sha w).1

      go :
          (m : Option Marker)
          → (commit_marker host id sha w).0 ≡ m
          → Extends remote read (first_marker host id shas read).1
          → Extends remote w (first_marker host id (sha ∷ shas) w).1
      go none e ih =
          rw (first_marker, e) (Extends-trans remote w read _ (commit_marker-Grows id sha w) ih)
      go (some m) e ih = rw (first_marker, e) (commit_marker-Grows id sha w)

  pub latest_marker-Grows : (id : ℕ) (tip : Text) → Grows (latest_marker host id tip)
  unfolding latest_marker
  latest_marker-Grows id tip w = go _ refl
    where
      c : Command
      c = Command.log_hashes (patterns id) tip

      go : (o : Outcome) → (host.run c w).0 ≡ o → Extends remote w (latest_marker host id tip w).1
      go (ok out) e =
          rw (latest_marker, e)
            (Extends-trans remote w (host.run c w).1 _ (run_grows c w)
              (first_marker-Grows id (fields out) _))
      go (fail err) e = rw (latest_marker, e) (run_grows c w)

  token_path-Grows : (lane : Text) (id : ℕ) → Grows (token_path host lane id)
  unfolding token_path
  token_path-Grows lane id =
      >>=-Grows _ (λ dir. pure (token_file (trim_space dir) id)) (run_grows (Command.git_dir lane))
        (λ dir w. Extends-refl remote w)

  write_token-Grows : (lane : Text) (id : ℕ) (tip : Text) → Grows (write_token host lane id tip)
  unfolding write_token
  write_token-Grows lane id tip w =
      elim (Bool-cases (is_empty lane || (text_eq lane (codes "-") || is_empty tip))) [
        | inl skip ↦ rw skip (Extends-refl remote w)
        | inr write ↦ rw write (
            >>=-Grows (token_path host lane id) (store_token host tip) (token_path-Grows lane id)
              (λ path. write_grows path (tip ++ codes "\n")) w)
      ]

  pub persist_token-Grows :
      (opts : LeaseOptions) (tip : Text) (w : W) → Extends remote w (persist_token host opts tip w)
  unfolding persist_token
  persist_token-Grows opts tip = write_token-Grows opts.lane opts.plan_id tip

  config : M W Text
  config =
      wrap (codes "read commit.gpgsign")
        (ask_trimmed host (Command.config_bool (codes "commit.gpgsign")))

  sign_args-Grows : Grows (sign_args host)
  unfolding sign_args config
  sign_args-Grows =
      >>=-Grows config (λ on. pure (text_eq on (codes "true")))
        (wrap-Grows (codes "read commit.gpgsign")
          (ask_trimmed host (Command.config_bool (codes "commit.gpgsign")))
          (ask_trimmed-Grows (Command.config_bool (codes "commit.gpgsign"))))
        (λ on w. Extends-refl remote w)

  module _ (kind : Kind) (parent : Text) (opts : LeaseOptions) (epoch : ℕ) (base : Text) where
    abbrev written : Text → Text → Bool → M W Text
    written tree nonce sign =
        ask_trimmed host
          (Command.commit_tree tree parent sign (lease_message kind opts epoch nonce base))

    abbrev signed : Text → Text → M W Text
    signed tree nonce = sign_args host >>= written tree nonce

    abbrev drawn : Text → M W Text
    drawn tree = (λ w. let (o, w') = host.nonce w in (output o, w')) >>= signed tree

    pub mint_marker-Grows : Grows (mint_marker host kind parent opts epoch base)
    unfolding mint_marker
    mint_marker-Grows =
        >>=-Grows (ask_trimmed host (Command.rev_parse (parent ++ codes "^{tree}"))) drawn
          (ask_trimmed-Grows (Command.rev_parse (parent ++ codes "^{tree}")))
          (λ tree.
            >>=-Grows (λ w. let (o, w') = host.nonce w in (output o, w')) (signed tree) nonce_grows
              (λ nonce. >>=-Grows (sign_args host) (written tree nonce) sign_args-Grows (λ sign.
                ask_trimmed-Grows (
                  Command.commit_tree tree parent sign
                    (lease_message kind opts epoch nonce base)))))

  reads :
      (sha base ref : Text) (w : W)
      → Extends remote w (is_ancestor host sha base (local_tip host ref w).1).1
  reads sha base ref w =
      Extends-trans remote w (local_tip host ref w).1 _ (local_tip-Grows ref w)
        (is_ancestor-Grows sha base (local_tip host ref w).1)

  twice :
      (ref from : Text) (w : W)
      → Extends remote w
          (is_ancestor host
            (local_tip host ref w).0
            from
            (is_ancestor host from (local_tip host ref w).0 (local_tip host ref w).1).1).1
  twice ref from w =
      Extends-trans remote w
        (is_ancestor host from (local_tip host ref w).0 (local_tip host ref w).1).1 _
        (reads from (local_tip host ref w).0 ref w)
        (is_ancestor-Grows (local_tip host ref w).0 from _)

  pub holder_base-Grows :
      (opts : LeaseOptions) (ref from : Text) → Grows (holder_base host opts ref from)
  unfolding holder_base
  holder_base-Grows opts ref from w =
      elim (Bool-cases
        (is_empty (local_tip host ref w).0 || text_eq (local_tip host ref w).0 from)) [
          | inl same ↦ rw same (local_tip-Grows ref w)
          | inr other ↦
              elim (Bool-cases
                (is_ancestor host (local_tip host ref w).0 from (local_tip host ref w).1).0) [
                  | inl behind ↦ rw (other, behind) (reads (local_tip host ref w).0 from ref w)
                  | inr aside ↦ rw (other, aside) (reads (local_tip host ref w).0 from ref w)
                ]
        ]

  pub relay_base-Grows :
      (opts : LeaseOptions) (ref from : Text) → Grows (relay_base host opts ref from)
  unfolding relay_base
  relay_base-Grows opts ref from w =
      elim (Bool-cases
        (is_empty (local_tip host ref w).0 || text_eq (local_tip host ref w).0 from)) [
          | inl same ↦ rw same (local_tip-Grows ref w)
          | inr other ↦
              elim (Bool-cases
                (is_ancestor host from (local_tip host ref w).0 (local_tip host ref w).1).0) [
                  | inl ahead ↦ rw (other, ahead) (reads from (local_tip host ref w).0 ref w)
                  | inr aside ↦
                      elim (Bool-cases
                        (is_ancestor host (local_tip host ref w).0 from
                          (is_ancestor host from (local_tip host ref w).0
                            (local_tip host ref w).1).1).0) [
                              | inl behind ↦ rw (other, aside, behind) (twice ref from w)
                              | inr apart ↦ rw (other, aside, apart) (twice ref from w)
                            ]
                ]
        ]

  pub refuse-Grows :
      (opts : LeaseOptions) (ref base_sha : Text)
      → Grows (refuse_diverging_local_branch host opts ref base_sha)
  unfolding refuse_diverging_local_branch
  refuse-Grows opts ref base_sha w = elim (Bool-cases (is_empty (local_tip host ref w).0)) [
    | inl absent ↦ rw absent (local_tip-Grows ref w)
    | inr there ↦
        elim (Bool-cases
          (is_ancestor host (local_tip host ref w).0 base_sha (local_tip host ref w).1).0) [
            | inl merged ↦ rw (there, merged) (reads (local_tip host ref w).0 base_sha ref w)
            | inr apart ↦ rw (there, apart) (reads (local_tip host ref w).0 base_sha ref w)
          ]
  ]

  pub fetched_marker-Grows :
      (opts : LeaseOptions) (tip : Text) → Grows (fetched_marker host opts tip)
  unfolding fetched_marker
  fetched_marker-Grows opts tip w = go (latest_marker host opts.plan_id tip w).0 refl
    where
      w₁ : W
      w₁ = (latest_marker host opts.plan_id tip w).1

      c : Command
      c = Command.fetch opts.remote (work_ref opts.plan_id)

      fetched : Extends remote w (host.run c w₁).1
      fetched =
          Extends-trans remote w w₁ _ (latest_marker-Grows opts.plan_id tip w) (run_grows c w₁)

      late :
          (o : Outcome)
          → (host.run c w₁).0 ≡ o
          → (latest_marker host opts.plan_id tip w).0 ≡ none
          → Extends remote w (fetched_marker host opts tip w).1
      late (ok out) e n =
          rw (fetched_marker, n, e)
            (Extends-trans remote w (host.run c w₁).1 _ fetched
              (latest_marker-Grows opts.plan_id tip _))
      late (fail err) e n = rw (fetched_marker, n, e) fetched

      go :
          (m : Option Marker)
          → (latest_marker host opts.plan_id tip w).0 ≡ m
          → Extends remote w (fetched_marker host opts tip w).1
      go (some m) e = rw (fetched_marker, e) (latest_marker-Grows opts.plan_id tip w)
      go none e = late (host.run c w₁).0 refl e
