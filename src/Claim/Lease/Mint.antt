-- ===== src/Claim/Lease/Mint.antt =====
-- internal/claim/lease.go: the commit that `mintMarker` makes.
use frit.Base.{ℕ, ◌≡◌, refl, Bool, Text, codes, ◌++◌}
use frit.Claim.{Kind, LeaseOptions}
use frit.Claim.Effects.{M, ◌>>=◌, output}
use frit.Claim.Fault.{Result, done, failed}
use frit.Claim.Host.{Command, Host}
use frit.Claim.Message.{lease_message}
use frit.Claim.Read.{ask_trimmed}
use frit.Claim.Lease.{sign_args, mint_marker}

>>=-done :
    {W A B : Type 0} (m : M W A) (f : A → M W B) (w : W) (b : B)
    → ((m >>= f) w).0 ≡ done b
    → (a : A) × ((m w).0 ≡ done a) × ((f a (m w).1).0 ≡ done b)
>>=-done {W} {A} m f w b = go (m w).0 refl
  where
    go :
        (r : Result A)
        → (m w).0 ≡ r
        → ((m >>= f) w).0 ≡ done b
        → (a : A) × ((m w).0 ≡ done a) × ((f a (m w).1).0 ≡ done b)
    go (done a) e = rw (e, ◌>>=◌) λ k. (a, refl, k)
    go (failed x) e = rw (e, ◌>>=◌) λ k. absurd (cc)

module _ {W : Type 0} (host : Host W) where
  -- Git answered the id when it was asked, in some state, for a commit whose message is the lease's for
  -- these options, of this kind and in this epoch.
  pub record IsMinted (opts : LeaseOptions) (kind : Kind) (epoch : ℕ) (tip : Text) : Type 0 where
    pub state : W
    pub tree : Text
    pub parent : Text
    pub sign : Bool
    pub nonce : Text
    pub base : Text
    pub committed :
        (ask_trimmed host
          (Command.commit_tree tree parent sign (lease_message kind opts epoch nonce base))
          state).0
        ≡ done tip

  module _ (kind : Kind) (parent : Text) (opts : LeaseOptions) (epoch : ℕ) (base : Text) where
    abbrev read_tree : M W Text
    read_tree = ask_trimmed host (Command.rev_parse (parent ++ codes "^{tree}"))

    abbrev draw : M W Text
    draw w = let (o, w') = host.nonce w in (output o, w')

    abbrev signed : Text → Text → Bool → M W Text
    signed tree nonce sign =
        ask_trimmed host
          (Command.commit_tree tree parent sign (lease_message kind opts epoch nonce base))

    abbrev drawn : Text → Text → M W Text
    drawn tree nonce = sign_args host >>= signed tree nonce

    abbrev placed : Text → M W Text
    placed tree = draw >>= drawn tree

    pub mint_marker-IsMinted :
        (w : W) (tip : Text)
        → (mint_marker host kind parent opts epoch base w).0 ≡ done tip
        → IsMinted opts kind epoch tip
    unfolding mint_marker
    mint_marker-IsMinted w tip h =
        let (tree, e, k) = >>=-done read_tree placed w tip h in
        let (nonce, e', k') = >>=-done draw (drawn tree) (read_tree w).1 tip k in
        let (sign, e'', k'') =
          >>=-done (sign_args host) (signed tree nonce) (draw (read_tree w).1).1 tip k' in
        record {
          state = (sign_args host (draw (read_tree w).1).1).1;
          tree = tree;
          parent = parent;
          sign = sign;
          nonce = nonce;
          base = base;
          committed = k'';
        }
