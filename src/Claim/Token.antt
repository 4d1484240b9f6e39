-- ===== src/Claim/Token.antt =====
-- internal/claim/token.go: the file in which a lane keeps the tip of its lease.
use frit.Base.{ℕ, ◌||◌, [], ◌++◌, Text, codes, text_eq, is_empty, trim_space, if◌then◌else◌}
use frit.Base.Strings.Decimal.{decimal}
use frit.Claim.{LeaseOptions}
use frit.Claim.Effects.{M, output, ◌>>=◌, pure}
use frit.Claim.Fault.{Result, done, failed}
use frit.Claim.Host.{Command, Host}

-- `filepath.Join` of an absolute directory without a trailing slash.
abbrev pub token_file : Text → ℕ → Text
token_file dir id = dir ++ (codes "/frit/token-" ++ decimal id)

abbrev or_nothing : Result Text → Text
or_nothing (done text) = trim_space text
or_nothing (failed e) = []

abbrev no_value : Result Text → Result (Unit {0})
no_value (done out) = done tt
no_value (failed e) = failed e

module _ {W : Type 0} (host : Host W) where
  unfoldable pub token_path : Text → ℕ → M W Text
  token_path lane id = do
    dir ← λ w. let (o, w') = host.run (Command.git_dir lane) w in (output o, w')
    pure (token_file (trim_space dir) id)

  unfoldable pub read_token : Text → ℕ → W → Text × W
  read_token lane id w =
      let (path, w₁) = token_path lane id w in
      elim path [
        | failed e ↦ ([], w₁)
        | done p ↦ let (o, w₂) = host.read_file p w₁ in (or_nothing (output o), w₂)
      ]

  abbrev pub store_token : Text → Text → M W (Unit {0})
  store_token tip path w =
      let (o, w') = host.write_file path (tip ++ codes "\n") w in (no_value (output o), w')

  -- An unbound lane or an empty tip is skipped.
  unfoldable pub write_token : Text → ℕ → Text → M W (Unit {0})
  write_token lane id tip w =
      let written = (token_path lane id >>= store_token tip) w in
      if is_empty lane || (text_eq lane (codes "-") || is_empty tip) then (done tt, w) else written

  -- Its error is dropped.
  unfoldable pub persist_token : LeaseOptions → Text → W → W
  unfolding write_token
  persist_token opts tip w = (write_token opts.lane opts.plan_id tip w).1
