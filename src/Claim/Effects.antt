-- ===== src/Claim/Effects.antt =====
-- A Go function that returns a value and an error and runs calls on the machine: a state and error
-- monad. The state outlives an error.
use frit.Base.{Text, trim_right_of}
use frit.Claim.Fault.{Fault, git, wrapped, Result, done, failed}
use frit.Claim.Host.{Outcome, ok, fail}

abbrev pub M : Type 0 → Type 0 → Type 0
M W A = W → Result A × W

module _ {W : Type 0} where
  abbrev pub pure : {A : Type 0} → A → M W A
  pure a w = (done a, w)

  abbrev pub throw : {A : Type 0} → Fault → M W A
  throw e w = (failed e, w)

  -- A call that cannot fail, or whose error is dropped (`_, _ = run(…)`).
  abbrev pub lift : {A : Type 0} → (W → A × W) → M W A
  lift m w = let (a, w') = m w in (done a, w')

  infixl 5 ◌>>=◌ ◌>>◌
  abbrev pub ◌>>=◌ : {A B : Type 0} → M W A → (A → M W B) → M W B
  ◌>>=◌ m f w = let (r, w') = m w in elim r [ done a ↦ f a w' | failed e ↦ (failed e, w') ]

  abbrev pub ◌>>◌ : {A B : Type 0} → M W A → M W B → M W B
  m >> k = m >>= λ _. k

  -- `if err != nil { return fmt.Errorf("…: %w", err) }`
  abbrev pub wrap : {A : Type 0} → Text → M W A → M W A
  wrap what m w =
      let (r, w') = m w in
      elim r [ done a ↦ (done a, w') | failed e ↦ (failed (wrapped what e), w') ]

-- A call's output, or its error.
abbrev pub output : Outcome → Result Text
output (ok out) = done out
output (fail err) = failed (git err)

-- `trimmed`: the output without its trailing newlines.
unfoldable pub trimmed : Outcome → Result Text
trimmed (ok out) = done (trim_right_of 10 out)
trimmed (fail err) = failed (git err)
