-- ===== src/Claim/Remote.antt =====
-- The shared remote as the lease relies on it: its history of ref changes, and what a push that
-- was accepted and a read show of it.
use mathlib.Core.List.{append_assoc}
use frit.Base.{◌≡◌, refl, sym, ◌∙◌, ap, List, [], ◌∷◌, ◌++◌, Text, text_eq, fields, if◌then◌else◌}
use frit.Claim.Host.{Command, Outcome, Host}
use frit.Claim.Push.{first_field}

-- One change of a ref on the remote; an empty text is an absent ref.
pub record Change : Type 0 where
  pub ref : Text
  pub old : Text
  pub new : Text

-- What a ref points at behind a history, the newest change first.
unfoldable pub value_of : List Change → Text → Text
value_of [] r = []
value_of (c ∷ cs) r = let rest = value_of cs r in if text_eq c.ref r then c.new else rest

-- What is relied on of git and of the remote. A call only adds to the history, in which other
-- machines write too, between the calls and during one.
pub record Remote {W : Type 0} (host : Host W) : Type 0 where
  pub history : W → List Change
  pub run_grows :
      (c : Command) (w : W) → (ext : List Change) × (history (host.run c w).1 ≡ ext ++ history w)
  pub nonce_grows : (w : W) → (ext : List Change) × (history (host.nonce w).1 ≡ ext ++ history w)
  pub write_grows :
      (path content : Text) (w : W)
      → (ext : List Change) × (history (host.write_file path content w).1 ≡ ext ++ history w)
  -- A push that is accepted leaves the ref at the pushed value, absent for a delete, at some moment
  -- of the call.
  pub push_shows :
      (remote ref expected src : Text) (w : W) (out : Text)
      → (host.run (Command.push remote ref expected src) w).0 ≡ Outcome.ok out
      → (newer : List Change) × (older : List Change) × (history
            (host.run (Command.push remote ref expected src) w).1
          ≡ newer ++ (older ++ history w))
        × (value_of (older ++ history w) ref ≡ src)
  -- A read shows what the ref points at at some moment of the call.
  pub read_shows :
      (remote ref : Text) (w : W) (out : Text)
      → (host.run (Command.ls_remote remote ref) w).0 ≡ Outcome.ok out
      → (newer : List Change) × (older : List Change) × (history
            (host.run (Command.ls_remote remote ref) w).1
          ≡ newer ++ (older ++ history w))
        × (value_of (older ++ history w) ref ≡ first_field (fields out))

module _ {W : Type 0} {host : Host W} (remote : Remote host) where
  open remote use {history}

  -- The second state comes behind the first.
  abbrev pub Extends : W → W → Type 0
  Extends w w' = (ext : List Change) × (history w' ≡ ext ++ history w)

  -- At some moment between the two states the ref pointed at the value.
  abbrev pub Seen : Text → Text → W → W → Type 0
  Seen ref v w w' =
      (newer : List Change) × (older : List Change) × (history w' ≡ newer ++ (older ++ history w))
      × (value_of (older ++ history w) ref ≡ v)

  pub Extends-refl : (w : W) → Extends w w
  Extends-refl w = ([], refl)

  pub Extends-trans : (u v w : W) → Extends u v → Extends v w → Extends u w
  Extends-trans u v w (e, p) (f, q) = (f ++ e, q ∙ ap (λ h. f ++ h) p ∙ sym (append_assoc f e _))

  pub Seen-widen :
      (ref x : Text) (t u v w : W) → Extends t u → Seen ref x u v → Extends v w → Seen ref x t w
  Seen-widen ref x t u v w (e, p) (newer, older, q, s) (f, r) = (
    f ++ newer,
    older ++ e,
    r ∙ ap (λ h. f ++ h) (q ∙ ap (λ h. newer ++ (older ++ h)) p) ∙ simp append_assoc,
    ap (λ h. value_of h ref) (append_assoc older e _ ∙ ap (λ h. older ++ h) (sym p)) ∙ s,
  )

  pub Seen-Extends : (ref x : Text) (v w : W) → Seen ref x v w → Extends v w
  Seen-Extends ref x v w (newer, older, q, s) =
      (newer ++ older, q ∙ sym (append_assoc newer older _))
