-- ===== src/Base/Order.antt =====
-- Orders built the way the source's `less` functions are: by one key, ties broken by the next.
use frit.Base.Tests.{if◌then◌else◌, ltb, ◌==◌, ==_iff, Bool-cases}
use frit.Base.Sort.{IsWeakOrder}
use frit.Base.Strings.{Text, text_eq, text_ltb}
use frit.Base.Strings.Laws.{text_eq_iff, text_ltb_asym, text_ltb_total, text_ltb_trans}
use mathlib.Core.Path.{◌≡◌, sym}
use mathlib.Core.Bool.{Bool, true, false, not}
use mathlib.Core.Logic.{◌↔◌, inl, inr}
use native.Mathlib.Omega.{arith}

pub record IsKeyOrder {ℓ} {K : Type ℓ} (eqb ltk : K → K → Bool) : Type ℓ where
  pub eq_iff : (a b : K) → (eqb a b ≡ true) ↔ (a ≡ b)
  pub asym : (a b : K) → ltk a b ≡ true → ltk b a ≡ false
  pub trans : (a b c : K) → ltk b a ≡ false → ltk c b ≡ false → ltk c a ≡ false
  pub total : (a b : K) → ltk a b ≡ false → ltk b a ≡ false → a ≡ b

text_ltb_cotrans :
    (s t u : Text) → text_ltb t s ≡ false → text_ltb u t ≡ false → text_ltb u s ≡ false
text_ltb_cotrans s t u h k = elim (Bool-cases (text_ltb u s)) [
  | inl lt ↦ elim (Bool-cases (text_ltb s t)) [
    | inl st ↦ absurd (ground (arith, text_ltb_trans u s t))
    | inr ge ↦ absurd (ground (arith, text_ltb_total s t))
  ]
  | inr ge ↦ ge
]

pub text_order : IsKeyOrder text_eq text_ltb
text_order = record {
  eq_iff = text_eq_iff;
  asym = text_ltb_asym;
  trans = text_ltb_cotrans;
  total = text_ltb_total;
}

pub nat_order : IsKeyOrder ◌==◌ ltb
nat_order = record {
  eq_iff = ==_iff;
  asym = λ a b h. ground arith;
  trans = λ a b c h k. ground arith;
  total = λ a b h k. ground arith;
}

-- Larger numbers first.
pub nat_order_descending : IsKeyOrder ◌==◌ (λ a b. ltb b a)
nat_order_descending = record {
  eq_iff = ==_iff;
  asym = λ a b h. ground arith;
  trans = λ a b c h k. ground arith;
  total = λ a b h k. ground arith;
}

abbrev pub bool_eq : Bool → Bool → Bool
bool_eq true b = b
bool_eq false b = not b

module _ {ℓ κ} {A : Type ℓ} {K : Type κ} {eqb ltk : K → K → Bool} (key : A → K)
    (order : IsKeyOrder eqb ltk) where
  open order use {eq_iff, asym, trans, total}

  pub by_key-IsWeakOrder : IsWeakOrder (λ a b. ltk (key a) (key b))
  by_key-IsWeakOrder = record {
    asym = λ a b. asym (key a) (key b);
    trans = λ a b c. trans (key a) (key b) (key c);
  }

  module _ {less : A → A → Bool} (ties : IsWeakOrder less) where
    eqb_sym : (a b : K) → eqb a b ≡ true → eqb b a ≡ true
    eqb_sym a b h = (eq_iff b a).1 (sym ((eq_iff a b).0 h))

    lex : A → A → Bool
    lex a b = if not (eqb (key a) (key b)) then ltk (key a) (key b) else less a b

    lex_asym : (a b : A) → lex a b ≡ true → lex b a ≡ false
    unfolding lex
    lex_asym a b h = ground (
      arith,
      eqb_sym (key a) (key b),
      eqb_sym (key b) (key a),
      asym (key a) (key b),
      ties.asym a b,
    )

    -- `eqb` as a test that decides equality.
    lex_trans : (a b c : A) → lex b a ≡ false → lex c b ≡ false → lex c a ≡ false
    unfolding lex
    lex_trans a b c h k = ground (
      arith,
      eq_iff (key b) (key a),
      eq_iff (key c) (key b),
      eq_iff (key c) (key a),
      trans (key a) (key b) (key c),
      total (key b) (key a),
      total (key c) (key b),
      total (key a) (key b),
      total (key b) (key c),
      asym (key c) (key a),
      ties.trans a b c,
    )

    pub lex-IsWeakOrder :
        IsWeakOrder (λ a b. if not (eqb (key a) (key b)) then ltk (key a) (key b) else less a b)
    unfolding lex
    lex-IsWeakOrder = record { asym = lex_asym; trans = lex_trans }
