-- ===== src/Planmeta/Tiers/Laws.antt =====
-- The widened order of tiers: what it ranks, and that no two tiers share a rank.
use frit.Base.{
  ℕ, suc, ◌≤◌, ◌<◌, ◌≡◌, refl, sym, ap, ◌∙◌, ◌⊎◌, inl, inr, true, ◌||◌, Option, none, some, List,
  [], ◌∷◌, Text, text_eq, codes, ltb, any, if◌then◌else◌, ◌==◌, arith, Bool-cases, Option-cases,
}
use frit.Base.Strings.Laws.{text_eq_iff, eq_of_text_eq}
use mathlib.Core.Option.{some_inj, some-ne-none}
use frit.Planmeta.Tiers.{
  Rank, tier_rank, is_ranked, known_tier, with_rank, rank_from, vocab_rank,
  most_demanding_tier_ranked_by,
}

-- No two texts share a rank, and every rank is below `next`.
record IsRanking (rank : Rank) (next : ℕ) : Type 0 where
  pub below : (t : Text) (n : ℕ) → rank t ≡ some n → n < next
  pub apart : (s t : Text) (n : ℕ) → rank s ≡ some n → rank t ≡ some n → s ≡ t

with_rank-IsRanking :
    (rank : Rank) (next : ℕ) (t : Text)
    → IsRanking rank next
    → IsRanking (with_rank rank t next) (suc next)
with_rank-IsRanking rank next t r = record { below = below; apart = apart }
  where
    below : (s : Text) (n : ℕ) → with_rank rank t next s ≡ some n → n < suc next
    below s n h = elim (Bool-cases (text_eq s t)) [
      | inl e ↦ let k = some_inj.0 (rw e at h) in omega arith
      | inr e ↦ let k = r.below s n (rw e at h) in omega arith
    ]

    apart :
        (s u : Text) (n : ℕ)
        → with_rank rank t next s ≡ some n
        → with_rank rank t next u ≡ some n
        → s ≡ u
    apart s u n h k = elim (Bool-cases (text_eq s t)) [
      | inl e ↦ elim (Bool-cases (text_eq u t)) [
        | inl f ↦ eq_of_text_eq s t e ∙ sym (eq_of_text_eq u t f)
        | inr f ↦
            let a = some_inj.0 (rw e at h) in
            let b = r.below u n (rw f at k) in absurd (omega arith)
      ]
      | inr e ↦ elim (Bool-cases (text_eq u t)) [
        | inl f ↦
            let a = some_inj.0 (rw f at k) in
            let b = r.below s n (rw e at h) in absurd (omega arith)
        | inr f ↦ r.apart s u n (rw e at h) (rw f at k)
      ]
    ]

rank_from-apart :
    (rank : Rank) (next : ℕ) (ts : List Text)
    → IsRanking rank next
    → (s t : Text) (n : ℕ) → rank_from rank next ts s ≡ some n
    → rank_from rank next ts t ≡ some n
    → s ≡ t
unfolding rank_from
rank_from-apart rank next [] r s t n h k = r.apart s t n h k
rank_from-apart rank next (u ∷ us) r s t n h k = elim (Option-cases (rank u)) [
  | inr (m, e) ↦
      rank_from-apart rank next us r s t n (rw (e, rank_from) at h) (rw (e, rank_from) at k)
  | inl e ↦
      rank_from-apart (with_rank rank u next) (suc next) us (with_rank-IsRanking rank next u r) s t
        n (rw (e, rank_from) at h) (rw (e, rank_from) at k)
]

with_rank-keeps :
    (rank : Rank) (u t : Text) (next n : ℕ)
    → rank u ≡ none
    → rank t ≡ some n
    → with_rank rank u next t ≡ some n
with_rank-keeps rank u t next n e h = elim (Bool-cases (text_eq t u)) [
  | inl f ↦ absurd (some-ne-none n (sym h ∙ ap rank (eq_of_text_eq t u f) ∙ e))
  | inr f ↦ rw f h
]

rank_from-keeps :
    (rank : Rank) (next : ℕ) (ts : List Text) (t : Text) (n : ℕ)
    → rank t ≡ some n
    → rank_from rank next ts t ≡ some n
unfolding rank_from
rank_from-keeps rank next [] t n h = h
rank_from-keeps rank next (u ∷ us) t n h = elim (Option-cases (rank u)) [
  | inr (m, e) ↦ rw (e, rank_from) (rank_from-keeps rank next us t n h)
  | inl e ↦
      rw (e, rank_from)
        (rank_from-keeps (with_rank rank u next) (suc next) us t n
          (with_rank-keeps rank u t next n e h))
]

text_eq_sym : (s t : Text) → text_eq s t ≡ true → text_eq t s ≡ true
text_eq_sym s t h = (text_eq_iff t s).1 (sym (eq_of_text_eq s t h))

rank_from-ranks :
    (rank : Rank) (next : ℕ) (ts : List Text) (t : Text)
    → is_ranked (rank_from rank next ts t) ≡ (is_ranked (rank t) || any (λ u. text_eq u t) ts)
unfolding rank_from
rank_from-ranks rank next [] t = ground arith
rank_from-ranks rank next (u ∷ us) t = elim (Option-cases (rank u)) [
  | inr (m, e) ↦
      rw (e, rank_from)
        (rank_from-ranks rank next us t ∙ elim (Bool-cases (text_eq u t)) [
          | inl f ↦ rw (f, sym (ap rank (eq_of_text_eq u t f)) ∙ e) refl
          | inr f ↦ rw f refl
        ])
  | inl e ↦
      rw (e, rank_from)
        (rank_from-ranks (with_rank rank u next) (suc next) us t
          ∙ ground (arith, text_eq_sym u t, text_eq_sym t u))
]

tier_name : ℕ → Text
tier_name n =
    if n == 0
    then codes "haiku"
    else if n == 1
    then codes "sonnet"
    else if n == 2
    then codes "opus"
    else codes "fable"

tier_rank-tier_name : (t : Text) (n : ℕ) → tier_rank t ≡ some n → (t ≡ tier_name n) × (n < 4)
unfolding tier_rank tier_name
tier_rank-tier_name t n h = elim (Bool-cases (text_eq t (codes "haiku"))) [
  | inl a ↦ named 0 (omega arith) (eq_of_text_eq t _ a) (rw a at h)
  | inr a ↦ elim (Bool-cases (text_eq t (codes "sonnet"))) [
    | inl b ↦ named 1 (omega arith) (eq_of_text_eq t _ b) (rw (a, b) at h)
    | inr b ↦ elim (Bool-cases (text_eq t (codes "opus"))) [
      | inl c ↦ named 2 (omega arith) (eq_of_text_eq t _ c) (rw (a, b, c) at h)
      | inr c ↦ elim (Bool-cases (text_eq t (codes "fable"))) [
        | inl d ↦ named 3 (omega arith) (eq_of_text_eq t _ d) (rw (a, b, c, d) at h)
        | inr d ↦ absurd (some-ne-none n (sym (rw (a, b, c, d) at h)))
      ]
    ]
  ]
]
  where
    named : (m : ℕ) → m < 4 → t ≡ tier_name m → some m ≡ some n → (t ≡ tier_name n) × (n < 4)
    named m l e k = let q = some_inj.0 k in (e ∙ ap tier_name q, omega arith)

tier_rank-IsRanking : IsRanking tier_rank 4
tier_rank-IsRanking = record {
  below = λ t n h. (tier_rank-tier_name t n h).1;
  apart = λ s t n h k. (tier_rank-tier_name s n h).0 ∙ sym (tier_rank-tier_name t n k).0;
}

-- What a repository's vocabulary makes of the order of tiers.
pub record IsWidened (vocab : List Text) (rank : Rank) : Type 0 where
  pub keeps : (t : Text) (n : ℕ) → tier_rank t ≡ some n → rank t ≡ some n
  pub ranks : (t : Text) → is_ranked (rank t) ≡ (known_tier t || any (λ u. text_eq u t) vocab)
  pub apart : (s t : Text) (n : ℕ) → rank s ≡ some n → rank t ≡ some n → s ≡ t

-- A vocabulary widens the order of the built-in tiers: those keep their ranks, a text is ranked exactly
-- where it is a built-in tier or stands in the vocabulary, and no two texts share a rank.
pub vocab_rank-IsWidened : (vocab : List Text) → IsWidened vocab (vocab_rank vocab)
unfolding vocab_rank known_tier
vocab_rank-IsWidened vocab = record {
  keeps = rank_from-keeps tier_rank 4 vocab;
  ranks = rank_from-ranks tier_rank 4 vocab;
  apart = rank_from-apart tier_rank 4 vocab tier_rank-IsRanking;
}

ranked_some : (o : Option ℕ) → is_ranked o ≡ true → (n : ℕ) × (o ≡ some n)
ranked_some none h = absurd (cc)
ranked_some (some n) h = (n, refl)

-- A tier of the two whose rank is at least both.
pub record IsDemanding (rank : Rank) (a b t : Text) : Type 0 where
  pub one : (t ≡ a) ⊎ (t ≡ b)
  pub top : ℕ
  pub ranked : rank t ≡ some top
  pub above_a : (n : ℕ) → rank a ≡ some n → n ≤ top
  pub above_b : (n : ℕ) → rank b ≡ some n → n ≤ top

-- Of two tiers that a ranking ranks, the more demanding one is picked: one of the two, whose rank is at
-- least that of each.
pub most_demanding_tier_ranked_by-IsDemanding :
    (rank : Rank) (a b : Text)
    → is_ranked (rank a) ≡ true
    → is_ranked (rank b) ≡ true
    → IsDemanding rank a b (most_demanding_tier_ranked_by a b rank)
unfolding most_demanding_tier_ranked_by
most_demanding_tier_ranked_by-IsDemanding rank a b h k =
    let (m, e) = ranked_some (rank a) h in
    let (n, f) = ranked_some (rank b) k in
    rw (e, f)
      (elim (Bool-cases (ltb m n)) [
        | inl l ↦ rw l (record {
          one = inr refl;
          top = n;
          ranked = f;
          above_a = λ x g. let q = some_inj.0 (sym e ∙ g) in ground arith;
          above_b = λ x g. let q = some_inj.0 (sym f ∙ g) in omega arith;
        })
        | inr l ↦ rw l (record {
          one = inl refl;
          top = m;
          ranked = e;
          above_a = λ x g. let q = some_inj.0 (sym e ∙ g) in omega arith;
          above_b = λ x g. let q = some_inj.0 (sym f ∙ g) in ground arith;
        })
      ])
