-- ===== src/Gitobj/Batch/Fuel.antt =====
-- internal/gitobj/parse.go: the loop of `ParseBatch` ends; the fuel of the text's length is enough.
use frit.Base.{
  ℕ, zero, suc, ◌≤◌, ◌<◌, ◌≡◌, ◌≢◌, sym, ap, inl, inr, Option, none, some, List, [], ◌∷◌, Text,
  Bool-cases, Option-cases, cut, fields, length, drop, ltb, ◌==◌, arith,
}
use mathlib.Core.Option.{some_inj, some-ne-none}
use frit.Base.Strings.Decimal.{parse_int}
use frit.Gitobj.{is_missing}
use frit.Gitobj.Batch.{
  Object, Batch, broken, objects, out_of_fuel, then_object, skip_newline, payload_of, sized,
  three_fields, answer_of, batch_from, parse_batch,
}

-- The answer is not that of a loop cut short.
abbrev pub IsWhole : Batch → Type 0
IsWhole b = b ≢ broken out_of_fuel

then_object-IsWhole : (o : Object) (b : Batch) → IsWhole b → IsWhole (then_object o b)
then_object-IsWhole o (objects os) h e = cc
then_object-IsWhole o (broken x) h e = h e

drop-length : (n : ℕ) (s : Text) → length (drop n s) ≤ length s
drop-length zero s = omega arith
drop-length (suc n) [] = omega arith
drop-length (suc n) (c ∷ cs) = omega (arith, drop-length n cs)

skip_newline-length : (s : Text) → length (skip_newline s) ≤ length s
skip_newline-length [] = omega arith
skip_newline-length (c ∷ cs) = ground arith

cut-length :
    (sep : ℕ) (s before after : Text) → cut sep s ≡ some (before, after) → length after < length s
unfolding cut
cut-length sep [] before after h = absurd (cc)
cut-length sep (c ∷ cs) before after h = elim (Bool-cases (c == sep)) [
  | inl t ↦ let e = ap (λ p. length p.1) (some_inj.0 (rw t at h)) in omega arith
  | inr f ↦ elim (Option-cases (cut sep cs)) [
    | inl n ↦ absurd (some-ne-none (before, after) (sym (rw (f, n) at h)))
    | inr ((b, a), k) ↦
        let e = ap (λ p. length p.1) (some_inj.0 (rw (f, k) at h)) in
        omega (arith, cut-length sep cs b a k)
  ]
]

module _ (next : Text → Batch) (n : ℕ) (whole : (s : Text) → length s ≤ n → IsWhole (next s)) where
  payload_of-IsWhole :
      (rest oid kind : Text) (size : ℕ)
      → length rest ≤ n
      → IsWhole (payload_of next rest oid kind size)
  unfolding payload_of
  payload_of-IsWhole rest oid kind size l = elim (Bool-cases (ltb (length rest) size)) [
    | inl t ↦ rw (t, payload_of) λ e. cc
    | inr f ↦
        rw (f, payload_of)
          (then_object-IsWhole _ _ (
            whole (skip_newline (drop size rest))
              (omega (arith, l, drop-length size rest, skip_newline-length (drop size rest)))))
  ]

  sized-IsWhole :
      (header rest oid kind : Text) (size : Option ℕ)
      → length rest ≤ n
      → IsWhole (sized next header rest oid kind size)
  sized-IsWhole header rest oid kind none l = λ e. cc
  sized-IsWhole header rest oid kind (some size) l = payload_of-IsWhole rest oid kind size l

  three_fields-IsWhole :
      (header rest : Text) (fs : List Text)
      → length rest ≤ n
      → IsWhole (three_fields next header rest fs)
  three_fields-IsWhole header rest [] l = λ e. cc
  three_fields-IsWhole header rest (a ∷ []) l = λ e. cc
  three_fields-IsWhole header rest (a ∷ b ∷ []) l = λ e. cc
  three_fields-IsWhole header rest (a ∷ b ∷ c ∷ []) l =
      sized-IsWhole header rest a b (parse_int c) l
  three_fields-IsWhole header rest (a ∷ b ∷ c ∷ d ∷ fs) l = λ e. cc

  answer_of-IsWhole : (header rest : Text) → length rest ≤ n → IsWhole (answer_of next header rest)
  unfolding answer_of
  answer_of-IsWhole header rest l = elim (Bool-cases (is_missing (fields header))) [
    | inl t ↦ rw (t, answer_of) (then_object-IsWhole _ _ (whole rest l))
    | inr f ↦ rw (f, answer_of) (three_fields-IsWhole header rest (fields header) l)
  ]

batch_from-IsWhole : (fuel : ℕ) (s : Text) → length s ≤ fuel → IsWhole (batch_from fuel s)
unfolding batch_from
batch_from-IsWhole zero [] l = λ e. cc
batch_from-IsWhole (suc fuel) [] l = λ e. cc
batch_from-IsWhole zero (c ∷ cs) l = absurd (omega arith)
batch_from-IsWhole (suc fuel) (c ∷ cs) l = elim (Option-cases (cut 10 (c ∷ cs))) [
  | inl n ↦ rw (n, batch_from) λ e. cc
  | inr ((header, rest), h) ↦
      rw (h, batch_from)
        (answer_of-IsWhole (batch_from fuel) fuel (batch_from-IsWhole fuel) header rest
          (omega (arith, l, cut-length 10 (c ∷ cs) header rest h)))
]

-- The loop of `ParseBatch` ends on every text: the fuel that it is given here is never used up.
pub parse_batch-IsWhole : (text : Text) → IsWhole (parse_batch text)
unfolding parse_batch
parse_batch-IsWhole text = batch_from-IsWhole (length text) text (omega arith)
