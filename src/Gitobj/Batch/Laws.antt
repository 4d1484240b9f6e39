-- ===== src/Gitobj/Batch/Laws.antt =====
-- internal/gitobj/parse.go: the answers that git writes are read back, whatever the payloads hold.
use mathlib.Core.List.{append_assoc, map}
use frit.Base.{
  ℕ, zero, suc, ◌≤◌, ◌≡◌, refl, ◌∙◌, ap, Bool, false, not, some, List, [], ◌∷◌, ◌++◌, Text, codes,
  is_empty, is_space, any, cut, fields, text_eq, length, take, drop, length-append, ltb, ◌==◌, Memᴰ,
  arith,
}
use frit.Base.Strings.Laws.{IsWord, fields-append, fields-word, cut-append}
use frit.Base.Strings.Decimal.{
  decimal, is_digit, parse_int-decimal, decimal-digits, decimal_there, decimal-Lacks,
  decimal-spaceless, max_int64,
}
use frit.Gitobj.Batch.{
  Object, missing, present, Batch, objects, then_object, payload_of, answer_of, batch_from,
  parse_batch,
}

-- What git answers for one request: its name back, or an object.
pub data Answer : Type 0 where
  absent : (name : Text) → Answer
  found : (oid kind payload : Text) → Answer

abbrev header : Text → Text → ℕ → Text
header oid kind size = oid ++ 32 ∷ (kind ++ 32 ∷ decimal size)

abbrev pub print : Answer → Text
print (absent name) = (name ++ codes " missing") ++ 10 ∷ []
print (found oid kind payload) = header oid kind (length payload) ++ 10 ∷ (payload ++ 10 ∷ [])

abbrev pub object_of : Answer → Object
object_of (absent name) = missing
object_of (found oid kind payload) = present oid kind payload

abbrev pub IsAnswer : Answer → Type 0
IsAnswer (absent name) = IsWord name
IsAnswer (found oid kind payload) = IsWord oid × IsWord kind × (length payload ≤ max_int64)

abbrev pub print_all : List Answer → Text
print_all [] = []
print_all (a ∷ as') = print a ++ print_all as'

lacks_newline : (s : Text) → any is_space s ≡ false → any (λ c. c == 10) s ≡ false
unfolding is_space
lacks_newline [] h = refl
lacks_newline (c ∷ s) h = ground (arith, lacks_newline s)

any_both : (p : ℕ → Bool) (s t : Text) → any p s ≡ false → any p t ≡ false → any p (s ++ t) ≡ false
any_both p [] t h k = k
any_both p (c ∷ s) t h k = ground (arith, any_both p s t)

digits_not_missing :
    (s : Text)
    → is_empty s ≡ false
    → any (λ c. not (is_digit c)) s ≡ false
    → text_eq s (codes "missing") ≡ false
unfolding text_eq is_digit
digits_not_missing [] h k = absurd (cc)
digits_not_missing (c ∷ s) h k = ground arith

IsWord-decimal : (n : ℕ) → IsWord (decimal n)
IsWord-decimal n = record { there = decimal_there n; spaceless = decimal-spaceless n }

IsWord-missing : IsWord (codes "missing")
unfolding is_space
IsWord-missing = record { there = refl; spaceless = refl }

fields-header :
    (oid kind : Text) (n : ℕ)
    → IsWord oid
    → IsWord kind
    → fields (header oid kind n) ≡ oid ∷ kind ∷ decimal n ∷ []
fields-header oid kind n o k =
    fields-append oid (kind ++ 32 ∷ decimal n) o
    ∙ ap (λ l. oid ∷ l)
        (fields-append kind (decimal n) k
          ∙ ap (λ l. kind ∷ l) (fields-word (decimal n) (IsWord-decimal n)))

header_lacks :
    (oid kind : Text) (n : ℕ)
    → IsWord oid
    → IsWord kind
    → any (λ c. c == 10) (header oid kind n) ≡ false
header_lacks oid kind n o k =
    any_both (λ c. c == 10) oid _ (lacks_newline oid o.spaceless)
      (any_both (λ c. c == 10) kind _ (lacks_newline kind k.spaceless)
        (decimal-Lacks 10 n (omega arith)))

take-append : (s t : Text) → take (length s) (s ++ t) ≡ s
take-append [] t = refl
take-append (c ∷ s) t = ap (λ l. c ∷ l) (take-append s t)

drop-append : (s t : Text) → drop (length s) (s ++ t) ≡ t
drop-append [] t = refl
drop-append (c ∷ s) t = drop-append s t

payload_of-append :
    (next : Text → Batch) (oid kind payload t : Text)
    → payload_of next (payload ++ 10 ∷ t) oid kind (length payload)
      ≡ then_object (present oid kind payload) (next t)
unfolding payload_of
payload_of-append next oid kind payload t =
    let enough : ltb (length (payload ++ 10 ∷ t)) (length payload) ≡ false =
      ground (arith, length-append payload (10 ∷ t)) in
    rw (enough, take-append payload (10 ∷ t), drop-append payload (10 ∷ t), payload_of) refl

batch_from-cut :
    (fuel : ℕ) (s header' rest : Text)
    → cut 10 s ≡ some (header', rest)
    → batch_from (suc fuel) s ≡ answer_of (batch_from fuel) header' rest
unfolding batch_from cut
batch_from-cut fuel [] header' rest e = absurd (cc)
batch_from-cut fuel (c ∷ s) header' rest e = rw (e, batch_from) refl

answer_of-missing :
    (next : Text → Batch) (line name rest : Text)
    → fields line ≡ name ∷ codes "missing" ∷ []
    → answer_of next line rest ≡ then_object missing (next rest)
unfolding answer_of text_eq
answer_of-missing next line name rest e = rw (e, answer_of) refl

answer_of-found :
    (next : Text → Batch) (line oid kind payload t : Text)
    → fields line ≡ oid ∷ kind ∷ decimal (length payload) ∷ []
    → length payload ≤ max_int64
    → answer_of next line (payload ++ 10 ∷ t) ≡ then_object (present oid kind payload) (next t)
unfolding answer_of
answer_of-found next line oid kind payload t e l =
    rw
      (
        e,
        digits_not_missing (decimal (length payload)) (decimal_there (length payload))
            (decimal-digits (length payload)),
        answer_of,
        e,
        parse_int-decimal (length payload) l,
      )
      (payload_of-append next oid kind payload t)

-- One answer is read, and the loop goes on behind it.
batch_from-print :
    (fuel : ℕ) (a : Answer) (t : Text)
    → IsAnswer a
    → batch_from (suc fuel) (print a ++ t) ≡ then_object (object_of a) (batch_from fuel t)
batch_from-print fuel (absent name) t h =
    let line : Text = name ++ codes " missing" in
    let lacks =
      any_both (λ c. c == 10) name (codes " missing") (lacks_newline name h.spaceless) refl in
    batch_from-cut fuel ((line ++ 10 ∷ []) ++ t) line t
      (ap (cut 10) (append_assoc line (10 ∷ []) t) ∙ cut-append 10 line t lacks)
    ∙ answer_of-missing (batch_from fuel) line name t (
        fields-append name (codes "missing") h
        ∙ ap (λ l. name ∷ l) (fields-word (codes "missing") IsWord-missing))
batch_from-print fuel (found oid kind payload) t (o, k, l) =
    let line : Text = header oid kind (length payload) in
    let body : Text = payload ++ 10 ∷ t in
    batch_from-cut fuel ((line ++ 10 ∷ (payload ++ 10 ∷ [])) ++ t) line body (
      ap (cut 10) (
        append_assoc line (10 ∷ (payload ++ 10 ∷ [])) t
        ∙ ap (λ s. line ++ 10 ∷ s) (append_assoc payload (10 ∷ []) t))
      ∙ cut-append 10 line body (header_lacks oid kind (length payload) o k))
    ∙ answer_of-found (batch_from fuel) line oid kind payload t
        (fields-header oid kind (length payload) o k) l

batch_from-print_all :
    (fuel : ℕ) (answers : List Answer)
    → length answers ≤ fuel
    → ((a : Answer) → Memᴰ a answers → IsAnswer a)
    → batch_from fuel (print_all answers) ≡ objects (map object_of answers)
batch_from-print_all fuel [] h all_good = unfold batch_from in refl
batch_from-print_all zero (a ∷ as') h all_good = absurd (omega arith)
batch_from-print_all (suc fuel) (a ∷ as') h all_good =
    batch_from-print fuel a (print_all as') (all_good a (Memᴰ.head refl))
    ∙ ap (then_object (object_of a))
        (batch_from-print_all fuel as' (omega arith) (λ b m. all_good b (Memᴰ.tail m)))

length-print_all : (answers : List Answer) → length answers ≤ length (print_all answers)
length-print_all [] = omega arith
length-print_all (absent name ∷ as') = omega (
  arith,
  length-print_all as',
  length-append (print (absent name)) (print_all as'),
  length-append (name ++ codes " missing") (10 ∷ []),
)
length-print_all (found oid kind payload ∷ as') = omega (
  arith,
  length-print_all as',
  length-append (print (found oid kind payload)) (print_all as'),
  length-append (header oid kind (length payload)) (10 ∷ (payload ++ 10 ∷ [])),
)

-- What git answers to any requests is read back object by object: a missing object as missing, another
-- with its id, its type and its payload byte for byte, line feeds and header-like lines included.
-- Names, ids and types are words, and a payload's length is a 64-bit number.
pub parse_batch-print_all :
    (answers : List Answer)
    → ((a : Answer) → Memᴰ a answers → IsAnswer a)
    → parse_batch (print_all answers) ≡ objects (map object_of answers)
unfolding parse_batch
parse_batch-print_all answers h =
    batch_from-print_all (length (print_all answers)) answers (length-print_all answers) h
