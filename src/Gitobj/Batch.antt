-- ===== src/Gitobj/Batch.antt =====
-- internal/gitobj/parse.go: the answers of `git cat-file --batch`, each a header line and a payload of
-- as many bytes as the header says. A header is ASCII.
use frit.Base.{
  ℕ, zero, suc, Bool, true, false, Option, none, some, List, [], ◌∷◌, ◌++◌, Text, codes, cut,
  fields, length, take, drop, ltb, ◌==◌, text_eq, if◌then◌else◌,
}
use frit.Base.Strings.Decimal.{parse_int}
use frit.Gitobj.{is_missing, PipeRunner}
pub mod Laws
pub mod Fuel

pub data Object : Type 0 where
  missing : Object
  present : (oid kind payload : Text) → Object

pub data BatchError : Type 0 where
  truncated_header : (rest : Text) → BatchError
  bad_header : (header : Text) → BatchError
  -- A negative size is one of these.
  bad_size : (header : Text) → BatchError
  short_payload : (oid : Text) (size remain : ℕ) → BatchError
  out_of_fuel : BatchError

pub data Batch : Type 0 where
  objects : List Object → Batch
  broken : BatchError → Batch

abbrev pub then_object : Object → Batch → Batch
then_object o (objects os) = objects (o ∷ os)
then_object o (broken e) = broken e

-- The newline that git writes behind a payload.
abbrev skip_newline : Text → Text
skip_newline [] = []
skip_newline (c ∷ cs) = if c == 10 then cs else c ∷ cs

-- One object whose header has been read; `next` is the loop on what is left.
unfoldable pub payload_of : (Text → Batch) → Text → Text → Text → ℕ → Batch
payload_of next rest oid kind size = elim (ltb (length rest) size) [
  | true ↦ broken (short_payload oid size (length rest))
  | false ↦ then_object (present oid kind (take size rest)) (next (skip_newline (drop size rest)))
]

abbrev sized : (Text → Batch) → Text → Text → Text → Text → Option ℕ → Batch
sized next header rest oid kind none = broken (bad_size header)
sized next header rest oid kind (some size) = payload_of next rest oid kind size

abbrev three_fields : (Text → Batch) → Text → Text → List Text → Batch
three_fields next header rest (oid ∷ kind ∷ size ∷ []) =
    sized next header rest oid kind (parse_int size)
three_fields next header rest _ = broken (bad_header header)

unfoldable pub answer_of : (Text → Batch) → Text → Text → Batch
answer_of next header rest = elim (is_missing (fields header)) [
  | true ↦ then_object missing (next rest)
  | false ↦ three_fields next header rest (fields header)
]

unfoldable pub batch_from : ℕ → Text → Batch
batch_from fuel [] = objects []
batch_from zero (c ∷ cs) = broken out_of_fuel
batch_from (suc fuel) (c ∷ cs) = elim (cut 10 (c ∷ cs)) [
  | none ↦ broken (truncated_header (c ∷ cs))
  | some (header, rest) ↦ answer_of (batch_from fuel) header rest
]

-- Each round takes a line feed at least.
unfoldable pub parse_batch : Text → Batch
parse_batch text = batch_from (length text) text

-- `Blobs`: the content by object id; a later answer of the same id replaces an earlier one.
abbrev pub Contents : Type 0
Contents = Text → Option Text

unfoldable pub contents_from : Contents → List Object → Contents
contents_from m [] = m
contents_from m (missing ∷ os) = contents_from m os
contents_from m (present oid kind payload ∷ os) =
    contents_from (λ n. if text_eq n oid then some payload else m n) os

unfoldable pub blob_requests : List Text → Text
blob_requests [] = []
blob_requests (oid ∷ oids) = oid ++ (10 ∷ blob_requests oids)

abbrev contents_of : Batch → Option Contents
contents_of (objects os) = some (contents_from (λ n. none) os)
contents_of (broken e) = none

unfoldable pub blobs : PipeRunner → List Text → Option Contents
blobs pipe [] = some (λ n. none)
blobs pipe (oid ∷ oids) =
    elim (pipe (blob_requests (oid ∷ oids)) (codes "cat-file" ∷ codes "--batch" ∷ [])) [
      | none ↦ none
      | some out ↦ contents_of (parse_batch out)
    ]
