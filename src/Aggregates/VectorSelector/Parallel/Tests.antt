-- ===== src/Aggregates/VectorSelector/Parallel/Tests.antt =====
-- A leader and a worker, and a codec that writes each field as numbers.
use promscale_extension.Prelude.{
  ℕ, zero, suc, ◌≡◌, ap, refl, Option, none, some, List, [], ◌∷◌, arith, length, ok,
}
use promscale_extension.Prelude.Int.{ℤ, pos, negsuc, ◌-ℤ◌, ◌+ℤ◌}
use promscale_extension.Memory.{FunctionCallInfo}
use promscale_extension.TypeBuilder.{Varlena, IsVarlena, Bincode, IsBincode}
use promscale_extension.Aggregates.VectorSelector.{Sample, VectorSelector}
use promscale_extension.Aggregates.VectorSelector.Buckets.{bucket_list}
use promscale_extension.Aggregates.VectorSelector.Latest.{latest}
use promscale_extension.Aggregates.VectorSelector.Entry.{
  vector_selector_combine_inner, vector_selector_serialize, vector_selector_deserialize,
}
use promscale_extension.Aggregates.VectorSelector.Query.{Query, IsValid, selector}
use promscale_extension.Aggregates.VectorSelector.Runs.{aggregate_rows}
use promscale_extension.Aggregates.VectorSelector.Parallel.{combine-deserialize}

abbrev query : Query
query = record {
  start_time = pos 1_000_000;
  end_time = pos 1_020_000;
  bucket_width = 10;
  lookback = 15;
}

query-IsValid : IsValid query
query-IsValid = omega arith

abbrev in_aggregate : FunctionCallInfo
in_aggregate = record { agg_check_call_context = some 7 }

abbrev early : Sample
early = (pos 995_000, 70)

abbrev late : Sample
late = (pos 1_012_000, 90)

abbrev behind_header : List ℕ → List ℕ
behind_header (a ∷ b ∷ c ∷ d ∷ rest) = rest
behind_header _ = []

abbrev plain : Varlena
plain = record { Bytea = List ℕ; set_varsize = λ bytes n. behind_header bytes; payload = λ b. b }

plain-IsVarlena : IsVarlena plain
plain-IsVarlena = record { payload-set_varsize = λ a b c d rest. refl }

-- An integer is its sign and a number.
abbrev sign_of : ℤ → ℕ
sign_of (pos n) = 0
sign_of (negsuc n) = 1

abbrev size_of : ℤ → ℕ
size_of (pos n) = n
size_of (negsuc n) = n

abbrev int_of : ℕ → ℕ → ℤ
int_of zero n = pos n
int_of (suc s) n = negsuc n

int_of-sign_of : (i : ℤ) → int_of (sign_of i) (size_of i) ≡ i
int_of-sign_of (pos n) = refl
int_of-sign_of (negsuc n) = refl

abbrev encode_elements : List (Option Sample) → List ℕ
encode_elements [] = []
encode_elements (none ∷ es) = 0 ∷ encode_elements es
encode_elements (some (t, v) ∷ es) = 1 ∷ sign_of t ∷ size_of t ∷ v ∷ encode_elements es

abbrev decode_elements : List ℕ → List (Option Sample)
decode_elements (zero ∷ rest) = none ∷ decode_elements rest
decode_elements (suc k ∷ s ∷ n ∷ v ∷ rest) = some (int_of s n, v) ∷ decode_elements rest
decode_elements _ = []

decode_elements-encode_elements :
    (es : List (Option Sample)) → decode_elements (encode_elements es) ≡ es
decode_elements-encode_elements [] = refl
decode_elements-encode_elements (none ∷ es) =
    ap (λ l. none ∷ l) (decode_elements-encode_elements es)
decode_elements-encode_elements (some (t, v) ∷ es) =
    rw (int_of-sign_of t, decode_elements-encode_elements es) refl

abbrev encode : VectorSelector → List ℕ
encode s =
    sign_of s.first_bucket_max_time
    ∷ size_of s.first_bucket_max_time
    ∷ sign_of s.last_bucket_max_time
    ∷ size_of s.last_bucket_max_time
    ∷ sign_of s.end_time
    ∷ size_of s.end_time
    ∷ sign_of s.bucket_width
    ∷ size_of s.bucket_width
    ∷ sign_of s.lookback
    ∷ size_of s.lookback
    ∷ encode_elements s.elements

abbrev decode : List ℕ → Option VectorSelector
decode (a ∷ a' ∷ b ∷ b' ∷ c ∷ c' ∷ d ∷ d' ∷ e ∷ e' ∷ rest) = some (record {
  first_bucket_max_time = int_of a a';
  last_bucket_max_time = int_of b b';
  end_time = int_of c c';
  bucket_width = int_of d d';
  lookback = int_of e e';
  elements = decode_elements rest;
})
decode _ = none

decode-encode : (s : VectorSelector) → decode (encode s) ≡ some s
decode-encode s =
    rw
      (
        int_of-sign_of s.first_bucket_max_time,
        int_of-sign_of s.last_bucket_max_time,
        int_of-sign_of s.end_time,
        int_of-sign_of s.bucket_width,
        int_of-sign_of s.lookback,
        decode_elements-encode_elements s.elements,
      )
      refl

abbrev numbers : Bincode VectorSelector
numbers = record {
  serialized_size = λ s. some (length (encode s));
  serialize = λ s. some (encode s);
  deserialize = decode;
}

some_unique : (a b : List ℕ) → some a ≡ some b → a ≡ b
some_unique a b e = cc

numbers-IsBincode : IsBincode numbers
numbers-IsBincode = record {
  size = λ s d e. ap (λ b. some (length b)) (some_unique (encode s) d e);
  decode = λ s d e. rw (← some_unique (encode s) d e) (decode-encode s);
}

combine-deserialize_example :
    (s1 s2 s : Option VectorSelector) × (worker : VectorSelector) × (bytes : List ℕ)
    × (aggregate_rows query in_aggregate none (early ∷ []) 3 ≡ (ok s1, 3))
    × (aggregate_rows query in_aggregate none (late ∷ []) 3 ≡ (ok (some worker), 3))
    × (vector_selector_serialize plain numbers worker ≡ ok bytes)
    × (vector_selector_deserialize plain numbers bytes ≡ ok s2)
    × (vector_selector_combine_inner s1 s2 in_aggregate 3 ≡ (ok s, 3))
    × (aggregate_rows query in_aggregate none (early ∷ late ∷ []) 3 ≡ (ok s, 3))
unfolding bucket_list latest ◌-ℤ◌ ◌+ℤ◌
combine-deserialize_example =
    combine-deserialize query query-IsValid in_aggregate 7 refl plain numbers plain-IsVarlena
      numbers-IsBincode (early ∷ []) [] late 3 (encode (selector query (late ∷ []))) (omega arith)
      (omega arith) refl (omega arith)
