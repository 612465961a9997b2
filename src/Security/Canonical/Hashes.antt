-- ===== src/Security/Canonical/Hashes.antt =====
-- What the hash of a document depends on.
use Prim.Native.String.{◌++◌ as append}
use actionwitness.Prelude.{
  ◌≡◌, ◌≢◌, refl, ap, String, string_eq, false, ◌==◌, none, arith, Bool-cases, inl, inr,
  if◌then◌else◌,
}
use actionwitness.Json.{JsonDict, end, entry, lookup, has_key}
use actionwitness.Security.Canonical.{Doubles, without_hash, document_content_hash, ◌>>=◌, done}
use actionwitness.Security.Canonical.Members.{HasDistinctKeys, encode-lookup}

has_key-without_hash :
    (d : JsonDict) (k : String) → has_key d k ≡ false → has_key (without_hash d) k ≡ false
has_key-without_hash end k h = refl
has_key-without_hash (entry j v d) k h = ground (arith, has_key-without_hash d k)

without_hash-HasDistinctKeys : (d : JsonDict) → HasDistinctKeys d → HasDistinctKeys (without_hash d)
without_hash-HasDistinctKeys end u = tt
without_hash-HasDistinctKeys (entry j v d) (fresh, u) = elim (Bool-cases (j == "content_hash")) [
  | inl e ↦ rw e (without_hash-HasDistinctKeys d u)
  | inr e ↦ rw e (has_key-without_hash d j fresh, without_hash-HasDistinctKeys d u)
]

lookup-without_hash :
    (d : JsonDict) (k : String)
    → lookup (without_hash d) k ≡ (if k == "content_hash" then none else lookup d k)
lookup-without_hash end k = ground arith
lookup-without_hash (entry j v d) k = ground (
  arith,
  lookup-without_hash d k,
  string_eq.same_iff j k,
  string_eq.same_iff j "content_hash",
  string_eq.same_iff k "content_hash",
)

without_hash-same :
    (a b : JsonDict)
    → ((k : String) → k ≢ "content_hash" → lookup a k ≡ lookup b k)
    → (k : String) → lookup (without_hash a) k ≡ lookup (without_hash b) k
without_hash-same a b same k = elim (Bool-cases (k == "content_hash")) [
  | inl e ↦ rw (lookup-without_hash a k, lookup-without_hash b k, e) refl
  | inr e ↦
      let other : k ≢ "content_hash" = λ f. cc (e, (string_eq.same_iff k "content_hash").1 f) in
      rw (lookup-without_hash a k, lookup-without_hash b k, e) (same k other)
]

module _ (doubles : Doubles) (sha256_hex : String → String) where
  -- Two documents that agree at every key but `content_hash` have the same hash, so writing the hash into a document does not change it.
  pub document_content_hash-lookup :
      (a b : JsonDict)
      → HasDistinctKeys a
      → HasDistinctKeys b
      → ((k : String) → k ≢ "content_hash" → lookup a k ≡ lookup b k)
      → document_content_hash doubles sha256_hex a ≡ document_content_hash doubles sha256_hex b
  document_content_hash-lookup a b u v same =
      ap (λ text. text >>= λ t. done (append "sha256:" (sha256_hex t)))
        (encode-lookup doubles 0 (without_hash a) (without_hash b)
          (without_hash-HasDistinctKeys a u) (without_hash-HasDistinctKeys b v)
          (without_hash-same a b same))
