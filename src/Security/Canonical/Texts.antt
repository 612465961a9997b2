-- ===== src/Security/Canonical/Texts.antt =====
-- Objects of texts always have a canonical text.
use actionwitness.Prelude.{
  ◌≡◌, refl, String, Bool, true, false, List, [], ◌∷◌, Option, none, some, any, all, arith,
  all_sound, all_complete, map,
}
use actionwitness.Prelude.Sort.{sort_by, mem_of_mem-sort_by}
use actionwitness.Prelude.Text.{codes}
use actionwitness.Json.{obj, dict}
use actionwitness.Policies.Attribution.{optional_text}
use actionwitness.Security.Canonical.{
  Outcome, done, refused, overflow, value_error, ◌>>=◌, Doubles, encode_string, is_surrogate,
  Encoded, encoded_leb, member_text, join_members, encode, encode_value, encode_entries,
  content_hash,
}
use actionwitness.Security.Canonical.Members.{scalar_bounds}

abbrev pub is_done {ℓ} : {A : Type ℓ} → Outcome A → Bool
is_done (done a) = true
is_done _ = false

no_surrogate : (s : String) → any is_surrogate (codes s) ≡ false
unfolding any
no_surrogate String.[] = refl
no_surrogate (String.◌∷◌ c s) = ground (arith, scalar_bounds c, no_surrogate s)

then_done {ℓ κ} :
    {A : Type ℓ} {B : Type κ} (call : Outcome A) (next : A → Outcome B)
    → is_done call ≡ true
    → ((a : A) → is_done (next a) ≡ true)
    → is_done (call >>= next) ≡ true
then_done (done a) next h k = k a
then_done (refused c) next h k = h
then_done overflow next h k = h
then_done value_error next h k = h

is_done-encode_string : (s : String) → is_done (encode_string s) ≡ true
unfolding encode_string
is_done-encode_string s = rw (no_surrogate s) refl

is_done-member_text :
    (key : String) (value : Outcome String)
    → is_done value ≡ true
    → is_done (member_text key value) ≡ true
is_done-member_text key value h =
    then_done value _ h
      (λ text. then_done (encode_string key) _ (is_done-encode_string key) (λ k. refl))

value_of_done {ℓ} : {A : Type ℓ} (o : Outcome A) → is_done o ≡ true → (a : A) × (o ≡ done a)
value_of_done (done a) h = (a, refl)
value_of_done (refused c) h = absurd (cc h)
value_of_done overflow h = absurd (cc h)
value_of_done value_error h = absurd (cc h)

abbrev is_done_member : Encoded → Bool
is_done_member (key, text) = is_done text

join_members-done :
    (xs : List Encoded) → all is_done_member xs ≡ true → is_done (join_members xs) ≡ true
unfolding join_members all
join_members-done [] h = refl
join_members-done ((key, text) ∷ []) h = ground arith
join_members-done ((key, text) ∷ other ∷ rest) h = then_done text _ (ground arith) (λ first.
    then_done (join_members (other ∷ rest)) _ (join_members-done (other ∷ rest) (ground arith))
      (λ others. refl))

module _ (doubles : Doubles) where
  encode_entries-texts :
      (inputs : List (String × Option String))
      → all is_done_member (
          encode_entries doubles 1
            (dict (map (λ (field, value). (field, optional_text value)) inputs)))
        ≡ true
  unfolding encode_value all
  encode_entries-texts [] = refl
  encode_entries-texts ((field, none) ∷ rest) =
      ground (arith, is_done-member_text field (done "null") refl, encode_entries-texts rest)
  encode_entries-texts ((field, some value) ∷ rest) = ground (
    arith,
    is_done-member_text field (encode_string value) (is_done-encode_string value),
    encode_entries-texts rest,
  )

  -- An object whose values are texts or null has a content hash.
  pub content_hash-texts :
      (sha256_hex : String → String) (inputs : List (String × Option String))
      → (hash : String) × (content_hash doubles sha256_hex
            (obj (dict (map (λ (field, value). (field, optional_text value)) inputs)))
          ≡ done hash)
  unfolding encode_value
  content_hash-texts sha256_hex inputs =
      let entries =
        encode_entries doubles 1
          (dict (map (λ (field, value). (field, optional_text value)) inputs)) in
      let sorted = all_complete is_done_member (sort_by encoded_leb entries) (λ z m.
        all_sound is_done_member (mem_of_mem-sort_by encoded_leb entries m)
          (encode_entries-texts inputs)) in
      value_of_done _ (
        then_done
          (encode doubles 0
            (obj (dict (map (λ (field, value). (field, optional_text value)) inputs))))
          _
          (then_done (join_members (sort_by encoded_leb entries)) _
            (join_members-done (sort_by encoded_leb entries) sorted) (λ text. refl))
          (λ text. refl))
