-- ===== src/Security/Examples.antt =====
-- The credential cipher at concrete keys: a toy primitive that keeps the bound data in front of the
-- plaintext, with the length of that data, and compares it before it opens.
use Prim.Native.Nat.{Ordering}
use Prim.Native.String.{compare}
use text.Mathlib.TextEquality.{path_by_compare}
use text.Mathlib.TextPositions.{compare_refl}
use mathlib.Core.List.{List-discrete}
use syncinerary.Prelude.{
  ℕ, ◌≡◌, ◌≢◌, refl, sym, ap, ◌∙◌, String, List, [], ◌∷◌, ◌++◌, Option, none, some, return, raise,
  arith, length, take, drop, replicate, if◌then◌else◌, ◌==◌, Bool-cases, inl, inr,
}
use syncinerary.Security.Keyring.{
  Primitives, Bytes, Keys, find_key, CredentialCipher, EncryptedCredential, make_cipher, encrypt,
  decrypt, authentication_failed,
}
use syncinerary.Security.Keyring.Sealing.{
  Faithful, Authentic, decrypt-encrypt, decrypt-encrypt_foreign,
}

text_dec : (s t : String) → Dec (s ≡ t)
text_dec s t = by_order (compare s t) refl
  where
    by_order : (o : Ordering) → compare s t ≡ o → Dec (s ≡ t)
    by_order Ordering.eq h = yes (path_by_compare s t h)
    by_order Ordering.lt h =
        no (λ e. absurd (ground (arith, sym h ∙ ap (compare s) (sym e) ∙ compare_refl s)))
    by_order Ordering.gt h =
        no (λ e. absurd (ground (arith, sym h ∙ ap (compare s) (sym e) ∙ compare_refl s)))

-- A byte of the toy: a text, or the length of the bound data.
data ToyByte : Type 0 where
  chunk : String → ToyByte
  size : ℕ → ToyByte

toy_dec : Discrete ToyByte
toy_dec (chunk s) (chunk t) = elim (text_dec s t) [
  | yes e ↦ yes (ap chunk e)
  | no n ↦ no (λ e. ground (arith, n, e))
]
toy_dec (size m) (size n) = elim (Bool-cases (m == n)) [
  | inl same ↦ yes (ap size (ground (arith, same)))
  | inr other ↦ no (λ e. ground (arith, other, e))
]
toy_dec (chunk s) (size n) = no (λ e. ground (arith, e))
toy_dec (size m) (chunk t) = no (λ e. ground (arith, e))

abbrev bytes_dec : Discrete (List ToyByte)
bytes_dec = List-discrete toy_dec

abbrev toy_decode : List ToyByte → Option String
toy_decode (chunk t ∷ []) = some t
toy_decode _ = none

abbrev opened_if {ℓ} : {P : Type ℓ} → Dec P → List ToyByte → Option (List ToyByte)
opened_if (yes _) x = some x
opened_if (no _) x = none

abbrev toy_unseal : (k n c b : List ToyByte) → Option (List ToyByte)
toy_unseal k n (size m ∷ c) b = opened_if (bytes_dec (take m c) b) (drop m c)
toy_unseal k n _ b = none

abbrev toy : Primitives
toy = record {
  Byte = ToyByte;
  encode = λ t. chunk t ∷ [];
  decode = toy_decode;
  decimal = λ v. if v == 1 then "1" else "2";
  seal = λ k n x a. size (length a) ∷ a ++ x;
  unseal = toy_unseal;
}

take-length_append : (a x : List ToyByte) → take (length a) (a ++ x) ≡ a
take-length_append [] x = refl
take-length_append (b ∷ a) x = ap (λ l. b ∷ l) (take-length_append a x)

drop-length_append : (a x : List ToyByte) → drop (length a) (a ++ x) ≡ x
drop-length_append [] x = refl
drop-length_append (b ∷ a) x = drop-length_append a x

opened_if-yes {ℓ} : {P : Type ℓ} (d : Dec P) (x : List ToyByte) → P → opened_if d x ≡ some x
opened_if-yes (yes _) x p = refl
opened_if-yes (no n) x p = absurd (n p)

opened_if-no {ℓ} : {P : Type ℓ} (d : Dec P) (x : List ToyByte) → ¬ P → opened_if d x ≡ none
opened_if-no (yes p) x n = absurd (n p)
opened_if-no (no _) x n = refl

toy-Faithful : Faithful toy
toy-Faithful = record {
  decode-encode = λ t. refl;
  unseal-seal = λ k n x a.
      opened_if-yes (bytes_dec (take (length a) (a ++ x)) a) (drop (length a) (a ++ x))
        (take-length_append a x)
      ∙ ap some (drop-length_append a x);
}

toy-Authentic : Authentic toy
toy-Authentic k n x a b differ =
    opened_if-no (bytes_dec (take (length a) (a ++ x)) b) (drop (length a) (a ++ x))
      (rw (take-length_append a x) differ)

abbrev ann : String
ann = "ann"

abbrev bo : String
bo = "bo"

abbrev old_key : Bytes toy
old_key = replicate 32 (chunk "a")

abbrev new_key : Bytes toy
new_key = replicate 32 (chunk "b")

abbrev old_keys : Keys toy
old_keys = (1, old_key) ∷ []

abbrev rotated_keys : Keys toy
rotated_keys = (2, new_key) ∷ (1, old_key) ∷ []

abbrev old_cipher : CredentialCipher toy
old_cipher = record { keys = old_keys; active_version = 1 }

abbrev rotated_cipher : CredentialCipher toy
rotated_cipher = record { keys = rotated_keys; active_version = 2 }

old_keys-kept :
    (v : ℕ) (k : Bytes toy)
    → find_key toy v old_keys ≡ some k
    → find_key toy v rotated_keys ≡ some k
unfolding find_key
old_keys-kept v k h = ground (arith, h)

decrypt-encrypt_example :
    (c : EncryptedCredential toy) × ((encrypt toy old_cipher ann [] "sk-ant" ≡ return c)
      × (decrypt toy rotated_cipher ann c ≡ return "sk-ant"))
unfolding make_cipher
decrypt-encrypt_example =
    decrypt-encrypt toy toy-Faithful old_keys rotated_keys 1 2 old_cipher rotated_cipher refl refl
      old_keys-kept (omega arith) ann [] "sk-ant"

ann-bo : ann ≢ bo
ann-bo e = ground (arith, ap (compare ann) e)

decrypt-encrypt_foreign_example :
    (c : EncryptedCredential toy) × ((encrypt toy old_cipher ann [] "sk-ant" ≡ return c)
      × (decrypt toy old_cipher bo c ≡ raise authentication_failed))
unfolding make_cipher
decrypt-encrypt_foreign_example =
    decrypt-encrypt_foreign toy toy-Faithful toy-Authentic old_keys 1 old_cipher refl (omega arith)
      ann bo [] "sk-ant" ann-bo
