-- ===== src/Security/Keyring/Sealing.antt =====
-- What the encryption of syncinerary/security/credentials.py gives back, and to whom.
use syncinerary.Prelude.{
  ℕ, zero, suc, ◌≤◌, ◌≡◌, ◌≢◌, refl, sym, ap, ◌∙◌, String, none, some, return, raise, arith,
  Bool-cases, Option-cases, inl, inr, any_by,
}
use mathlib.Core.Option.{some-injective}
use Prim.Native.String.{◌++◌}
use text.Mathlib.TextLemmas.{append_cancel_left, append_cancel_right}
use syncinerary.Security.Keyring.{
  Primitives, Bytes, Keys, find_key, CredentialCipher, EncryptedCredential, has_wrong_length,
  make_cipher, aad, aad_text, encrypt, decrypt, authentication_failed,
}

-- The documented behaviour of the primitives: text survives the encoding, and what was sealed
-- opens again under the same key, nonce and bound data.
pub record Faithful (p : Primitives) : Type 0 where
  pub decode-encode : (t : String) → p.decode (p.encode t) ≡ some t
  pub unseal-seal : (k n x a : Bytes p) → p.unseal k n (p.seal k n x a) a ≡ some x

-- AES-GCM taken as ideal: other bound data does not open a ciphertext.
abbrev pub Authentic : Primitives → Type 0
Authentic p = (k n x a b : Bytes p) → a ≢ b → p.unseal k n (p.seal k n x a) b ≡ none

module _ (p : Primitives) where
  -- A constructed cipher has its active key.
  make_cipher-has_key :
      (keys : Keys p) (active : ℕ) (cipher : CredentialCipher p)
      → make_cipher p keys active ≡ return cipher
      → (k : Bytes p) × ((find_key p active keys ≡ some k)
          × (cipher ≡ record { keys = keys; active_version = active }))
  unfolding make_cipher
  make_cipher-has_key keys active cipher made = elim (Option-cases (find_key p active keys)) [
    | inl e ↦ absurd (grind (arith, e, made))
    | inr (k, e) ↦ elim (Bool-cases (any_by (has_wrong_length p) keys)) [
      | inl bad ↦ absurd (grind (arith, e, bad, made))
      | inr good ↦ (k, (e, grind (arith, e, good, made)))
    ]
  ]

  -- What the active key seals.
  sealed_with : (active : ℕ) (k nonce : Bytes p) (account api_key : String) → EncryptedCredential p
  sealed_with active k nonce account api_key = record {
    ciphertext = p.seal k nonce (p.encode api_key) (aad p account active);
    nonce = nonce;
    key_version = active;
  }

  encrypt-sealed :
      (keys : Keys p) (active : ℕ) (k nonce : Bytes p) (account api_key : String)
      → 1 ≤ active
      → find_key p active keys ≡ some k
      → encrypt p (record { keys = keys; active_version = active }) account nonce api_key
        ≡ return (sealed_with active k nonce account api_key)
  unfolding encrypt sealed_with
  encrypt-sealed keys zero k nonce account api_key positive found = absurd (omega arith)
  encrypt-sealed keys (suc v) k nonce account api_key positive found = rw found refl

  -- The round trip, through a rotation of the keys: a key stored with one cipher comes back under any
  -- cipher, whichever version is active there, that still holds each key of the first under its
  -- version. Both ciphers were accepted by the constructor, the version that sealed is positive, and
  -- the primitives open what they sealed.
  pub decrypt-encrypt :
      (laws : Faithful p) (keys rotated_keys : Keys p) (active rotated_active : ℕ)
      (cipher rotated : CredentialCipher p)
      → make_cipher p keys active ≡ return cipher
      → make_cipher p rotated_keys rotated_active ≡ return rotated
      → ((v : ℕ) (k : Bytes p) → find_key p v keys ≡ some k → find_key p v rotated_keys ≡ some k)
      → 1 ≤ active
      → (account : String) (nonce : Bytes p) (api_key : String)
      → (c : EncryptedCredential p) × ((encrypt p cipher account nonce api_key ≡ return c)
          × (decrypt p rotated account c ≡ return api_key))
  unfolding decrypt sealed_with
  decrypt-encrypt laws keys rotated_keys active rotated_active cipher rotated made remade kept
        positive account nonce api_key =
      let (k, (found, is_cipher)) = make_cipher-has_key keys active cipher made in
      let (_, (_, is_rotated)) = make_cipher-has_key rotated_keys rotated_active rotated remade in
      (
        sealed_with active k nonce account api_key,
        (
          rw is_cipher (encrypt-sealed keys active k nonce account api_key positive found),
          rw
              (
                is_rotated,
                kept active k found,
                laws.unseal-seal k nonce (p.encode api_key) (aad p account active),
                laws.decode-encode api_key,
              )
              refl,
        ),
      )

  aad-account : (laws : Faithful p) (a b : String) (v : ℕ) → aad p a v ≡ aad p b v → a ≡ b
  unfolding aad aad_text
  aad-account laws a b v same =
      let texts : some (aad_text p a v) ≡ some (aad_text p b v) =
        sym (laws.decode-encode (aad_text p a v))
        ∙ ap p.decode same
        ∙ laws.decode-encode (aad_text p b v) in
      append_cancel_right a b (":v" ++ p.decimal v) (
        append_cancel_left "syncinerary:anthropic:" (a ++ (":v" ++ p.decimal v))
          (b ++ (":v" ++ p.decimal v)) (some-injective _ _ texts))

  -- A stored key is bound to its account: with ideal authentication, what a constructed cipher sealed
  -- for one account is refused for every other account, with the error of a failed authentication.
  -- The version that sealed is positive, and the primitives open what they sealed.
  pub decrypt-encrypt_foreign :
      (laws : Faithful p) (authentic : Authentic p) (keys : Keys p) (active : ℕ)
      (cipher : CredentialCipher p)
      → make_cipher p keys active ≡ return cipher
      → 1 ≤ active
      → (account other : String) (nonce : Bytes p) (api_key : String) → account ≢ other
      → (c : EncryptedCredential p) × ((encrypt p cipher account nonce api_key ≡ return c)
          × (decrypt p cipher other c ≡ raise authentication_failed))
  unfolding decrypt sealed_with
  decrypt-encrypt_foreign laws authentic keys active cipher made positive account other nonce
        api_key distinct =
      let (k, (found, is_cipher)) = make_cipher-has_key keys active cipher made in
      (
        sealed_with active k nonce account api_key,
        (
          rw is_cipher (encrypt-sealed keys active k nonce account api_key positive found),
          rw
              (
                is_cipher,
                found,
                authentic k nonce (p.encode api_key) (aad p account active) (aad p other active)
                    (λ same. distinct (aad-account laws account other active same)),
              )
              refl,
        ),
      )
