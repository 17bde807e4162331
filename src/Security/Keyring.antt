-- ===== src/Security/Keyring.antt =====
-- syncinerary/security/credentials.py: CredentialCipher, and EncryptedCredential of
-- syncinerary/domain/credentials.py.
-- The AES-GCM primitive, the encoding of texts and Python's decimal numerals are not part of the
-- repository, so they are parameters. A nonce is drawn from the system; here it is an argument.
-- Versions are natural numbers. The reading of the keyring from the settings is left out.
pub mod Sealing
use syncinerary.Prelude.{
  ℕ, zero, suc, String, List, [], ◌∷◌, Option, none, some, Bool, not, any_by, length, ◌==◌,
  if◌then◌else◌, Outcome, return, raise,
}
use Prim.Native.String.{◌++◌}

pub data CredentialError : Type 0 where
  active_version_unavailable wrong_key_length : CredentialError
  key_error invalid_version : CredentialError
  version_unavailable authentication_failed : CredentialError

pub record Primitives : Type 1 where
  pub Byte : Type 0
  pub encode : String → List Byte
  pub decode : List Byte → Option String
  pub decimal : ℕ → String
  pub seal : (key nonce plaintext aad : List Byte) → List Byte
  pub unseal : (key nonce ciphertext aad : List Byte) → Option (List Byte)

module _ (p : Primitives) where
  abbrev pub Bytes : Type 0
  Bytes = List p.Byte

  -- A dictionary from versions to keys.
  abbrev pub Keys : Type 0
  Keys = List (ℕ × Bytes)

  -- `keys.get(version)`
  unfoldable pub find_key : ℕ → Keys → Option Bytes
  find_key v [] = none
  find_key v ((w, k) ∷ keys) = let rest = find_key v keys in if w == v then some k else rest

  pub record CredentialCipher : Type 0 where
    pub keys : Keys
    pub active_version : ℕ

  pub record EncryptedCredential : Type 0 where
    pub ciphertext : Bytes
    pub nonce : Bytes
    pub key_version : ℕ

  abbrev pub has_wrong_length : ℕ × Bytes → Bool
  has_wrong_length (v, k) = not (length k == 32)

  abbrev checked_lengths : Keys → ℕ → Outcome CredentialError CredentialCipher
  checked_lengths keys active =
      if any_by has_wrong_length keys
      then raise wrong_key_length
      else return (record { keys = keys; active_version = active })

  -- `CredentialCipher.__init__`
  unfoldable pub make_cipher : Keys → ℕ → Outcome CredentialError CredentialCipher
  unfolding find_key
  make_cipher keys active = elim (find_key active keys) [
    | none ↦ raise active_version_unavailable
    | some _ ↦ checked_lengths keys active
  ]

  -- `_aad`: the account and the version of the key, bound to the ciphertext.
  unfoldable pub aad_text : String → ℕ → String
  aad_text account version = "syncinerary:anthropic:" ++ (account ++ (":v" ++ p.decimal version))

  unfoldable pub aad : String → ℕ → Bytes
  unfolding aad_text
  aad account version = p.encode (aad_text account version)

  -- `Field(ge=1)` of the version.
  abbrev checked_version : EncryptedCredential → ℕ → Outcome CredentialError EncryptedCredential
  checked_version c zero = raise invalid_version
  checked_version c (suc v) = return c

  abbrev encrypt_with :
      Option Bytes
      → ℕ
      → (account : String) → (nonce : Bytes) → (api_key : String)
      → Outcome CredentialError EncryptedCredential
  encrypt_with none version account nonce api_key = raise key_error
  encrypt_with (some k) version account nonce api_key =
      checked_version
        (record {
          ciphertext = p.seal k nonce (p.encode api_key) (aad account version);
          nonce = nonce;
          key_version = version;
        })
        version

  -- `CredentialCipher.encrypt`
  unfoldable pub encrypt :
      CredentialCipher
      → (account : String) → (nonce : Bytes) → (api_key : String)
      → Outcome CredentialError EncryptedCredential
  unfolding find_key aad
  encrypt cipher account nonce api_key =
      encrypt_with (find_key cipher.active_version cipher.keys) cipher.active_version account nonce
        api_key

  abbrev decoded : Option String → Outcome CredentialError String
  decoded none = raise authentication_failed
  decoded (some t) = return t

  abbrev pub opened : Option Bytes → Outcome CredentialError String
  opened none = raise authentication_failed
  opened (some plaintext) = decoded (p.decode plaintext)

  abbrev decrypt_with :
      Option Bytes → (account : String) → EncryptedCredential → Outcome CredentialError String
  decrypt_with none account c = raise version_unavailable
  decrypt_with (some k) account c =
      opened (p.unseal k c.nonce c.ciphertext (aad account c.key_version))

  -- `CredentialCipher.decrypt`
  unfoldable pub decrypt :
      CredentialCipher → (account : String) → EncryptedCredential → Outcome CredentialError String
  unfolding find_key aad
  decrypt cipher account c = decrypt_with (find_key c.key_version cipher.keys) account c
