-- ===== src/Core/Security/Rotation.antt =====
-- What was encrypted before a key rotation decrypts after it.
use hound_bot.Base.{
  ℕ, ◌≡◌, ◌≢◌, String, Bool, true, none, some, [], ◌∷◌, string_eq, nat_eq, ==_refl, arith,
}
use hound_bot.Models.{Bytes}
use hound_bot.Exec.{ok, Outside, World, exec}
use hound_bot.Core.Security.{
  KeySettings, TokenCipher, token_cipher_from_settings, cipher_of_key, new_cipher, with_old_key,
  encrypt, encrypt_with, decrypt, decrypt_with,
}

-- Fernet's round trip: a ciphertext of the text decrypts under the key that made it.
abbrev pub RoundTrips : Outside → String → String → Type 0
RoundTrips o key text = (n : ℕ) → o.fernet_decrypt key (o.fernet_encrypt n key text) ≡ some text

-- The settings before a rotation, and after it with the old key kept under its own version.
abbrev pub first_settings : String → ℕ → KeySettings
first_settings key version = record {
  encryption_key = some key;
  encryption_key_version = version;
  encryption_key_old = none;
  encryption_key_old_version = none;
}

abbrev pub rotated_settings : String → ℕ → String → ℕ → KeySettings
rotated_settings key version old old_version = record {
  encryption_key = some key;
  encryption_key_version = version;
  encryption_key_old = some old;
  encryption_key_old_version = some old_version;
}

module _ (old new : String) (v1 v2 : ℕ) (old_set : old ≢ "") (new_set : new ≢ "") (other : v1 ≢ v2)
    (is_fernet_key : String → Bool) (old_ok : is_fernet_key old ≡ true)
    (new_ok : is_fernet_key new ≡ true) where
  before : TokenCipher
  before = record { fernets = (v1, old) ∷ []; current_version = v1 }

  after : TokenCipher
  after = record { fernets = (v2, new) ∷ (v1, old) ∷ []; current_version = v2 }

  before-eq : token_cipher_from_settings is_fernet_key (first_settings old v1) ≡ ok before
  unfolding token_cipher_from_settings cipher_of_key new_cipher with_old_key before
  before-eq = ground (arith, ==_refl v1)

  after-eq : token_cipher_from_settings is_fernet_key (rotated_settings new v2 old v1) ≡ ok after
  unfolding token_cipher_from_settings cipher_of_key new_cipher with_old_key after
  after-eq = ground (arith, ==_refl v2)

  -- Keys that are set and well formed give a cipher before the rotation and one after it, where the
  -- two versions differ; what the first encrypts, with the version it stores beside it, the second
  -- decrypts to the same text, and what the second encrypts it decrypts too.
  pub rotation-decrypts :
      (text : String) (w u : World)
      → RoundTrips w.outside old text
      → RoundTrips w.outside new text
      → u.outside ≡ w.outside
      → (a : TokenCipher) × (b : TokenCipher) × (token_cipher_from_settings is_fernet_key
            (first_settings old v1)
          ≡ ok a)
        × (token_cipher_from_settings is_fernet_key (rotated_settings new v2 old v1) ≡ ok b)
        × (x : Bytes) × ((encrypt a text w).0 ≡ ok (x, v1))
        × ((decrypt b x v1 u).0 ≡ ok text)
        × (y : Bytes) × ((encrypt b text w).0 ≡ ok (y, v2))
        × ((decrypt b y v2 u).0 ≡ ok text)
  unfolding encrypt encrypt_with decrypt decrypt_with before after exec
  rotation-decrypts text w u trip_old trip_new same = (
    before,
    after,
    before-eq,
    after-eq,
    w.outside.fernet_encrypt w.calls old text,
    ground (arith, ==_refl v1),
    rw same (ground (arith, ==_refl v1, trip_old w.calls)),
    w.outside.fernet_encrypt w.calls new text,
    ground (arith, ==_refl v2),
    rw same (ground (arith, ==_refl v2, trip_new w.calls)),
  )
