-- ===== src/Core/Security.antt =====
-- app/core/security.py: the request signature and the cipher of the secrets at rest.
-- HMAC-SHA256 and Fernet are parameters; a Unix time is in microseconds.
pub mod Signature
pub mod Rotation
use hound_bot.Base.{
  ℕ, ◌+◌, ◌-◌, ◌*◌, ◌^◌, String, ◌<>◌, Bool, true, false, not, ◌&&◌, Option, none, some, List, [],
  ◌∷◌, ◌==◌, string_eq, nat_eq, is_none, ltb, leb, if◌then◌else◌,
}
use hound_bot.Base.Int.{ℤ, pos, negsuc}
use hound_bot.Models.{Bytes}
use hound_bot.Text.{parse_int, codes}
use hound_bot.Exec.{
  Result, ok, err, overflow_error, external, value_error, runtime_error, Exec, pure, raise, lift,
  ask, ◌>>=◌,
}

abbrev pub replay_window : ℕ
replay_window = 300_000_000

-- `abs(current_time - request_time)`, the request's time being in whole seconds
abbrev pub age : ℕ → ℤ → ℕ
age t (pos s) = if leb (s * 1_000_000) t then t - s * 1_000_000 else s * 1_000_000 - t
age t (negsuc s) = t + (s + 1) * 1_000_000

-- The least integer that has no float: `current_time - request_time` converts the integer first.
unfoldable pub float_limit : ℕ
float_limit = 2 ^ 1024 - 2 ^ 970

abbrev pub size : ℤ → ℕ
size (pos n) = n
size (negsuc n) = n + 1

abbrev pub all_ascii : List ℕ → Bool
all_ascii [] = true
all_ascii (c ∷ s) = ltb c 128 && all_ascii s

-- `hmac.compare_digest` on two texts, which must be ASCII.
unfoldable pub compare_digest : String → String → Result Bool
compare_digest a b =
    if all_ascii (codes a) && all_ascii (codes b)
    then ok (a == b)
    else err (external "comparing strings with non-ASCII characters is not supported")

-- `hmac_sha256 key message` is the hex digest.
module _ (hmac_sha256 : String → String → String) where
  -- `expected_signature`
  abbrev pub sign : String → String → String → String
  sign signing_secret timestamp raw_body =
      "v0=" <> hmac_sha256 signing_secret ("v0:" <> timestamp <> ":" <> raw_body)

  unfoldable pub check_time : String → String → String → String → ℕ → Option ℤ → Result Bool
  check_time raw_body timestamp signature signing_secret t none = ok false
  check_time raw_body timestamp signature signing_secret t (some request_time) =
      if leb float_limit (size request_time)
      then err overflow_error
      else if ltb replay_window (age t request_time)
      then ok false
      else compare_digest (sign signing_secret timestamp raw_body) signature

  unfoldable pub verify_slack_signature : String → String → String → String → ℕ → Result Bool
  unfolding check_time
  verify_slack_signature raw_body timestamp signature signing_secret t =
      if signing_secret == ""
      then err (runtime_error "SLACK_SIGNING_SECRET is not configured")
      else check_time raw_body timestamp signature signing_secret t (parse_int timestamp)

-- `class TokenCipher`. `fernets` maps a key version to its key.
pub record TokenCipher : Type 0 where
  pub fernets : List (ℕ × String)
  pub current_version : ℕ

abbrev pub lookup : ℕ → List (ℕ × String) → Option String
lookup version [] = none
lookup version ((v, key) ∷ keys) = if v == version then some key else lookup version keys

-- `keys[version] = key`
abbrev pub insert : ℕ → String → List (ℕ × String) → List (ℕ × String)
insert version key [] = (version, key) ∷ []
insert version key ((v, k) ∷ keys) =
    if v == version then (version, key) ∷ keys else (v, k) ∷ insert version key keys

-- `Fernet(key.encode())` raises where the key is malformed.
abbrev pub all_keys : (String → Bool) → List (ℕ × String) → Bool
all_keys p [] = true
all_keys p ((v, key) ∷ keys) = p key && all_keys p keys

-- `TokenCipher.__init__`
unfoldable pub new_cipher : (String → Bool) → List (ℕ × String) → ℕ → Result TokenCipher
new_cipher is_fernet_key keys current_version =
    if is_none (lookup current_version keys)
    then err (value_error "current_version has no matching key")
    else if not (all_keys is_fernet_key keys)
    then err (value_error "Fernet key must be 32 url-safe base64-encoded bytes.")
    else ok (record { fernets = keys; current_version = current_version })

-- The part of `Settings` (app/core/config.py) that the cipher is built from.
pub record KeySettings : Type 0 where
  pub encryption_key : Option String
  pub encryption_key_version : ℕ
  pub encryption_key_old : Option String
  pub encryption_key_old_version : Option ℕ

-- `if value:` for an optional text: neither None nor empty.
abbrev pub truthy : Option String → Bool
truthy none = false
truthy (some s) = not (s == "")

unfoldable pub with_old_key : Option String → Option ℕ → List (ℕ × String) → List (ℕ × String)
with_old_key (some old) (some version) keys = if old == "" then keys else insert version old keys
with_old_key none _ keys = keys
with_old_key _ _ keys = keys

unfoldable pub cipher_of_key : (String → Bool) → KeySettings → Option String → Result TokenCipher
unfolding with_old_key new_cipher
cipher_of_key is_fernet_key s none = err (runtime_error "ENCRYPTION_KEY is not configured")
cipher_of_key is_fernet_key s (some key) =
    if key == ""
    then err (runtime_error "ENCRYPTION_KEY is not configured")
    else new_cipher is_fernet_key
        (with_old_key s.encryption_key_old s.encryption_key_old_version
          ((s.encryption_key_version, key) ∷ []))
        s.encryption_key_version

unfoldable pub token_cipher_from_settings : (String → Bool) → KeySettings → Result TokenCipher
unfolding cipher_of_key
token_cipher_from_settings is_fernet_key s = cipher_of_key is_fernet_key s s.encryption_key

-- A missing version cannot happen after `new_cipher`.
unfoldable pub encrypt_with : TokenCipher → String → Option String → Exec (Bytes × ℕ)
encrypt_with cipher plaintext none = raise (value_error "KeyError")
encrypt_with cipher plaintext (some key) = do
  ciphertext ← ask (λ o n. o.fernet_encrypt n key plaintext)
  pure (ciphertext, cipher.current_version)

unfoldable pub encrypt : TokenCipher → String → Exec (Bytes × ℕ)
unfolding encrypt_with
encrypt cipher plaintext =
    encrypt_with cipher plaintext (lookup cipher.current_version cipher.fernets)

abbrev pub or_invalid : Option String → Result String
or_invalid none = err (value_error "ciphertext is invalid or was encrypted with a different key")
or_invalid (some plaintext) = ok plaintext

unfoldable pub decrypt_with : Bytes → Option String → Exec String
decrypt_with ciphertext none = raise (value_error "no key available for key_version")
decrypt_with ciphertext (some key) = do
  plaintext ← ask (λ o n. o.fernet_decrypt key ciphertext)
  lift (or_invalid plaintext)

unfoldable pub decrypt : TokenCipher → Bytes → ℕ → Exec String
unfolding decrypt_with
decrypt cipher ciphertext key_version = decrypt_with ciphertext (lookup key_version cipher.fernets)
