-- ===== src/Api/Http/Reads.antt =====
-- The settings and the cipher leave the tables alone.
use hound_bot.Base.{String, Option, none, some}
use hound_bot.Core.Security.{KeySettings, TokenCipher, encrypt, encrypt_with}
use hound_bot.Exec.Laws.{Leaves, tables_of, tables_rules}
use hound_bot.Api.Http.{public_url, cipher_of}

pub public_url-tables :
    (base : Option String) (route : String) → Leaves tables_of (public_url base route)
unfolding public_url
public_url-tables none route = search tables_rules
public_url-tables (some base) route = search tables_rules

pub cipher_of-tables : (keys : KeySettings) → Leaves tables_of (cipher_of keys)
unfolding cipher_of
cipher_of-tables keys = search tables_rules

pub encrypt-tables : (c : TokenCipher) (plaintext : String) → Leaves tables_of (encrypt c plaintext)
unfolding encrypt encrypt_with
encrypt-tables c plaintext = search (tables_rules, with_key)
  where
    with_key : (o : Option String) → Leaves tables_of (encrypt_with c plaintext o)
    with_key none = search tables_rules
    with_key (some key) = search tables_rules
