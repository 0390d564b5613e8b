-- ===== src/Tests/Access.antt =====
-- Signatures, keys, OAuth states and event ids at the concrete world.
use hound_bot.Base.{
  ◌-◌, ◌*◌, ◌≡◌, ◌≢◌, refl, ◌⊎◌, ◌↔◌, String, ◌<>◌, true, false, not, ◌&&◌, none, some, [], ◌==◌,
  string_eq, nat_eq, any, select, length, leb, if◌then◌else◌, arith,
}
use hound_bot.Time.{day}
use hound_bot.Models.{Bytes, google_link, slack_install, purpose_eq}
use hound_bot.Exec.{ok, err, multiple_results_found}
use hound_bot.Core.Security.{
  TokenCipher, verify_slack_signature, token_cipher_from_settings, encrypt, decrypt,
}
use hound_bot.Core.Security.Signature.{IsSigned, verify_slack_signature-accepts}
use hound_bot.Core.Security.Rotation.{first_settings, rotated_settings, rotation-decrypts}
use hound_bot.Repositories.OAuthStates.{consume, peek_valid}
use hound_bot.Repositories.OAuthStates.SingleUse.{
  was_found, consume-once, consume-valid, peek_valid-consume,
}
use hound_bot.Repositories.ProcessedEvents.{
  is_known, is_old, mark_processed_if_new, sweep_old_processed_events,
}
use hound_bot.Repositories.ProcessedEvents.Dedup.{recent, mark_processed_if_new-twice, sweep-recent}
use hound_bot.Tests.Setting.{world, oauth_state, outside, different}

abbrev toy_hmac : String → String → String
toy_hmac key text = key <> text

verify_slack_signature-accepts_example :
    (verify_slack_signature toy_hmac "body" "1000" "v0=kv0:1000:body" "k" 1_000_000_000 ≡ ok true)
    ↔ ((◌≢◌ {A = String} "k" "")
        × IsSigned toy_hmac "body" "1000" "v0=kv0:1000:body" "k" 1_000_000_000)
verify_slack_signature-accepts_example =
    verify_slack_signature-accepts toy_hmac "body" "1000" "v0=kv0:1000:body" "k" 1_000_000_000

rotation-decrypts_example :
    let is_key = outside.is_fernet_key in
    (a : TokenCipher) × (b : TokenCipher) × (token_cipher_from_settings is_key
        (first_settings "k1" 1)
      ≡ ok a)
    × (token_cipher_from_settings is_key (rotated_settings "k2" 2 "k1" 1) ≡ ok b)
    × (x : Bytes) × ((encrypt a "xoxb" world).0 ≡ ok (x, 1))
    × ((decrypt b x 1 world).0 ≡ ok "xoxb")
    × (y : Bytes) × ((encrypt b "xoxb" world).0 ≡ ok (y, 2))
    × ((decrypt b y 2 world).0 ≡ ok "xoxb")
unfolding string_eq nat_eq
rotation-decrypts_example =
    rotation-decrypts "k1" "k2" 1 2 (different "k1" "" refl) (different "k2" "" refl) (omega arith)
      outside.is_fernet_key refl refl "xoxb" world world (λ n. refl) (λ n. refl) refl

consume-once_example :
    let (r, v) = consume "s1" google_link world in
    (r ≡ err multiple_results_found) ⊎ (consume "s1" google_link v ≡ (ok none, v))
consume-once_example = consume-once "s1" google_link google_link world

consume-valid_example :
    (consume "s1" google_link world).0
    ≡ ok (
        if oauth_state.purpose == google_link
          && leb (world.outside.clock world.calls) oauth_state.expires_at
        then some oauth_state
        else none)
unfolding string_eq
consume-valid_example = consume-valid "s1" google_link world oauth_state refl

peek_valid-consume_example :
    let (r, v) = peek_valid "s1" slack_install world in
    (r ≡ was_found (consume "s1" slack_install world).0) × (v.db ≡ world.db)
peek_valid-consume_example = peek_valid-consume "s1" slack_install world

mark_processed_if_new-twice_example :
    let (r, v) = mark_processed_if_new "E2" "T1" world in
    let (r', v') = mark_processed_if_new "E2" "T2" v in
    (r ≡ ok (not (is_known "E2" world.db)))
    × (is_known "E2" v.db ≡ true)
    × (r' ≡ ok false)
    × (v'.db ≡ v.db)
mark_processed_if_new-twice_example = mark_processed_if_new-twice "E2" "T1" "T2" world

sweep-recent_example :
    let cutoff = world.outside.clock world.calls - 7 * day in
    let (r, v) = sweep_old_processed_events world in
    (r ≡ ok (length (select (is_old cutoff) world.db.processed_events)))
    × (is_known "E1" v.db ≡ any (recent cutoff "E1") world.db.processed_events)
    × (select (is_old cutoff) v.db.processed_events ≡ [])
sweep-recent_example = sweep-recent "E1" world (omega arith)
