-- ===== src/Controller/Storage/Expiration.antt =====
-- controller/src/storage/inmemory/mod.rs: values that expire. An `Instant` is a number of
-- milliseconds, and `Instant::now()` is an argument.
use fuzzy_chat.Prelude.{ℕ, ◌+◌, Bool, ltb}

pub record ExpirationWrapper (A : Type 0) : Type 0 where
  pub value : A
  pub expires_at : ℕ
  pub expiration_time : ℕ

module _ {A : Type 0} where
  -- `ExpirationWrapper::new`
  abbrev pub wrap : ℕ → A → ℕ → ExpirationWrapper A
  wrap now value expiration_time = record {
    value = value;
    expires_at = now + expiration_time;
    expiration_time = expiration_time;
  }

  abbrev pub is_expired : ℕ → ExpirationWrapper A → Bool
  is_expired now w = ltb w.expires_at now

  abbrev pub renew : ℕ → ExpirationWrapper A → ExpirationWrapper A
  renew now w = record w { expires_at = now + w.expiration_time }
