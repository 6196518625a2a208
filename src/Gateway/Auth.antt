-- ===== src/Gateway/Auth.antt =====
-- gateway/src/auth.rs: `AuthManager`, and the task of `start_auth_handler`. The clock is an argument;
-- the cancellation token answers some number of tests with "not yet", and all later ones with
-- "cancelled", and its child token with it.
pub mod Handler
pub mod Client
use fuzzy_chat.Prelude.{
  ℕ, zero, suc, ◌-◌, String, not, Exec, ok, err, panic, map_err, fail, unwrap, leb, ◌>>=◌, ◌>>◌,
  if◌then◌else◌, some,
}
use fuzzy_chat.Prelude.Int.{ℤ}
use fuzzy_chat.Gateway.Session.{Authenticator}

abbrev pub ping_interval : ℕ
ping_interval = 5000

abbrev pub auth_delay : ℕ
auth_delay = 1000

-- `Instant::now` and `sleep`
pub record Clock (S : Type 0) : Type 0 where
  pub now : S → ℕ
  pub sleep : ℕ → S → S

unfoldable pub get_next_ping_duration : ℕ → ℕ
get_next_ping_duration elapsed = if leb ping_interval elapsed then 0 else ping_interval - elapsed

-- Where the task stands: before a login, or between two pings.
pub data Phase : Type 0 where
  logging_in : Phase
  pinging : ℕ → Phase

module _ {S : Type 0} (clock : Clock S) (client : Authenticator S) where
  unfoldable pub authenticate : Exec S String String
  authenticate = do
    map_err (λ _. "Impossible to login") client.login
    λ s.
        (if not (client.is_authenticated s)
            then fail "Not authenticated"
            else unwrap (client.get_session s).access_key)
          s

  -- One turn of `keep_alive`: it waits, and pings.
  unfoldable pub next_ping : ℕ → Exec S String (String × ℤ)
  unfolding get_next_ping_duration
  next_ping last_ping s =
      client.ping (clock.sleep (get_next_ping_duration (clock.now s - last_ping)) s)

  -- The two nested loops, for a number of tests of the token before it is cancelled. An error of the
  -- last logout is logged.
  unfoldable pub auth_handler : ℕ → Phase → Exec S String Unit
  unfolding authenticate next_ping
  auth_handler zero phase s = elim (client.logout s).0 [
    | panic ↦ (panic, (client.logout s).1)
    | _ ↦ (ok tt, (client.logout s).1)
  ]
  auth_handler (suc tests) logging_in s = elim (authenticate s).0 [
    | ok key ↦ auth_handler tests (pinging (clock.now (authenticate s).1)) (authenticate s).1
    | err e ↦ auth_handler tests logging_in (clock.sleep auth_delay (authenticate s).1)
    | panic ↦ (panic, (authenticate s).1)
  ]
  auth_handler (suc tests) (pinging last_ping) s = elim (next_ping last_ping s).0 [
    | ok answer ↦
        auth_handler tests (pinging (clock.now (next_ping last_ping s).1)) (next_ping last_ping s).1
    | err e ↦ auth_handler tests logging_in (next_ping last_ping s).1
    | panic ↦ (panic, (next_ping last_ping s).1)
  ]
