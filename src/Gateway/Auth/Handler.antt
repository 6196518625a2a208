-- ===== src/Gateway/Auth/Handler.antt =====
-- What the task of `start_auth_handler` does in the end, and when it pings.
use fuzzy_chat.Prelude.{
  ℕ, zero, suc, ◌+◌, ◌-◌, ◌≤◌, String, some, true, ◌≡◌, ◌≢◌, arith, refl, ok, panic, Outcome-cases,
  Bool-cases, inl, inr,
}
use fuzzy_chat.Gateway.Session.{Authenticator}
use fuzzy_chat.Gateway.Auth.{
  Clock, Phase, logging_in, pinging, auth_handler, authenticate, next_ping, get_next_ping_duration,
  ping_interval,
}

-- A client that keeps an invariant, and does not panic while it holds.
pub record Safe {S : Type 0} (clock : Clock S) (client : Authenticator S) (Inv : S → Type 0)
    : Type 0 where
  pub login : (s : S) → Inv s → ((client.login s).0 ≢ panic) × Inv (client.login s).1
  pub ping : (s : S) → Inv s → ((client.ping s).0 ≢ panic) × Inv (client.ping s).1
  pub logout : (s : S) → Inv s → (client.logout s).0 ≢ panic
  pub sleep : (d : ℕ) (s : S) → Inv s → Inv (clock.sleep d s)
  pub keyed :
      (s : S)
      → client.is_authenticated s ≡ true
      → (key : String) × ((client.get_session s).access_key ≡ some key)

module _ {S : Type 0} (clock : Clock S) (client : Authenticator S) (Inv : S → Type 0)
    (safe : Safe clock client Inv) where
  authenticate_state : (s : S) → (authenticate clock client s).1 ≡ (client.login s).1
  unfolding authenticate
  authenticate_state s = elim (Outcome-cases (client.login s).0) [
    | inr (inr p) ↦ ground arith
    | inr (inl (e, p)) ↦ ground arith
    | inl (u, p) ↦ elim (Bool-cases (client.is_authenticated (client.login s).1)) [
      | inr out ↦ ground arith
      | inl logged ↦ let (key, k) = safe.keyed (client.login s).1 logged in ground (arith, k)
    ]
  ]

  authenticate_safe : (s : S) → Inv s → (authenticate clock client s).0 ≢ panic
  unfolding authenticate
  authenticate_safe s i =
      let n = (safe.login s i).0 in
      elim (Outcome-cases (client.login s).0) [
        | inr (inr p) ↦ ground (arith, n)
        | inr (inl (e, p)) ↦ ground arith
        | inl (u, p) ↦ elim (Bool-cases (client.is_authenticated (client.login s).1)) [
          | inr out ↦ ground arith
          | inl logged ↦ let (key, k) = safe.keyed (client.login s).1 logged in ground (arith, k)
        ]
      ]

  next_ping_safe :
      (last_ping : ℕ) (s : S)
      → Inv s
      → ((next_ping clock client last_ping s).0 ≢ panic)
        × Inv (next_ping clock client last_ping s).1
  unfolding next_ping
  next_ping_safe last_ping s i = safe.ping _ (safe.sleep _ s i)

  -- Whatever happens at its logins and pings, the task ends, once it is cancelled, with a logout.
  pub auth_handler-logout :
      (tests : ℕ) (phase : Phase) (s : S)
      → Inv s
      → (q : S) × Inv q × (auth_handler clock client tests phase s ≡ (ok tt, (client.logout q).1))
  unfolding auth_handler
  auth_handler-logout zero phase s i = (s, i, ground (arith, safe.logout s i))
  auth_handler-logout (suc tests) logging_in s i =
      let j : Inv (authenticate clock client s).1 = rw (authenticate_state s) (safe.login s i).1 in
      elim (Outcome-cases (authenticate clock client s).0) [
        | inr (inr p) ↦ elim (authenticate_safe s i p) [ ]
        | inr (inl (e, p)) ↦
            rw (p, auth_handler) (auth_handler-logout tests logging_in _ (safe.sleep _ _ j))
        | inl (key, p) ↦ rw (p, auth_handler) (auth_handler-logout tests (pinging _) _ j)
      ]
  auth_handler-logout (suc tests) (pinging last_ping) s i =
      let (n, j) = next_ping_safe last_ping s i in
      elim (Outcome-cases (next_ping clock client last_ping s).0) [
        | inr (inr p) ↦ elim (n p) [ ]
        | inr (inl (e, p)) ↦ rw (p, auth_handler) (auth_handler-logout tests logging_in _ j)
        | inl (a, p) ↦ rw (p, auth_handler) (auth_handler-logout tests (pinging _) _ j)
      ]

-- The pause before a ping is what is left of the interval: together with the time since the last ping
-- it is the interval, or there is no pause and the interval has passed.
pub get_next_ping_duration_lem :
    (elapsed : ℕ)
    → (get_next_ping_duration elapsed ≤ ping_interval)
      × (ping_interval ≤ elapsed + get_next_ping_duration elapsed)
      × (elapsed ≤ ping_interval → elapsed + get_next_ping_duration elapsed ≡ ping_interval)
unfolding get_next_ping_duration
get_next_ping_duration_lem elapsed = ground arith

-- The turn of a task within one interval of its last ping sends the next ping, and sends it when the
-- interval has passed since the last one, and at most `delay` later, if a sleep takes at least the time
-- that it was asked for, and at most `delay` longer.
pub next_ping_lem :
    {S : Type 0} (clock : Clock S) (client : Authenticator S) (delay last_ping : ℕ) (s : S)
    → ((d : ℕ) (q : S) → clock.now q + d ≤ clock.now (clock.sleep d q))
    → ((d : ℕ) (q : S) → clock.now (clock.sleep d q) ≤ clock.now q + d + delay)
    → last_ping ≤ clock.now s
    → clock.now s ≤ last_ping + ping_interval
    → (q : S) × (next_ping clock client last_ping s ≡ client.ping q)
      × (last_ping + ping_interval ≤ clock.now q)
      × (clock.now q ≤ last_ping + ping_interval + delay)
unfolding next_ping
next_ping_lem clock client delay last_ping s low high l u =
    let d = get_next_ping_duration (clock.now s - last_ping) in
    let (_, _, exact) = get_next_ping_duration_lem (clock.now s - last_ping) in
    (
      clock.sleep d s,
      refl,
      omega (arith, low d s, exact (omega arith)),
      omega (arith, high d s, exact (omega arith)),
    )
