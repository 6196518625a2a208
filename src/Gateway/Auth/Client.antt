-- ===== src/Gateway/Auth/Client.antt =====
-- `AuthClient` in the task of `start_auth_handler`: once it is initialized it does not panic.
use fuzzy_chat.Prelude.{
  ℕ, String, ◌≡◌, ◌≢◌, some, ok, panic, true, arith, Outcome-cases, Option-cases, inl, inr,
  unwrap_or,
}
use fuzzy_chat.Controller.Models.{LoginRequest}
use fuzzy_chat.Gateway.Session.{
  AuthClient, AuthService, ClientSession, login_request, login, logout, ping, is_authenticated,
  auth_client,
}
use fuzzy_chat.Gateway.Auth.{Clock, Phase, auth_handler}
use fuzzy_chat.Gateway.Auth.Handler.{auth_handler-logout}

-- A stub whose calls give an answer or an error.
pub record Answers {S : Type 0} (service : AuthService S) : Type 0 where
  pub login : (r : LoginRequest) (s : S) → (service.login r s).0 ≢ panic
  pub logout : (key : String) (s : S) → (service.logout key s).0 ≢ panic
  pub ping : (key : String) (s : S) → (service.ping key s).0 ≢ panic

module _ {S : Type 0} (service : AuthService S) (answers : Answers service) where
  login_safe :
      (c : AuthClient S)
      → c.client ≡ some service
      → ((login c).0 ≢ panic) × ((login c).1.client ≡ some service)
  unfolding login
  login_safe c e =
      let n = answers.login (login_request c) c.world in
      elim (Outcome-cases (service.login (login_request c) c.world).0) [
        | inr (inr p) ↦ elim (n p) [ ]
        | inr (inl (_, p)) ↦ ground (arith, e, p)
        | inl (_, p) ↦ ground (arith, e, p)
      ]

  logout_safe : (c : AuthClient S) → c.client ≡ some service → (logout c).0 ≢ panic
  unfolding logout
  logout_safe c e =
      let n = answers.logout (unwrap_or c.session.access_key "") c.world in
      elim (Outcome-cases (service.logout (unwrap_or c.session.access_key "") c.world).0) [
        | inr (inr p) ↦ elim (n p) [ ]
        | inr (inl (_, p)) ↦ ground (arith, e, p)
        | inl (_, p) ↦ ground (arith, e, p)
      ]

  ping_safe :
      (c : AuthClient S)
      → c.client ≡ some service
      → ((ping c).0 ≢ panic) × ((ping c).1.client ≡ some service)
  unfolding ping
  ping_safe c e =
      let n = answers.ping (unwrap_or c.session.access_key "") c.world in
      elim (Outcome-cases (service.ping (unwrap_or c.session.access_key "") c.world).0) [
        | inr (inr p) ↦ elim (n p) [ ]
        | inr (inl (_, p)) ↦ ground (arith, e, p)
        | inl (_, p) ↦ ground (arith, e, p)
      ]

  authenticated_key :
      (session : ClientSession)
      → is_authenticated session ≡ true
      → (key : String) × (session.access_key ≡ some key)
  unfolding is_authenticated
  authenticated_key session h = elim (Option-cases session.access_key) [
    | inl e ↦ ground (arith, e)
    | inr (key, e) ↦ (key, e)
  ]

  -- The task of an initialized client, whose stub answers every call, ends once it is cancelled with
  -- a logout of the client, whatever happened at its logins and pings.
  pub auth_client-logout :
      (clock : Clock (AuthClient S))
      → ((d : ℕ) (c : AuthClient S) → (clock.sleep d c).client ≡ c.client)
      → (tests : ℕ) (phase : Phase) (c : AuthClient S) → c.client ≡ some service
      → (q : AuthClient S) × (q.client ≡ some service)
        × (auth_handler clock auth_client tests phase c ≡ (ok tt, (logout q).1))
  unfolding auth_client
  auth_client-logout clock sleeps tests phase c e =
      auth_handler-logout clock auth_client (λ q. q.client ≡ some service)
        (record {
          login = login_safe;
          ping = ping_safe;
          logout = logout_safe;
          sleep = λ d q i. ground (arith, sleeps d q);
          keyed = λ q h. authenticated_key q.session h;
        })
        tests phase c e
