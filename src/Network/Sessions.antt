-- ===== src/Network/Sessions.antt =====
-- What requests leave of the sessions: all of them but for the times at which they expire.
use fuzzy_chat.Prelude.{
  ℕ, String, ◌≡◌, refl, sym, ◌∙◌, some, List, [], ◌∷◌, arith, Option-cases, inl, inr, eq_iff,
}
use fuzzy_chat.Prelude.Dict
use fuzzy_chat.Prelude.Dict.{Dict, get-insert}
use fuzzy_chat.Controller.State.{Controller}
use fuzzy_chat.Controller.Storage.Sessions.{
  SessionRepository, get_client, get_proxies, other_sessions,
}
use fuzzy_chat.Controller.Storage.Expiration.{renew}
use fuzzy_chat.Controller.Storage.Routes.{value_of}
use fuzzy_chat.Controller.Storage.Sessions.Shrinks.{Wrapped}
use fuzzy_chat.Controller.Services.Guards.Facts.{touch}

-- The same sessions, renewed at other times.
pub record Same (r q : SessionRepository) : Type 0 where
  pub values : (k : String) → value_of (Dict.get q.sessions k) ≡ value_of (Dict.get r.sessions k)
  pub clients : q.clients ≡ r.clients
  pub controllers : q.controllers ≡ r.controllers
  pub proxies : q.proxies ≡ r.proxies

pub Same-refl : (r : SessionRepository) → Same r r
Same-refl r = record { values = λ k. refl; clients = refl; controllers = refl; proxies = refl }

pub Same-sym : {a b : SessionRepository} → Same a b → Same b a
Same-sym f = record {
  values = λ k. sym (f.values k);
  clients = sym f.clients;
  controllers = sym f.controllers;
  proxies = sym f.proxies;
}

pub Same-trans : {a b c : SessionRepository} → Same a b → Same b c → Same a c
Same-trans f g = record {
  values = λ k. g.values k ∙ f.values k;
  clients = g.clients ∙ f.clients;
  controllers = g.controllers ∙ f.controllers;
  proxies = g.proxies ∙ f.proxies;
}

pub Same-touch :
    (now : ℕ) (key : String) (w : Wrapped) (s : Controller)
    → Dict.get s.session_manager.sessions key ≡ some w
    → Same s.session_manager (touch now key w s).session_manager
Same-touch now key w s e = record {
  values = λ k.
      ground (arith, e, eq_iff key k, get-insert s.session_manager.sessions key k (renew now w));
  clients = refl;
  controllers = refl;
  proxies = refl;
}

-- A session that is there is still there.
pub Same-get :
    {r q : SessionRepository} (key : String) (w : Wrapped)
    → Same r q
    → Dict.get r.sessions key ≡ some w
    → (v : Wrapped) × (Dict.get q.sessions key ≡ some v) × (v.value ≡ w.value)
Same-get {r} {q} key w h e = elim (Option-cases (Dict.get q.sessions key)) [
  | inl f ↦ ground (arith, e, f, h.values key)
  | inr (v, f) ↦ (v, f, ground (arith, e, f, h.values key))
]

other_sessions-Same :
    (key : String) (a b : Dict Wrapped) (l : List (String × String))
    → ((k : String) → value_of (Dict.get b k) ≡ value_of (Dict.get a k))
    → other_sessions key b l ≡ other_sessions key a l
unfolding other_sessions
other_sessions-Same key a b [] h = refl
other_sessions-Same key a b ((uid, k) ∷ rest) h =
    let more = other_sessions-Same key a b rest h in
    elim (Option-cases (Dict.get a k)) [
      | inl e ↦ elim (Option-cases (Dict.get b k)) [
        | inl f ↦ ground (arith, more)
        | inr (v, f) ↦ ground (arith, h k, e, f)
      ]
      | inr (w, e) ↦ elim (Option-cases (Dict.get b k)) [
        | inl f ↦ ground (arith, h k, e, f)
        | inr (v, f) ↦ ground (arith, h k, e, f, more)
      ]
    ]

pub get_proxies-Same :
    {r q : SessionRepository} (key : String) → Same r q → get_proxies key q ≡ get_proxies key r
unfolding get_proxies
get_proxies-Same {r} {q} key h =
    rw (h.proxies, other_sessions-Same key r.sessions q.sessions (Dict.entries r.proxies) h.values)

pub get_client-Same :
    {r q : SessionRepository} (uid : String) → Same r q → get_client uid q ≡ get_client uid r
unfolding get_client
get_client-Same {r} {q} uid h = elim (Option-cases (Dict.get r.clients uid)) [
  | inl e ↦ ground (arith, e, h.clients)
  | inr (k, e) ↦ elim (Option-cases (Dict.get r.sessions k)) [
    | inl f ↦ elim (Option-cases (Dict.get q.sessions k)) [
      | inl g ↦ ground (arith, e, f, g, h.clients)
      | inr (v, g) ↦ ground (arith, f, g, h.values k)
    ]
    | inr (w, f) ↦ let (v, g, p) = Same-get k w h f in ground (arith, e, f, g, p, h.clients)
  ]
]
