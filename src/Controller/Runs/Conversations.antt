-- ===== src/Controller/Runs/Conversations.antt =====
-- What each operation on the conversations and their routes keeps.
use fuzzy_chat.Prelude.{ℕ, String, ◌≡◌, refl, inl, inr, Option-cases, ◌<◌, ◌^◌}
use fuzzy_chat.Prelude.Dict
use fuzzy_chat.Prelude.Dict.{insert-Each, remove-Each, retain-Each}
use fuzzy_chat.Controller.Models.{Conversation, Route}
use fuzzy_chat.Controller.Runs.Sound.{IsKnown, RoutesSound, Talk, Hop, Sound}
use fuzzy_chat.Controller.State.{Controller}
use fuzzy_chat.Controller.Storage.Expiration.{wrap}
use fuzzy_chat.Controller.Storage.Members.{MemberRepository}
use fuzzy_chat.Controller.Storage.Routes
use fuzzy_chat.Controller.Storage.Routes.{RouteRepository, push_route}
use fuzzy_chat.Controller.Storage.Times.{routes_expiration_time, conversations_expiration_time}

module _ {own : String} {members : MemberRepository} where
  pub set_conversation-RoutesSound :
      (now : ℕ) (c : Conversation) {r : RouteRepository}
      → c.routing_id ≡ 1
      → IsKnown own members c.sender
      → RoutesSound own members r
      → RoutesSound own members (Routes.set_conversation now c r).1
  unfolding Routes.set_conversation
  set_conversation-RoutesSound now c {r} random sent h = record {
    talks =
        insert-Each (λ id w. Talk own members id w.value) r.conversations c.id
          (wrap now c conversations_expiration_time)
          (record { named = refl; random = random; sent = sent }) h.talks;
    hops = h.hops;
  }

  pub set_route-RoutesSound :
      (now : ℕ) (id : String) (route : Route) {r : RouteRepository}
      → route.on_port_number < 2 ^ 16
      → RoutesSound own members r
      → RoutesSound own members (Routes.set_route now id route r).1
  unfolding Routes.set_route
  set_route-RoutesSound now id route {r} port h =
      let hops' =
        insert-Each (λ k v. Hop k v.value) r.routes route.nonce
          (wrap now route routes_expiration_time) (refl, port) h.hops in
      elim (Option-cases (Dict.get r.routes route.nonce)) [
        | inr (v, e) ↦ rw e (record { talks = h.talks; hops = hops' })
        | inl e ↦ elim (Option-cases (Dict.get r.conversations id)) [
          | inl f ↦ rw (e, f) (record { talks = h.talks; hops = hops' })
          | inr (w, f) ↦
              let t = h.talks id w f in
              rw (e, f)
                (record {
                  talks =
                      insert-Each (λ k v. Talk own members k v.value) r.conversations id
                        (push_route route w)
                        (record { named = t.named; random = t.random; sent = t.sent }) h.talks;
                  hops = hops';
                })
        ]
      ]

  pub remove_route-RoutesSound :
      (nonce : String) {r : RouteRepository}
      → RoutesSound own members r
      → RoutesSound own members (Routes.remove_route nonce r)
  unfolding Routes.remove_route
  remove_route-RoutesSound nonce {r} h = record {
    talks = h.talks;
    hops = remove-Each (λ k v. Hop k v.value) r.routes nonce h.hops;
  }

  pub remove_conversation-RoutesSound :
      (id : String) {r : RouteRepository}
      → RoutesSound own members r
      → RoutesSound own members (Routes.remove_conversation id r)
  unfolding Routes.remove_conversation
  remove_conversation-RoutesSound id {r} h = record {
    talks = remove-Each (λ k v. Talk own members k v.value) r.conversations id h.talks;
    hops = h.hops;
  }

  pub kill_expired-RoutesSound :
      (now : ℕ) {r : RouteRepository}
      → RoutesSound own members r
      → RoutesSound own members (Routes.kill_expired now r)
  unfolding Routes.kill_expired
  kill_expired-RoutesSound now {r} h = record {
    talks = retain-Each (λ k v. Talk own members k v.value) r.conversations _ h.talks;
    hops = retain-Each (λ k v. Hop k v.value) r.routes _ h.hops;
  }

pub routes-Sound :
    {own : String} {s : Controller} {r : RouteRepository}
    → Sound own s
    → RoutesSound own s.member_manager r
    → Sound own (record s { route_manager = r })
routes-Sound h g = record { sessions = h.sessions; routes = g }
