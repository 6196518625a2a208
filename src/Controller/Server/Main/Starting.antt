-- ===== src/Controller/Server/Main/Starting.antt =====
-- In which state a controller starts.
use fuzzy_chat.Prelude.{
  ◌<◌, ◌^◌, String, List, Option, Outcome, ok, ok-injective, ◌≡◌, arith, refl, Outcome-cases, inl,
  inr,
}
use mathlib.Core.Path.{subst}
use fuzzy_chat.Crosscutting.Component as Described
use fuzzy_chat.Crosscutting.Component.{Component, ComponentDescriptor, from_descriptor}
use fuzzy_chat.Crosscutting.Endpoint.{AddrText}
use fuzzy_chat.Crosscutting.Serving.{Tonic}
use fuzzy_chat.Crosscutting.Settings.{System, get_default_log_file_name, load}
use fuzzy_chat.Crosscutting.Settings.Loading.{load_lem}
use fuzzy_chat.Crosscutting.Settings.Logger.{Logging, setup_logger}
use fuzzy_chat.Controller.Runs.{Reachable, blank, seeds, started, next, after}
use fuzzy_chat.Controller.Server.{start_server_handler}
use fuzzy_chat.Controller.Server.Main.{Running, Managers, seeded, main}
use fuzzy_chat.Controller.Startup.{initialize, create_domain_components}
use fuzzy_chat.Controller.State.{Controller}
use fuzzy_chat.Controller.Storage.Choice.{
  RepositoryType, get_from_env, create_member_repository, create_route_repository,
  create_session_repository,
}

managers_in_memory :
    {R : Type 0} (connect : String → Option R) (system : System)
    → get_from_env system ≡ RepositoryType.in_memory
    → create_domain_components tt connect system ≡ ok (inl tt, inl tt, inl tt)
unfolding create_domain_components create_member_repository create_route_repository
    create_session_repository
managers_in_memory connect system e = ground (arith, e)

seeded-Reachable :
    (addresses : AddrText) (d : ComponentDescriptor) (system : System)
    (records_of : String → Option (List (Option (List String)))) (s : Controller)
    → seeded system records_of ≡ ok s
    → Reachable addresses d s
unfolding seeded after
seeded-Reachable addresses d system records_of s e =
    elim (Outcome-cases (initialize system records_of blank).0) [
      | inr (inl (x, p)) ↦ ground (arith, p, e)
      | inr (inr p) ↦ ground (arith, p, e)
      | inl (x, p) ↦
          subst (Reachable addresses d)
            (ok-injective {E = String} (initialize system records_of blank).1 s
              (ground (arith, p, e)))
            (next (seeds system records_of) tt started)
    ]

module _ {R Level : Type 0} (addresses : AddrText) (tonic : Tonic) (logging : Logging Level)
    (hostname : Option String) (records_of : String → Option (List (Option (List String))))
    (connect : String → Option R)
    (over_redis : ComponentDescriptor → Managers R → Outcome String Running) (system : System) where
  record Steps (r : Running) : Type 0 where
    loaded : (load Component.controller system).0 ≡ ok r.descriptor
    filled : seeded system records_of ≡ ok r.state
    served : start_server_handler addresses tonic system r.descriptor ≡ r.server

  main-Steps :
      (r : Running)
      → get_from_env system ≡ RepositoryType.in_memory
      → main addresses tonic logging hostname records_of connect over_redis system ≡ ok r
      → Steps r
  unfolding main
  main-Steps r kind e =
      let m = managers_in_memory connect system kind in
      elim (Outcome-cases
        (setup_logger logging (get_default_log_file_name hostname "controller") system).0) [
          | inr (inl (x, p)) ↦ ground (arith, p, e)
          | inr (inr p) ↦ ground (arith, p, e)
          | inl (logger, p) ↦ elim (Outcome-cases (load Component.controller system).0) [
            | inr (inl (x, q)) ↦ ground (arith, p, q, e)
            | inr (inr q) ↦ ground (arith, p, q, e)
            | inl (d, q) ↦ elim (Outcome-cases (seeded system records_of)) [
              | inr (inl (x, c)) ↦ ground (arith, p, q, m, c, e)
              | inr (inr c) ↦ ground (arith, p, q, m, c, e)
              | inl (s, c) ↦
                  let server = start_server_handler addresses tonic system d in
                  let same =
                    ok-injective {E = String}
                      (record { descriptor = d; state = s; server = server }) r
                      (ground (arith, p, q, m, c, e)) in
                  subst Steps same (record { loaded = q; filled = c; served = refl })
            ]
          ]
        ]

  -- A controller that keeps its data in memory and whose `main` comes to wait for the signal has the
  -- descriptor of a controller, with a port that fits 16 bits, and is in one of the states that a
  -- controller of that descriptor may come to.
  pub main-Reachable :
      (r : Running)
      → get_from_env system ≡ RepositoryType.in_memory
      → main addresses tonic logging hostname records_of connect over_redis system ≡ ok r
      → (from_descriptor r.descriptor ≡ Component.controller)
        × ((Described.get_connection_settings r.descriptor).port < 2 ^ 16)
        × Reachable addresses r.descriptor r.state
  main-Reachable r kind e =
      let h = main-Steps r kind e in
      let (c, port) = load_lem Component.controller system r.descriptor h.loaded in
      (c, port, seeded-Reachable addresses r.descriptor system records_of r.state h.filled)
