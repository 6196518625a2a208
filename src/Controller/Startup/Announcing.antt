-- ===== src/Controller/Startup/Announcing.antt =====
-- How long the controller's own session and its entry in the index last.
use fuzzy_chat.Prelude.{
  ℕ, ◌+◌, ◌≤◌, String, none, some, ok, Status, ◌≡◌, refl, arith, ◌∙◌, true, eq_iff,
}
use fuzzy_chat.Prelude.Dict
use fuzzy_chat.Prelude.Dict.{get-insert, get-insert_self, entry_of_get}
use fuzzy_chat.Crosscutting.Component.{
  Component, ComponentDescriptor, get_connection_settings, get_credentials, from_u8, to_u8,
}
use fuzzy_chat.Crosscutting.Endpoint.{AddrText, get_public_socket_address}
use fuzzy_chat.Crosscutting.Networking.{SocketAddr}
use fuzzy_chat.Controller.Models.{SessionInfo}
use fuzzy_chat.Controller.Session
use fuzzy_chat.Controller.Session.{session_info}
use fuzzy_chat.Controller.State.{Controller}
use fuzzy_chat.Controller.Startup.{announce}
use fuzzy_chat.Controller.Storage.Expiration.{wrap, is_expired}
use fuzzy_chat.Controller.Storage.Sessions
use fuzzy_chat.Controller.Storage.Sessions.{SessionRepository, kill_expired, expired_sessions}
use fuzzy_chat.Controller.Storage.Sessions.Invariant.{WellFormed, Fresh, store-index-WellFormed}
use fuzzy_chat.Controller.Storage.Sessions.Reachable.{controllers-kill_expired_stale}
use fuzzy_chat.Controller.Storage.Sessions.Shrinks.{Wrapped}
use fuzzy_chat.Controller.Storage.Sessions.Expiry.{sessions-kill_expired}
use fuzzy_chat.Controller.Storage.Times.{sessions_expiration_time}

module _ (addresses : AddrText) (descriptor : ComponentDescriptor) (address : SocketAddr)
    (valid : get_public_socket_address addresses {E = Status} (get_connection_settings descriptor)
      ≡ ok address) where
  abbrev uid : String
  uid = (get_credentials descriptor).uid

  -- The session that a turn sets.
  abbrev pub own_session : String → SessionInfo
  own_session access_key =
      session_info access_key uid Component.controller address (get_connection_settings descriptor)

  -- The repository after a turn.
  abbrev pub announced : ℕ → String → SessionRepository → SessionRepository
  announced now access_key r = record r {
    sessions =
        Dict.insert r.sessions access_key
          (wrap now (own_session access_key) sessions_expiration_time);
    controllers = Dict.insert r.controllers uid access_key;
  }

  pub announce_lem :
      (now : ℕ) (access_key : String) (s : Controller)
      → announce addresses descriptor now access_key s
        ≡ (ok access_key, record s { session_manager = announced now access_key s.session_manager })
  unfolding announce Session.set_session Sessions.set_session Sessions.index Sessions.store to_u8
      from_u8
  announce_lem now access_key s = ground (arith, valid)

  announced-WellFormed :
      (now : ℕ) (key : String) (r : SessionRepository)
      → WellFormed r
      → Fresh key r
      → WellFormed (announced now key r)
  unfolding Sessions.index Sessions.store to_u8
  announced-WellFormed now key r h fresh =
      store-index-WellFormed now Component.controller (own_session key) refl fresh h

  -- The controller announces itself at an instant with a new access key, while an older session of
  -- its uid has not been removed, on a well-formed repository, its address being valid. A round that
  -- finds that older session expired, and comes no later than the new one's time, keeps the new
  -- session but leaves the controller out of the index that the network status counts.
  pub announce-kill_expired :
      (b now : ℕ) (key old : String) (w : Wrapped) (s : Controller)
      → WellFormed s.session_manager
      → Fresh key s.session_manager
      → Dict.get s.session_manager.sessions old ≡ some w
      → w.value.uid ≡ uid
      → is_expired now w ≡ true
      → now ≤ b + 10000
      → (q : SessionRepository) × (announce addresses descriptor b key s
          ≡ (ok key, record s { session_manager = q }))
        × (Dict.get q.controllers uid ≡ some key)
        × (Dict.get (kill_expired now q).sessions key
            ≡ some (wrap b (own_session key) sessions_expiration_time))
        × (Dict.get (kill_expired now q).controllers uid ≡ none)
  announce-kill_expired b now key old w s h fresh e mine dead alive =
      let q = announced b key s.session_manager in
      let own = wrap b (own_session key) sessions_expiration_time in
      let stored : Dict.get q.sessions key ≡ some own =
        get-insert_self s.session_manager.sessions key own in
      let kept : Dict.get q.sessions old ≡ some w =
        get-insert s.session_manager.sessions key old own
        ∙ ground (arith, eq_iff key old, fresh.no_session, e) in
      (
        q,
        announce_lem b key s,
        get-insert_self s.session_manager.controllers uid key,
        sessions-kill_expired now (announced-WellFormed b key s.session_manager h fresh) key
            ∙ ground (arith, stored),
        rw mine at (controllers-kill_expired_stale now old w q kept dead),
      )
