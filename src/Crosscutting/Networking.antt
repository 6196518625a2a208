-- ===== src/Crosscutting/Networking.antt =====
-- `std::net::SocketAddr`, of which the program only compares values
-- (crosscutting/src/networking.rs, controller/src/services/auth_service.rs).
use fuzzy_chat.Prelude.{ℕ, ◌≡◌, ◌↔◌, Bool, true, false, ◌&&◌, arith, eqb}

-- An address of either family, as numbers, with its port.
pub data SocketAddr : Type 0 where
  v4 : ℕ → ℕ → SocketAddr
  v6 : ℕ → ℕ → ℕ → ℕ → SocketAddr

-- `==`
unfoldable pub same_addr : SocketAddr → SocketAddr → Bool
same_addr (v4 ip port) (v4 ip' port') = eqb ip ip' && eqb port port'
same_addr (v6 ip port flow scope) (v6 ip' port' flow' scope') =
    (eqb ip ip' && eqb port port') && (eqb flow flow' && eqb scope scope')
same_addr _ _ = false

pub same_addr_iff : (a b : SocketAddr) → (same_addr a b ≡ true) ↔ (a ≡ b)
unfolding same_addr
same_addr_iff (v4 _ _) (v4 _ _) = ground arith
same_addr_iff (v6 _ _ _ _) (v6 _ _ _ _) = ground arith
same_addr_iff a b = ground arith
