-- ===== src/Crosscutting/Component.antt =====
-- The component types and descriptors of crosscutting/src/lib.rs.
use fuzzy_chat.Prelude.{ℕ, zero, suc, String, ◌≡◌, refl, List, Outcome, ok, panic}
use fuzzy_chat.Prelude.Int.{ℤ, pos}

pub data Component : Type 0 where
  controller proxy client : Component

pub record ConnectionSettings : Type 0 where
  pub ip : String
  pub port : ℕ
  pub domain_name : String
  pub certificate : List ℕ

pub record Credentials : Type 0 where
  pub uid : String
  pub pwd : String

-- `Component::from(i32)` panics on any other number.
unfoldable pub from_i32 : {E : Type 0} → ℤ → Outcome E Component
from_i32 (pos zero) = ok Component.controller
from_i32 (pos (suc zero)) = ok Component.proxy
from_i32 (pos (suc (suc zero))) = ok Component.client
from_i32 _ = panic

-- `Component::from(u8)`
unfoldable pub from_u8 : {E : Type 0} → ℕ → Outcome E Component
unfolding from_i32
from_u8 value = from_i32 (pos value)

-- `u8::from(Component)`
unfoldable pub to_u8 : Component → ℕ
to_u8 Component.controller = 0
to_u8 Component.proxy = 1
to_u8 Component.client = 2

-- `i32::from(Component)`
unfoldable pub to_i32 : Component → ℤ
unfolding to_u8
to_i32 value = pos (to_u8 value)

pub from_u8-to_u8 : {E : Type 0} (c : Component) → from_u8 {E = E} (to_u8 c) ≡ ok c
unfolding from_u8 to_u8
from_u8-to_u8 Component.controller = refl
from_u8-to_u8 _ = refl

pub from_i32-to_i32 : {E : Type 0} (c : Component) → from_i32 {E = E} (to_i32 c) ≡ ok c
unfolding from_i32 to_i32
from_i32-to_i32 Component.controller = refl
from_i32-to_i32 _ = refl

pub data ComponentDescriptor : Type 0 where
  controller : Credentials → ConnectionSettings → String → ComponentDescriptor
  proxy client : Credentials → ConnectionSettings → ComponentDescriptor

unfoldable pub get_connection_settings : ComponentDescriptor → ConnectionSettings
get_connection_settings (ComponentDescriptor.controller c s v) = s
get_connection_settings (ComponentDescriptor.proxy c s) = s
get_connection_settings (ComponentDescriptor.client c s) = s

unfoldable pub get_credentials : ComponentDescriptor → Credentials
get_credentials (ComponentDescriptor.controller c s v) = c
get_credentials (ComponentDescriptor.proxy c s) = c
get_credentials (ComponentDescriptor.client c s) = c

-- `Component::from(&ComponentDescriptor)`
unfoldable pub from_descriptor : ComponentDescriptor → Component
from_descriptor (ComponentDescriptor.controller c s v) = Component.controller
from_descriptor (ComponentDescriptor.proxy c s) = Component.proxy
from_descriptor (ComponentDescriptor.client c s) = Component.client

-- `Display`
unfoldable pub to_string : Component → String
to_string Component.controller = "Controller"
to_string Component.proxy = "Proxy"
to_string Component.client = "Client"
