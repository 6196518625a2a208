-- ===== src/Controller/Storage/Times.antt =====
-- The durations of controller/src/storage, in milliseconds.
use fuzzy_chat.Prelude.{ℕ}

abbrev pub routes_expiration_time : ℕ
routes_expiration_time = 60000

abbrev pub conversations_expiration_time : ℕ
conversations_expiration_time = 60000

abbrev pub sessions_expiration_time : ℕ
sessions_expiration_time = 10000
