-- ===== src/Controller/Redis/Replies.antt =====
-- What the reads and writes give under the laws.
use fuzzy_chat.Prelude.{String, Option, none, some, Exec, ok, panic, ◌≡◌, arith, inl, inr}
use fuzzy_chat.Controller.Redis.{Json, unwrapped, ok_of, read_as}
use fuzzy_chat.Controller.Redis.Laws.{GivesNoText}

module _ {R A : Type 0} (json : Json A) (m : Exec R String (Option String)) (s q : R) where
  -- A reply that is the JSON of a value.
  pub read_some :
      (a : A)
      → json.from_str (json.to_string a) ≡ some a
      → m s ≡ (ok (some (json.to_string a)), q)
      → ok_of (read_as json m) s ≡ (ok (some a), q)
  read_some a r e = ground (arith, e, r)

  pub read_nil : m s ≡ (ok none, q) → ok_of (read_as json m) s ≡ (ok none, q)
  read_nil e = ground (arith, e)

  -- Unwrapped, nil is a panic.
  pub unwrap_some :
      (a : A)
      → json.from_str (json.to_string a) ≡ some a
      → m s ≡ (ok (some (json.to_string a)), q)
      → unwrapped (read_as json m) s ≡ (ok a, q)
  unwrap_some a r e = ground (arith, e, r)

  pub unwrap_nil : m s ≡ (ok none, q) → unwrapped (read_as json m) s ≡ (panic, q)
  unwrap_nil e = ground (arith, e)

-- So is an error.
pub unwrap_no_text :
    {R A : Type 0} (json : Json A) (m : Exec R String (Option String)) (s : R)
    → GivesNoText m s
    → unwrapped (read_as json m) s ≡ (panic, s)
unwrap_no_text json m s (inl e) = unwrap_nil json m s s e
unwrap_no_text json m s (inr (x, e)) = ground (arith, e)

module _ {R : Type 0} where
  pub unwrapped-ok :
      {A : Type 0} (m : Exec R String A) (a : A) (s q : R)
      → m s ≡ (ok a, q)
      → unwrapped m s ≡ (ok a, q)
  unwrapped-ok m a s q e = ground (arith, e)
