-- ===== src/Controller/Redis/Laws.antt =====
-- What Redis documents of the commands, while no key expires, for keys that hold a text, or a hash from
-- fields to texts with one field at least, or nothing.
use fuzzy_chat.Prelude.{
  ℕ, String, Option, none, some, List, [], ◌∷◌, Exec, ok, err, ◌⊎◌, ◌≡◌, ◌==◌, ◌&&◌, if◌then◌else◌,
}
use fuzzy_chat.Controller.Redis.{Redis, Json, Write, set_ex, del, expire, hset, hdel}

-- A reply that is nil or an error.
abbrev pub GivesNoText : {R : Type 0} → Exec R String (Option String) → R → Type 0
GivesNoText m s = (m s ≡ (ok none, s)) ⊎ ((e : String) × (m s ≡ (err e, s)))

-- `text` and `field` observe what a server holds.
pub record IsRedis {R : Type 0} (redis : Redis R) : Type 0 where
  pub text : R → String → Option String
  pub field : R → String → String → Option String
  pub get_text : (k v : String) (s : R) → text s k ≡ some v → redis.get k s ≡ (ok (some v), s)
  -- A key that holds nothing gives nil, and one that holds a hash an error: WRONGTYPE.
  pub get_nil :
      (k : String) (s : R)
      → text s k ≡ none
      → ((f : String) → field s k f ≡ none)
      → redis.get k s ≡ (ok none, s)
  pub get_other : (k : String) (s : R) → text s k ≡ none → GivesNoText (redis.get k) s
  -- `GETEX` gives what `GET` gives, and sets the time to live.
  pub get_ex_text :
      (k v : String) (n : ℕ) (s : R)
      → text s k ≡ some v
      → (q : R) × (redis.get_ex k n s ≡ (ok (some v), q))
        × ((j : String) → text q j ≡ text s j)
        × ((j f : String) → field q j f ≡ field s j f)
  pub get_ex_nil :
      (k : String) (n : ℕ) (s : R)
      → text s k ≡ none
      → ((f : String) → field s k f ≡ none)
      → redis.get_ex k n s ≡ (ok none, s)
  pub set_ex_text :
      (k v : String) (n : ℕ) (s : R)
      → (q : R) × (redis.write (set_ex k v n) s ≡ (ok tt, q))
        × ((j : String) → text q j ≡ (if k == j then some v else text s j))
        × ((j f : String) → field q j f ≡ (if k == j then none else field s j f))
  pub del_text :
      (k : String) (s : R)
      → (q : R) × (redis.write (del k) s ≡ (ok tt, q))
        × ((j : String) → text q j ≡ (if k == j then none else text s j))
        × ((j f : String) → field q j f ≡ (if k == j then none else field s j f))
  pub expire_text :
      (k : String) (n : ℕ) (s : R)
      → (q : R) × (redis.write (expire k n) s ≡ (ok tt, q))
        × ((j : String) → text q j ≡ text s j)
        × ((j f : String) → field q j f ≡ field s j f)
  -- The hash commands are refused at a key that holds a text.
  pub hget_field :
      (k f : String) (s : R) → text s k ≡ none → redis.hget k f s ≡ (ok (field s k f), s)
  pub hset_field :
      (k f v : String) (s : R)
      → text s k ≡ none
      → (q : R) × (redis.write (hset k f v) s ≡ (ok tt, q))
        × ((j : String) → text q j ≡ text s j)
        × ((j g : String) → field q j g ≡ (if k == j && f == g then some v else field s j g))
  pub hdel_field :
      (k f : String) (s : R)
      → text s k ≡ none
      → (q : R) × (redis.write (hdel k f) s ≡ (ok tt, q))
        × ((j : String) → text q j ≡ text s j)
        × ((j g : String) → field q j g ≡ (if k == j && f == g then none else field s j g))
  -- A pipe runs its commands in their order.
  pub atomic_nil : (s : R) → redis.atomic [] s ≡ (ok tt, s)
  pub atomic_cons :
      (c : Write) (cs : List Write) (s q : R)
      → redis.write c s ≡ (ok tt, q)
      → redis.atomic (c ∷ cs) s ≡ redis.atomic cs q

-- A value that is written as JSON is read back.
abbrev pub ReadsBack : {A : Type 0} → Json A → A → Type 0
ReadsBack json a = json.from_str (json.to_string a) ≡ some a

abbrev pub RoundTrips : {A : Type 0} → Json A → Type 0
RoundTrips {A} json = (a : A) → ReadsBack json a
