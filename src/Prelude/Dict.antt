-- ===== src/Prelude/Dict.antt =====
-- `std::collections::HashMap` with text keys, behind its laws: a list of entries whose keys are
-- distinct. The order of iteration is that of the list; no law depends on it.
mod Entries
use Prim.Native.Nat.{ℕ, ◌+◌, ◌≤◌}
use Prim.Native.String.{String}
use mathlib.Core.Path.{◌≡◌, refl, ◌∙◌, subst}
use mathlib.Core.Bool.{Bool}
use mathlib.Core.Option.{Option, none, some, some-injective}
use mathlib.Core.Logic.{◌⊎◌, inl, inr}
use mathlib.Core.List.{List, [], ◌∷◌}
use native.Mathlib.Omega.{arith}
use text.Mathlib.Text.{◌==◌}
use text.Mathlib.TextEquality.{eq_iff}
use text.Mathlib.TextPositions.{eq_refl}
use fuzzy_chat.Prelude.Tests.{if◌then◌else◌, is_some, Bool-cases, Option-cases}
use fuzzy_chat.Prelude.Lists.{length, In}
use Entries.{
  at_key, erased, keeping, passing, Distinct, at_key-erased, erased-Distinct, at_key-keeping,
  keeping-Distinct, entry_lookup, lookup_entry, length-erased, erased-absent, lone_entry,
}

pub record Dict {ℓ} (V : Type ℓ) : Type ℓ where
  pairs : List (String × V)
  distinct : Distinct pairs

module _ {ℓ} {V : Type ℓ} where
  -- `HashMap::new`
  unfoldable pub empty : Dict V
  empty = record { pairs = []; distinct = tt }

  -- `map.iter()`
  unfoldable pub entries : Dict V → List (String × V)
  entries d = d.pairs

  -- `map.len()`, `map.iter().count()`
  unfoldable pub len : Dict V → ℕ
  len d = length d.pairs

  -- `map.get(k)`
  unfoldable pub get : Dict V → String → Option V
  unfolding at_key
  get d k = at_key k d.pairs

  -- `map.remove(k)`
  unfoldable pub remove : Dict V → String → Dict V
  unfolding erased
  remove d k = record { pairs = erased k d.pairs; distinct = erased-Distinct k d.pairs d.distinct }

  -- `map.insert(k, v)`
  unfoldable pub insert : Dict V → String → V → Dict V
  unfolding erased
  insert d k v = record {
    pairs = (k, v) ∷ erased k d.pairs;
    distinct = (erased-absent k d.pairs, erased-Distinct k d.pairs d.distinct);
  }

  -- `map.retain(p)`
  unfoldable pub retain : (String → V → Bool) → Dict V → Dict V
  unfolding keeping
  retain p d = record {
    pairs = keeping p d.pairs;
    distinct = keeping-Distinct p d.pairs d.distinct;
  }

  pub get-remove :
      (d : Dict V) (gone key : String)
      → get (remove d gone) key ≡ (if gone == key then none else get d key)
  unfolding get remove
  get-remove d gone key = at_key-erased gone key d.pairs

  pub get-insert :
      (d : Dict V) (k j : String) (v : V)
      → get (insert d k v) j ≡ (if k == j then some v else get d j)
  unfolding get insert
  get-insert d k j v = ground (arith, at_key-erased k j d.pairs)

  pub get-insert_self : (d : Dict V) (k : String) (v : V) → get (insert d k v) k ≡ some v
  get-insert_self d k v = rw (get-insert, eq_refl)

  -- What is found after an insertion is what was inserted, or was there.
  pub get-insert_cases :
      (d : Dict V) (k j : String) (v w : V)
      → get (insert d k v) j ≡ some w
      → ((k ≡ j) × (v ≡ w)) ⊎ (get d j ≡ some w)
  get-insert_cases d k j v w e = elim (Bool-cases (k == j)) [
    | inl hit ↦ inl ((eq_iff k j).0 hit, some-injective _ _ (ground (arith, get-insert d k j v)))
    | inr miss ↦ inr (ground (arith, get-insert d k j v))
  ]

  pub get_of_remove :
      (d : Dict V) (gone k : String) (v : V) → get (remove d gone) k ≡ some v → get d k ≡ some v
  get_of_remove d gone k v e = ground (arith, get-remove d gone k)

  pub get-remove_self : (d : Dict V) (k : String) → get (remove d k) k ≡ none
  get-remove_self d k = rw (get-remove, eq_refl)

  pub get-retain :
      (p : String → V → Bool) (d : Dict V) (k : String) → get (retain p d) k ≡ passing p k (get d k)
  unfolding get retain
  get-retain p d k = at_key-keeping p k d.pairs d.distinct

  pub get_of_retain :
      (p : String → V → Bool) (d : Dict V) (k : String) (v : V)
      → get (retain p d) k ≡ some v
      → get d k ≡ some v
  get_of_retain p d k v e = elim (Option-cases (get d k)) [
    | inl f ↦ ground (arith, get-retain p d k)
    | inr (w, f) ↦ ground (arith, get-retain p d k)
  ]

  pub get_of_entry : (d : Dict V) (k : String) (v : V) → In (k, v) (entries d) → get d k ≡ some v
  unfolding get entries
  get_of_entry d k v m = entry_lookup k v d.pairs d.distinct m

  pub entry_of_get : (d : Dict V) (k : String) (v : V) → get d k ≡ some v → In (k, v) (entries d)
  unfolding get entries
  entry_of_get d k v e = lookup_entry k v d.pairs e

  pub len-remove :
      (d : Dict V) (k : String) → len (remove d k) + (if is_some (get d k) then 1 else 0) ≡ len d
  unfolding len remove get
  len-remove d k = length-erased k d.pairs d.distinct

  pub len-insert :
      (d : Dict V) (k : String) (v : V)
      → len (insert d k v) + (if is_some (get d k) then 1 else 0) ≡ len d + 1
  unfolding len insert get
  len-insert d k v = omega (arith, length-erased k d.pairs d.distinct)

-- What holds of every entry.
abbrev pub Each {ℓ κ} : {V : Type ℓ} → (String → V → Type κ) → Dict V → Type (ℓ ⊔ κ)
Each {V = V} P d = (k : String) (v : V) → get d k ≡ some v → P k v

module _ {ℓ κ} {V : Type ℓ} (P : String → V → Type κ) (d : Dict V) where
  pub insert-Each : (k : String) (v : V) → P k v → Each P d → Each P (insert d k v)
  insert-Each k v p h j w e = elim (get-insert_cases d k j v w e) [
    | inl (a, b) ↦ subst (λ (u : V). P j u) b (subst (λ (i : String). P i v) a p)
    | inr f ↦ h j w f
  ]

  pub remove-Each : (gone : String) → Each P d → Each P (remove d gone)
  remove-Each gone h k v e = h k v (get_of_remove d gone k v e)

  pub retain-Each : (p : String → V → Bool) → Each P d → Each P (retain p d)
  retain-Each p h k v e = h k v (get_of_retain p d k v e)

pub len-Each {ℓ} : {V : Type ℓ} (d : Dict V) (a : String) → Each (λ k _. k ≡ a) d → len d ≤ 1
unfolding len get
len-Each d a h = lone_entry a d.pairs d.distinct h

pub get-empty {ℓ} : {V : Type ℓ} (k : String) → get (empty {V = V}) k ≡ none
unfolding get empty
get-empty k = refl

pub ruleset dict_laws = (get-empty, get-remove, get-insert, get-retain)
