-- ===== src/Prelude/Dict/Entries.antt =====
-- Lists of entries with distinct keys: the representation of `Dict`.
use Prim.Native.Nat.{◌+◌, ◌≤◌}
use Prim.Native.String.{String}
use mathlib.Core.Path.{◌≡◌, refl}
use mathlib.Core.Logic.{inl, inr}
use mathlib.Core.Bool.{Bool}
use mathlib.Core.Option.{Option, none, some}
use mathlib.Core.List.{List, [], ◌∷◌}
use native.Mathlib.Omega.{arith}
use text.Mathlib.Text.{◌==◌}
use text.Mathlib.TextEquality.{eq_iff}
use text.Mathlib.TextPositions.{eq_refl}
use fuzzy_chat.Prelude.Tests.{if◌then◌else◌, is_some, Bool-cases}
use fuzzy_chat.Prelude.Lists.{length, In, here, there}

module _ {ℓ} {V : Type ℓ} where
  unfoldable pub at_key : String → List (String × V) → Option V
  at_key k [] = none
  at_key k ((j, v) ∷ l) = if j == k then some v else at_key k l

  unfoldable pub erased : String → List (String × V) → List (String × V)
  erased k [] = []
  erased k ((j, v) ∷ l) = let rest = erased k l in if j == k then rest else (j, v) ∷ rest

  -- Keeps the entries that pass the test.
  unfoldable pub keeping : (String → V → Bool) → List (String × V) → List (String × V)
  keeping p [] = []
  keeping p ((j, v) ∷ l) = let rest = keeping p l in if p j v then (j, v) ∷ rest else rest

  abbrev pub Distinct : List (String × V) → Type ℓ
  Distinct [] = Unit
  Distinct ((k, v) ∷ l) = (at_key k l ≡ none) × Distinct l

  pub at_key-erased :
      (k j : String) (l : List (String × V))
      → at_key j (erased k l) ≡ (if k == j then none else at_key j l)
  unfolding at_key erased
  at_key-erased k j [] = ground arith
  at_key-erased k j ((i, v) ∷ l) =
      ground (arith, at_key-erased k j l, eq_iff i k, eq_iff i j, eq_iff k j)

  pub erased-absent : (k : String) (l : List (String × V)) → at_key k (erased k l) ≡ none
  erased-absent k l = rw (at_key-erased, eq_refl)

  pub erased-Distinct : (k : String) (l : List (String × V)) → Distinct l → Distinct (erased k l)
  unfolding erased
  erased-Distinct k [] d = tt
  erased-Distinct k ((i, v) ∷ l) d = ground (arith, erased-Distinct k l d.1, at_key-erased k i l)

  abbrev pub passing : (String → V → Bool) → String → Option V → Option V
  passing p k none = none
  passing p k (some v) = if p k v then some v else none

  pub at_key-keeping :
      (p : String → V → Bool) (k : String) (l : List (String × V))
      → Distinct l
      → at_key k (keeping p l) ≡ passing p k (at_key k l)
  unfolding at_key keeping
  at_key-keeping p k [] d = refl
  at_key-keeping p k ((i, v) ∷ l) d =
      ground (arith, at_key-keeping p k l d.1, eq_iff i k, at_key-keeping p i l d.1)

  pub keeping-Distinct :
      (p : String → V → Bool) (l : List (String × V)) → Distinct l → Distinct (keeping p l)
  unfolding keeping
  keeping-Distinct p [] d = tt
  keeping-Distinct p ((i, v) ∷ l) d =
      ground (arith, keeping-Distinct p l d.1, at_key-keeping p i l d.1)

  pub entry_lookup :
      (k : String) (v : V) (l : List (String × V)) → Distinct l → In (k, v) l → at_key k l ≡ some v
  unfolding at_key
  entry_lookup k v [] d m = elim m [ ]
  entry_lookup k v ((i, w) ∷ l) d (here e) = ground (arith, eq_iff i k)
  entry_lookup k v ((i, w) ∷ l) d (there m) = ground (arith, eq_iff i k, entry_lookup k v l d.1 m)

  pub lookup_entry :
      (k : String) (v : V) (l : List (String × V)) → at_key k l ≡ some v → In (k, v) l
  unfolding at_key
  lookup_entry k v [] e = cc
  lookup_entry k v ((i, w) ∷ l) e = elim (Bool-cases (i == k)) [
    | inl hit ↦ here (ground (arith, eq_iff i k))
    | inr miss ↦ there (lookup_entry k v l (rw miss at e))
  ]

  pub length-erased :
      (k : String) (l : List (String × V))
      → Distinct l
      → length (erased k l) + (if is_some (at_key k l) then 1 else 0) ≡ length l
  unfolding at_key erased
  length-erased k [] d = omega arith
  length-erased k ((i, w) ∷ l) d = ground (arith, length-erased k l d.1, eq_iff i k)

  -- Where there is one key at most, there is one entry at most.
  pub lone_entry :
      (a : String) (l : List (String × V))
      → Distinct l
      → ((k : String) (v : V) → at_key k l ≡ some v → k ≡ a)
      → length l ≤ 1
  unfolding at_key
  lone_entry a [] d h = omega arith
  lone_entry a (x ∷ []) d h = omega arith
  lone_entry a ((i, v) ∷ (j, w) ∷ l) d h =
      let p = h i v (ground (arith, eq_refl i)) in
      let q : j ≡ a = elim (Bool-cases (i == j)) [
        | inl same ↦ h j v (ground (arith, same))
        | inr other ↦ h j w (ground (arith, other, eq_refl j))
      ] in
      ground (arith, d.0, p, q, eq_refl a)
