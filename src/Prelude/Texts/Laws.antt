-- ===== src/Prelude/Texts/Laws.antt =====
-- The words of a text, and where they stand in it.
use Prim.Native.Nat.{ℕ, zero, suc, ◌+◌, ◌≤◌}
use Prim.Native.Char.{Char, code}
use Prim.Native.Nat.{◌+◌}
use mathlib.Core.Path.{◌≡◌, refl, ap, ◌∙◌}
use mathlib.Core.Logic.{◌⊎◌, inl, inr, ◌≢◌}
use mathlib.Core.Bool.{true, false, ◌&&◌}
use mathlib.Core.Option.{none, some, map as map_option}
use mathlib.Core.List.{List, [], ◌∷◌, ◌++◌}
use native.Mathlib.Omega.{arith}
use text.Mathlib.TextEquality.{Char-path}
use fuzzy_chat.Prelude.Tests.{eqb, is_some, Bool-cases, Option-cases}
use fuzzy_chat.Prelude.Lists.{length, In, there, In-cases, All}
use fuzzy_chat.Prelude.Texts.{
  is_whitespace, split_whitespace, starts_with, find, drop, trim, trim_start, trim_end,
}

-- A text that is one word.
abbrev pub IsWord : List Char → Type 0
IsWord cs = (cs ≢ []) × All (λ c. is_whitespace c ≡ false) cs

-- A word and a white space begin a text: it is the first word.
pub split_whitespace-cons :
    (c : Char) (word : List Char) (space : Char) (rest : List Char)
    → All (λ d. is_whitespace d ≡ false) (c ∷ word)
    → is_whitespace space ≡ true
    → split_whitespace ((c ∷ word) ++ space ∷ rest) ≡ (c ∷ word) ∷ split_whitespace rest
unfolding split_whitespace
split_whitespace-cons c [] space rest (h, _) s = elim (split_whitespace rest) [
  | [] ↦ ground (arith, h, s)
  | w ∷ ws ↦ ground (arith, h, s)
]
split_whitespace-cons c (d ∷ word) space rest (h, (g, k)) s =
    rw (h, split_whitespace-cons d word space rest (g, k) s, g)

same_char : (c d : Char) → eqb (code c) (code d) ≡ true → c ≡ d
same_char c d h = Char-path c d (ground (arith, h))

space_is_other :
    (c space : Char)
    → is_whitespace c ≡ false
    → is_whitespace space ≡ true
    → eqb (code c) (code space) ≡ false
space_is_other c space h s = elim (Bool-cases (eqb (code c) (code space))) [
  | inl e ↦ cc (h, s, ap is_whitespace (same_char c space e))
  | inr n ↦ n
]

pub List-cases {ℓ} :
    {A : Type ℓ} (xs : List A) → (xs ≡ []) ⊎ ((y : A) × (ys : List A) × (xs ≡ y ∷ ys))
List-cases [] = inl refl
List-cases (x ∷ xs) = inr (x, xs, refl)

starts_with-append : (word rest : List Char) → starts_with word (word ++ rest) ≡ true
unfolding starts_with
starts_with-append [] rest = refl
starts_with-append (c ∷ cs) rest = ground (arith, starts_with-append cs rest)

-- A word does not cross a white space.
starts_with-space :
    (word before : List Char) (space : Char) (after : List Char)
    → All (λ c. is_whitespace c ≡ false) word
    → is_whitespace space ≡ true
    → starts_with word (before ++ space ∷ after) ≡ starts_with word before
unfolding starts_with
starts_with-space [] before space after h s = refl
starts_with-space (c ∷ cs) [] space after (h, hs) s =
    ap (λ r. r && starts_with cs after) (space_is_other c space h s)
starts_with-space (c ∷ cs) (b ∷ bs) space after (h, hs) s =
    ap (λ r. eqb (code c) (code b) && r) (starts_with-space cs bs space after hs s)

pub find-space :
    (word before : List Char) (space : Char) (after : List Char)
    → IsWord word
    → is_whitespace space ≡ true
    → find word (before ++ space ∷ after) ≡ elim (find word before) [
      | none ↦ map_option (λ i. length before + 1 + i) (find word after)
      | some i ↦ some i
    ]
unfolding find starts_with
find-space [] before space after (e, _) s = absurd (e refl)
find-space (w ∷ ws) [] space after (e, h) s =
    let no : starts_with (w ∷ ws) (space ∷ after) ≡ false =
      starts_with-space (w ∷ ws) [] space after h s in
    elim (Option-cases (find (w ∷ ws) after)) [
      | inl g ↦ ground (arith, no, g)
      | inr (i, g) ↦ ground (arith, no, g)
    ]
find-space (w ∷ ws) (b ∷ bs) space after (e, h) s =
    let same = starts_with-space (w ∷ ws) (b ∷ bs) space after h s in
    let rest = find-space (w ∷ ws) bs space after (e, h) s in
    elim (Bool-cases (starts_with (w ∷ ws) (b ∷ bs))) [
      | inl hit ↦ ground (arith, same ∙ hit, hit)
      | inr miss ↦ elim (Option-cases (find (w ∷ ws) bs)) [
        | inr (i, g) ↦ ground (arith, same ∙ miss, miss, g, rest)
        | inl g ↦ elim (Option-cases (find (w ∷ ws) after)) [
          | inl f ↦ ground (arith, same ∙ miss, miss, g, rest, f)
          | inr (i, f) ↦ ground (arith, same ∙ miss, miss, g, rest, f)
        ]
      ]
    ]

pub find_word-here : (c : Char) (cs rest : List Char) → find (c ∷ cs) ((c ∷ cs) ++ rest) ≡ some 0
unfolding find
find_word-here c cs rest = ground (arith, starts_with-append (c ∷ cs) rest)

pub drop-append : (xs ys : List Char) → drop (length xs) (xs ++ ys) ≡ ys
drop-append [] ys = refl
drop-append (x ∷ xs) ys = drop-append xs ys

-- A text that does not begin with a white space begins with its first word, and the other words are
-- among those of the rest.
first_word :
    (d : Char) (ds : List Char)
    → is_whitespace d ≡ false
    → (word : List Char) × (words : List (List Char)) × (split_whitespace (d ∷ ds) ≡ word ∷ words)
      × (starts_with word (d ∷ ds) ≡ true)
      × ((w : List Char) → In w words → In w (split_whitespace ds))
unfolding split_whitespace starts_with
first_word d [] h = (d ∷ [], [], rw h, ground arith, λ w m. m)
first_word d (c ∷ cs) h = elim (Bool-cases (is_whitespace c)) [
  | inl s ↦ elim (List-cases (split_whitespace cs)) [
    | inl e ↦ (d ∷ [], [], ground (arith, h, s, e), ground arith, λ w m. elim m [ ])
    | inr (v, vs, e) ↦ (d ∷ [], v ∷ vs, ground (arith, h, s, e), ground arith, λ w m. rw (s, e) m)
  ]
  | inr n ↦
      let (word, words, e, f, g) = first_word c cs n in
      (d ∷ word, words, rw (h, e, n), ground (arith, f), λ w m. rw e (there m))
]

later :
    (word : List Char) (c : Char) (cs : List Char)
    → is_some (find word cs) ≡ true
    → is_some (find word (c ∷ cs)) ≡ true
unfolding find
later word c cs h = elim (Option-cases (find word cs)) [
  | inl e ↦ ground (arith, e, h)
  | inr (i, e) ↦ ground (arith, e)
]

-- Every word of a text is found in it.
pub find-word :
    (cs word : List Char) → In word (split_whitespace cs) → is_some (find word cs) ≡ true
unfolding find split_whitespace
find-word [] word m = elim m [ ]
find-word (c ∷ cs) word m = elim (Bool-cases (is_whitespace c)) [
  | inl s ↦ later word c cs (find-word cs word (rw s at m))
  | inr n ↦
      let (first, words, e, f, g) = first_word c cs n in
      elim (In-cases (rw e at m)) [
        | inl p ↦ ground (arith, p, f)
        | inr q ↦ later word c cs (find-word cs word (g word q))
      ]
]

trim_end_keeps : (c : Char) (cs : List Char) → In c cs → is_whitespace c ≡ false → trim_end cs ≢ []
unfolding trim_end
trim_end_keeps c [] m h e = elim m [ ]
trim_end_keeps c (d ∷ cs) m h e = elim (List-cases (trim_end cs)) [
  | inl f ↦ elim (In-cases m) [
    | inl p ↦ ground (arith, e, f, h, ap is_whitespace p)
    | inr n ↦ trim_end_keeps c cs n h f
  ]
  | inr (y, ys, f) ↦ ground (arith, e, f)
]

trim_start_keeps :
    (c : Char) (cs : List Char) → In c cs → is_whitespace c ≡ false → In c (trim_start cs)
unfolding trim_start
trim_start_keeps c [] m h = elim m [ ]
trim_start_keeps c (d ∷ cs) m h = elim (Bool-cases (is_whitespace d)) [
  | inl s ↦ elim (In-cases m) [ inl p ↦ cc (p, s, h) | inr n ↦ rw s (trim_start_keeps c cs n h) ]
  | inr n ↦ rw n m
]

-- A character that is no white space stays.
pub trim-ne-nil : (c : Char) (cs : List Char) → In c cs → is_whitespace c ≡ false → trim cs ≢ []
unfolding trim
trim-ne-nil c cs m h = trim_end_keeps c (trim_start cs) (trim_start_keeps c cs m h) h

starts_with-le : (word cs : List Char) → starts_with word cs ≡ true → length word ≤ length cs
unfolding starts_with
starts_with-le [] cs h = omega arith
starts_with-le (w ∷ ws) [] h = cc h
starts_with-le (w ∷ ws) (c ∷ cs) h = elim (Bool-cases (starts_with ws cs)) [
  | inl e ↦ omega (arith, starts_with-le ws cs e)
  | inr e ↦ ground (arith, e, h)
]

pub find-le : (word cs : List Char) (i : ℕ) → find word cs ≡ some i → i + length word ≤ length cs
unfolding find
find-le word [] i e = elim (Bool-cases (starts_with word [])) [
  | inl h ↦ ground (arith, h, e, starts_with-le word [] h)
  | inr h ↦ ground (arith, h, e)
]
find-le word (c ∷ cs) i e = elim (Bool-cases (starts_with word (c ∷ cs))) [
  | inl h ↦ ground (arith, h, e, starts_with-le word (c ∷ cs) h)
  | inr h ↦ elim (Option-cases (find word cs)) [
    | inl f ↦ ground (arith, h, e, f)
    | inr (j, f) ↦ ground (arith, h, e, f, find-le word cs j f)
  ]
]

pub drop-In :
    (c : Char) (n : ℕ) (xs ys : List Char) → n ≤ length xs → In c ys → In c (drop n (xs ++ ys))
drop-In c zero [] ys h m = m
drop-In c zero (x ∷ xs) ys h m = there (drop-In c zero xs ys (omega arith) m)
drop-In c (suc n) [] ys h m = elim h [ ]
drop-In c (suc n) (x ∷ xs) ys h m = drop-In c n xs ys (omega arith) m
