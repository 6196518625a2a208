-- ===== src/Prelude/Texts/Blanks.antt =====
-- White space at the end of a text.
use Prim.Native.Char.{Char}
use fuzzy_chat.Prelude.{List, [], ◌∷◌, ◌++◌, ◌≡◌, refl, true, arith, All, Bool-cases, inl, inr}
use fuzzy_chat.Prelude.Texts.{is_whitespace, trim, trim_start, trim_end}

abbrev pub IsBlank : List Char → Type 0
IsBlank cs = All (λ c. is_whitespace c ≡ true) cs

trim_start-blank : (cs : List Char) → IsBlank cs → trim_start cs ≡ []
unfolding trim_start
trim_start-blank [] b = refl
trim_start-blank (c ∷ cs) (b, bs) = ground (arith, b, trim_start-blank cs bs)

trim_end-blank : (cs : List Char) → IsBlank cs → trim_end cs ≡ []
unfolding trim_end
trim_end-blank [] b = refl
trim_end-blank (c ∷ cs) (b, bs) = ground (arith, b, trim_end-blank cs bs)

trim_end-append : (cs ending : List Char) → IsBlank ending → trim_end (cs ++ ending) ≡ trim_end cs
unfolding trim_end
trim_end-append [] ending b = trim_end-blank ending b
trim_end-append (c ∷ cs) ending b = rw (trim_end-append cs ending b)

-- What is blank at the end is trimmed.
pub trim-append : (cs ending : List Char) → IsBlank ending → trim (cs ++ ending) ≡ trim cs
unfolding trim trim_start
trim-append [] ending b = rw (trim_start-blank ending b)
trim-append (c ∷ cs) ending b = elim (Bool-cases (is_whitespace c)) [
  | inl white ↦ rw white (trim-append cs ending b)
  | inr black ↦ rw black (trim_end-append (c ∷ cs) ending b)
]
