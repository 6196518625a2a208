-- ===== src/Prelude/Texts.antt =====
-- Rust's `str` as the list of its characters, with what `std` documents of it.
pub mod Laws
pub mod Blanks
use Prim.Native.Nat.{ℕ, zero, suc, ◌+◌, ◌/◌, ◌%◌}
use Prim.Native.Char.{Char, code}
use Prim.Native.String.{String}
use mathlib.Core.Path.{◌≡◌, refl, ap}
use mathlib.Core.Bool.{Bool, true, false, ◌&&◌, ◌||◌}
use mathlib.Core.Option.{Option, none, some, map as map_option}
use mathlib.Core.List.{List, [], ◌∷◌, ◌++◌}
use fuzzy_chat.Prelude.Tests.{ltb, leb, eqb, if◌then◌else◌}

-- `chars`
abbrev pub chars : String → List Char
chars String.[] = []
chars (String.◌∷◌ c s) = c ∷ chars s

-- `collect`
abbrev pub collect : List Char → String
collect [] = String.[]
collect (c ∷ cs) = String.◌∷◌ c (collect cs)

pub chars-collect : (cs : List Char) → chars (collect cs) ≡ cs
chars-collect [] = refl
chars-collect (c ∷ cs) = ap (λ t. c ∷ t) (chars-collect cs)

-- `as_bytes`: each character in UTF-8.
unfoldable pub encode_utf8 : ℕ → List ℕ
encode_utf8 n =
    if ltb n 128
    then n ∷ []
    else if ltb n 2048
    then (192 + n / 64) ∷ (128 + n % 64) ∷ []
    else if ltb n 65536
    then (224 + n / 4096) ∷ (128 + n / 64 % 64) ∷ (128 + n % 64) ∷ []
    else (240 + n / 262144) ∷ (128 + n / 4096 % 64) ∷ (128 + n / 64 % 64) ∷ (128 + n % 64) ∷ []

abbrev pub as_bytes : List Char → List ℕ
as_bytes [] = []
as_bytes (c ∷ cs) = encode_utf8 (code c) ++ as_bytes cs

between : ℕ → ℕ → ℕ → Bool
between a b n = leb a n && leb n b

-- Unicode's `White_Space`.
unfoldable pub is_whitespace : Char → Bool
unfolding between
is_whitespace c =
    let n = code c in
    between 9 13 n
    || eqb n 32
    || eqb n 133
    || eqb n 160
    || eqb n 5760
    || between 8192 8202 n
    || between 8232 8233 n
    || eqb n 8239
    || eqb n 8287
    || eqb n 12288

-- The words before which a character stands.
abbrev begin_word : Char → List Char → List (List Char) → List (List Char)
begin_word c [] words = (c ∷ []) ∷ words
begin_word c (d ∷ ds) [] = (c ∷ []) ∷ []
begin_word c (d ∷ ds) (word ∷ words) =
    if is_whitespace d then (c ∷ []) ∷ word ∷ words else (c ∷ word) ∷ words

unfoldable pub split_whitespace : List Char → List (List Char)
split_whitespace [] = []
split_whitespace (c ∷ cs) =
    let words = split_whitespace cs in if is_whitespace c then words else begin_word c cs words

unfoldable pub starts_with : List Char → List Char → Bool
starts_with [] text = true
starts_with (p ∷ ps) [] = false
starts_with (p ∷ ps) (c ∷ cs) = eqb (code p) (code c) && starts_with ps cs

-- `find`, by characters.
unfoldable pub find : List Char → List Char → Option ℕ
find pattern [] = if starts_with pattern [] then some 0 else none
find pattern (c ∷ cs) =
    let more = find pattern cs in
    if starts_with pattern (c ∷ cs) then some 0 else map_option suc more

abbrev pub drop : ℕ → List Char → List Char
drop zero cs = cs
drop (suc n) [] = []
drop (suc n) (c ∷ cs) = drop n cs

unfoldable pub trim_start : List Char → List Char
trim_start [] = []
trim_start (c ∷ cs) = let rest = trim_start cs in if is_whitespace c then rest else c ∷ cs

-- A white space is kept where something follows it.
abbrev end_with : Char → List Char → List Char
end_with c [] = if is_whitespace c then [] else c ∷ []
end_with c (d ∷ ds) = c ∷ d ∷ ds

unfoldable pub trim_end : List Char → List Char
trim_end [] = []
trim_end (c ∷ cs) = end_with c (trim_end cs)

unfoldable pub trim : List Char → List Char
unfolding trim_start trim_end
trim cs = trim_end (trim_start cs)
