-- ===== src/Controller/Redis/Keys.antt =====
-- The keys of the repositories differ.
use Prim.Native.Char.{Char, code}
use Prim.Native.String as Text
use fuzzy_chat.Prelude.{String, ◌≡◌, ◌≢◌, sym, ap, ◌∙◌, ◌==◌, eq_iff, false, arith, eqb}
use text.Mathlib.TextLemmas.{cons-append, head-eq_of_cons-eq, append_cancel_left}

pub not-eq : (k j : String) → k ≢ j → (k == j) ≡ false
not-eq k j h = ground (arith, h, eq_iff k j)

-- Texts that begin with different characters.
pub begins_ne :
    (c d : Char) (p q x y : String)
    → eqb (code c) (code d) ≡ false
    → (Text.◌++◌ (String.◌∷◌ c p) x == Text.◌++◌ (String.◌∷◌ d q) y) ≡ false
begins_ne c d p q x y h = not-eq _ _ λ e.
    let same : c ≡ d = head-eq_of_cons-eq (sym (cons-append c p x) ∙ e ∙ cons-append d q y) in
    ground (arith, h, ap code same)

-- Keys of one kind.
pub same_kind :
    (kind x y : String)
    → x ≢ y
    → (Text.◌++◌ kind (Text.◌++◌ ":" x) == Text.◌++◌ kind (Text.◌++◌ ":" y)) ≡ false
same_kind kind x y h =
    not-eq _ _ λ e. h (append_cancel_left ":" x y (append_cancel_left kind _ _ e))
