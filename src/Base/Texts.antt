-- ===== src/Base/Texts.antt =====
-- Texts: the equality test, membership, decimal numerals.
use Prim.Native.Nat.{ℕ, zero, suc, ◌/◌, ◌%◌}
use Prim.Native.String
use Prim.Native.String.{String}
use mathlib.Core.Bool.{Bool, false, ◌||◌}
use mathlib.Core.List.{List, [], ◌∷◌}
use text.Mathlib.Text.{◌==◌ as text_eq}
use monidhackson.Base.Tests.{ltb, get_or, if◌then◌else◌}
use monidhackson.Base.Lists.{get_elem?}
pub use text.Mathlib.Text.{◌==◌ as text_eq, starts_with}
pub use text.Mathlib.TextEquality.{eq_iff}
pub use text.Mathlib.TextPositions.{eq_refl}

abbrev pub includes : String → List String → Bool
includes s [] = false
includes s (t ∷ ts) = text_eq s t || includes s ts

abbrev pub concat : String → String → String
concat s t = String.◌++◌ s t

digit : ℕ → String
digit n = get_or (get_elem? ("0" ∷ "1" ∷ "2" ∷ "3" ∷ "4" ∷ "5" ∷ "6" ∷ "7" ∷ "8" ∷ "9" ∷ []) n) "9"

decimal_from : ℕ → ℕ → String → String
decimal_from zero n acc = acc
decimal_from (suc fuel) n acc =
    let longer = concat (digit (n % 10)) acc in
    let rest = decimal_from fuel (n / 10) longer in if ltb n 10 then longer else rest

-- A number inside a template literal.
unfoldable pub decimal : ℕ → String
unfolding decimal_from digit
decimal n = decimal_from (suc n) n ""
