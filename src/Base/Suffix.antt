-- ===== src/Base/Suffix.antt =====
-- strings.HasSuffix.
use navlink.Base.Tests.{◌==◌}
use navlink.Base.Text.{GoString, string_eq, str_beq, Lacks}
use Prim.Native.Nat.{ℕ}
use mathlib.Core.Path.{◌≡◌, refl}
use mathlib.Core.Bool.{Bool, false, ◌||◌}
use mathlib.Core.List.{[], ◌∷◌, ◌++◌}
use native.Mathlib.Omega.{arith}

-- The string is the suffix, or what follows its first character ends with it.
pub has_suffix : GoString → GoString → Bool
has_suffix [] suffix = [] == suffix
has_suffix (c ∷ s) suffix = let rest = has_suffix s suffix in c ∷ s == suffix || rest

suffix_of_Lacks : (sep : ℕ) (s v : GoString) → Lacks sep s → has_suffix s (sep ∷ v) ≡ false
unfolding has_suffix str_beq
suffix_of_Lacks sep [] v h = refl
suffix_of_Lacks sep (c ∷ s) v (n, h) = ground (arith, suffix_of_Lacks sep s v h)

beq-ne : (sep : ℕ) (s v ch : GoString) → Lacks sep v → str_beq (s ++ sep ∷ ch) v ≡ false
unfolding str_beq
beq-ne sep [] [] ch h = refl
beq-ne sep [] (d ∷ v) ch (n, h) = ground arith
beq-ne sep (c ∷ s) [] ch h = refl
beq-ne sep (c ∷ s) (d ∷ v) ch (n, h) = ground (arith, beq-ne sep s v ch h)

-- What follows the last separator decides.
pub has_suffix-segment :
    (sep : ℕ) (s v ch : GoString)
    → Lacks sep v
    → Lacks sep ch
    → has_suffix (s ++ sep ∷ ch) (sep ∷ v) ≡ str_beq ch v
unfolding has_suffix str_beq
has_suffix-segment sep [] v ch lv lch = ground (arith, suffix_of_Lacks sep ch v lch)
has_suffix-segment sep (c ∷ s) v ch lv lch =
    ground (arith, beq-ne sep s v ch lv, has_suffix-segment sep s v ch lv lch)
