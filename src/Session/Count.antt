-- ===== src/Session/Count.antt =====
-- How often a value stands in a list.
use mathlib.Core.List.{reverse, reverse-cons}
use navlink.Base.{
  ℕ, ◌+◌, ◌≡◌, refl, List, [], ◌∷◌, ◌++◌, arith, ap, Comparable, ◌==◌, if◌then◌else◌,
}

module _ {U : Type 0} ⦃e : Comparable U⦄ where
  abbrev pub one : U → U → ℕ
  one u v = if u == v then 1 else 0

  abbrev pub count : U → List U → ℕ
  count v [] = 0
  count v (u ∷ us) = one u v + count v us

  pub count-append : (v : U) (us vs : List U) → count v (us ++ vs) ≡ count v us + count v vs
  count-append v [] vs = omega arith
  count-append v (u ∷ us) vs = omega (arith, count-append v us vs)

  pub count-reverse : (v : U) (us : List U) → count v (reverse us) ≡ count v us
  count-reverse v [] = refl
  count-reverse v (u ∷ us) = omega (
    arith,
    ap (count v) (reverse-cons u us),
    count-append v (reverse us) (u ∷ []),
    count-reverse v us,
  )
