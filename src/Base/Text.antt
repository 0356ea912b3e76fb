-- ===== src/Base/Text.antt =====
-- Go strings as the lists of their code points (a valid UTF-8 string is determined by them), with
-- what the code uses of package strings: ==, Split on one character, TrimSpace.
use Prim.Native.Nat.{ℕ, zero, suc, ◌+◌, ◌/◌, ◌%◌}
use Prim.Native.Char.{code}
use Prim.Native.String.{String}
use mathlib.Core.Path.{◌≡◌, refl}
use mathlib.Core.Logic.{◌↔◌, ◌≢◌, inl, inr}
use mathlib.Core.Bool.{Bool, true, false, ◌&&◌, ◌||◌}
use mathlib.Core.List.{List, [], ◌∷◌, ◌++◌, reverse}
use native.Mathlib.Omega.{arith}
use navlink.Base.Tests.{
  nat_beq, leb, if◌then◌else◌, Comparable, nat_eq, ◌==◌, Bool-cases, nat_beq_iff,
}
use navlink.Base.Lists.{All}

abbrev pub GoString : Type 0
GoString = List ℕ

-- A Go string literal.
abbrev pub text : String → GoString
text String.[] = []
text (String.◌∷◌ c s) = code c ∷ text s

unfoldable pub str_beq : GoString → GoString → Bool
str_beq [] [] = true
str_beq [] (_ ∷ _) = false
str_beq (_ ∷ _) [] = false
str_beq (a ∷ s) (b ∷ t) = nat_beq a b && str_beq s t

pub str_beq_iff : (s t : GoString) → (str_beq s t ≡ true) ↔ (s ≡ t)
unfolding str_beq
str_beq_iff [] [] = ground arith
str_beq_iff [] (b ∷ t) = ground arith
str_beq_iff (a ∷ s) [] = ground arith
str_beq_iff (a ∷ s) (b ∷ t) = ground (arith, str_beq_iff s t)

instance abbrev pub string_eq : Comparable GoString
string_eq = record { equal = str_beq; equal_iff = str_beq_iff }

-- strings.Split for a separator of one character.
prepend : ℕ → List GoString → List GoString
prepend c [] = (c ∷ []) ∷ []
prepend c (p ∷ ps) = (c ∷ p) ∷ ps

unfoldable pub split : ℕ → GoString → List GoString
unfolding prepend
split sep [] = [] ∷ []
split sep (c ∷ s) = let rest = split sep s in if c == sep then [] ∷ rest else prepend c rest

-- The inverse of `split`.
unfoldable pub join : ℕ → List GoString → GoString
join sep [] = []
join sep (p ∷ []) = p
join sep (p ∷ q ∷ ps) = p ++ sep ∷ join sep (q ∷ ps)

abbrev pub Lacks : ℕ → GoString → Type 0
Lacks sep = All (λ c. c ≢ sep)

pub split-ne-nil : (sep : ℕ) (s : GoString) → split sep s ≢ []
unfolding split
split-ne-nil sep [] = cc
split-ne-nil sep (c ∷ s) = ground (arith, split-ne-nil sep s)

-- A piece without the separator is the first piece of what it begins.
pub split-append :
    (sep : ℕ) (p rest : GoString) → Lacks sep p → split sep (p ++ sep ∷ rest) ≡ p ∷ split sep rest
unfolding split
split-append sep [] rest h = ground arith
split-append sep (c ∷ p) rest (n, h) = ground (arith, split-append sep p rest h)

pub split_single : (sep : ℕ) (p : GoString) → Lacks sep p → split sep p ≡ p ∷ []
unfolding split
split_single sep [] h = refl
split_single sep (c ∷ p) (n, h) = ground (arith, split_single sep p h)

join-prepend :
    (sep c : ℕ) (ps : List GoString) → ps ≢ [] → join sep (prepend c ps) ≡ c ∷ join sep ps
unfolding join prepend
join-prepend sep c [] h = absurd (h refl)
join-prepend sep c (p ∷ []) h = refl
join-prepend sep c (p ∷ q ∷ ps) h = refl

join-nil : (sep : ℕ) (ps : List GoString) → ps ≢ [] → join sep ([] ∷ ps) ≡ sep ∷ join sep ps
unfolding join
join-nil sep [] h = absurd (h refl)
join-nil sep (p ∷ ps) h = refl

pub join-split : (sep : ℕ) (s : GoString) → join sep (split sep s) ≡ s
unfolding split
join-split sep [] = unfold join in refl
join-split sep (c ∷ s) = ground (
  arith,
  join-split sep s,
  join-nil sep (split sep s) (split-ne-nil sep s),
  join-prepend sep c (split sep s) (split-ne-nil sep s),
)

prepend-Lacks :
    (sep c : ℕ) (ps : List GoString) → c ≢ sep → All (Lacks sep) ps → All (Lacks sep) (prepend c ps)
unfolding prepend
prepend-Lacks sep c [] n h = ((n, tt), tt)
prepend-Lacks sep c (p ∷ ps) n (g, h) = ((n, g), h)

-- Every piece lacks the separator.
pub split-Lacks : (sep : ℕ) (s : GoString) → All (Lacks sep) (split sep s)
unfolding split
split-Lacks sep [] = (tt, tt)
split-Lacks sep (c ∷ s) = elim (Bool-cases (c == sep)) [
  | inl same ↦ rw same (tt, split-Lacks sep s)
  | inr other ↦ rw other (
      prepend-Lacks sep c (split sep s) (λ e. ground (arith, nat_beq_iff c sep))
        (split-Lacks sep s))
]

-- unicode.IsSpace
is_space : ℕ → Bool
is_space c =
    (leb 9 c && leb c 13)
    || c == 32
    || c == 0x85
    || c == 0xa0
    || c == 0x1680
    || (leb 0x2000 c && leb c 0x200a)
    || c == 0x2028
    || c == 0x2029
    || c == 0x202f
    || c == 0x205f
    || c == 0x3000

trim_left : GoString → GoString
trim_left [] = []
trim_left (c ∷ s) = let rest = trim_left s in if is_space c then rest else c ∷ s

trim_space : GoString → GoString
unfolding trim_left is_space
trim_space s = reverse (trim_left (reverse (trim_left s)))

-- strings.TrimSpace(s) == ""
unfoldable pub is_blank : GoString → Bool
unfolding trim_space str_beq
is_blank s = trim_space s == []

itoa_from : ℕ → ℕ → GoString → GoString
itoa_from zero n acc = acc
itoa_from (suc fuel) n acc =
    let more = itoa_from fuel (n / 10) ((b'0' + n % 10) ∷ acc) in
    if leb 10 n then more else (b'0' + n) ∷ acc

-- strconv.Itoa of a number that is not negative; it has fewer digits than `n + 1`.
pub itoa : ℕ → GoString
unfolding itoa_from
itoa n = itoa_from (suc n) n []

itoa_test : itoa 2048 ≡ text "2048"
unfolding itoa
itoa_test = refl
