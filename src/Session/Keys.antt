-- ===== src/Session/Keys.antt =====
-- internal/session/fleet.go AGV.key: which vehicles share a key.
use navlink.Base.{◌≡◌, ap, sym, ◌∙◌, List, ◌∷◌}
use navlink.Base.Text.{GoString, split, join, Lacks, split-append, join-split}
use navlink.Session.{Agv, key}

heads-tails : (m n : GoString) (ps qs : List GoString) → m ∷ ps ≡ n ∷ qs → (m ≡ n) × (ps ≡ qs)
heads-tails m n ps qs e = (cc, cc)

-- Two vehicles whose manufacturers have no slash have one key only if they are the same vehicle.
pub key_injective :
    (a b : Agv) → Lacks b'/' a.manufacturer → Lacks b'/' b.manufacturer → key a ≡ key b → a ≡ b
key_injective a b ha hb e =
    let parts =
      sym (split-append b'/' a.manufacturer a.serial_number ha)
      ∙ ap (split b'/') e
      ∙ split-append b'/' b.manufacturer b.serial_number hb in
    let (same_m, rest) = heads-tails a.manufacturer b.manufacturer _ _ parts in
    let same_s =
      sym (join-split b'/' a.serial_number)
      ∙ ap (join b'/') rest
      ∙ join-split b'/' b.serial_number in
    λ i. record { manufacturer = same_m i; serial_number = same_s i }
