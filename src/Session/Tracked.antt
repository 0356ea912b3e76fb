-- ===== src/Session/Tracked.antt =====
-- internal/session/fleet.go: the map of tracked vehicles, and the handles that it holds.
use navlink.Base.{
  ℕ, ◌+◌, ◌≡◌, refl, ◌⊎◌, inl, inr, false, map, none, some, List, [], ◌∷◌, arith, Comparable,
  Bool-cases,
}
use navlink.Base.Lists.{All}
use navlink.Base.Text.{GoString, string_eq, str_beq, str_beq_iff}
use navlink.Base.Dict.{lookup, insert, delete, lookup-delete, lookup-insert}
use navlink.Session.Count.{count}
use navlink.Session.{key, TrackedAgv}

-- A key among those listed.
abbrev KeyIn : GoString → List GoString → Type 0
KeyIn k [] = ⊥
KeyIn k (j ∷ ks) = (k ≡ j) ⊎ KeyIn k ks

module _ {U : Type 0} where
  -- A Go map with each vehicle under its own key, and each key once.
  abbrev pub Keyed : List (GoString × TrackedAgv U) → Type 0
  Keyed [] = Unit
  Keyed ((k, t) ∷ m) = (k ≡ key t.agv) × (lookup k m ≡ none) × Keyed m

  lookup-none_of_delete :
      (k j : GoString) (m : List (GoString × TrackedAgv U))
      → lookup j m ≡ none
      → lookup j (delete k m) ≡ none
  lookup-none_of_delete k j m h = ground (arith, lookup-delete k j m)

  pub delete-Keyed :
      (k : GoString) (m : List (GoString × TrackedAgv U)) → Keyed m → Keyed (delete k m)
  unfolding delete
  delete-Keyed k [] h = tt
  delete-Keyed k ((j, t) ∷ m) (same, fresh, h) =
      ground (arith, delete-Keyed k m h, lookup-none_of_delete k j m fresh)

  lookup-none_of_insert :
      (k j : GoString) (t : TrackedAgv U) (m : List (GoString × TrackedAgv U))
      → str_beq k j ≡ false
      → lookup j m ≡ none
      → lookup j (insert k t m) ≡ none
  lookup-none_of_insert k j t m n h = ground (arith, lookup-insert k j t m)

  -- An entry for a vehicle that has none.
  pub insert-Keyed :
      (t : TrackedAgv U) (m : List (GoString × TrackedAgv U))
      → lookup (key t.agv) m ≡ none
      → Keyed m
      → Keyed (insert (key t.agv) t m)
  unfolding insert lookup
  insert-Keyed t [] fresh h = (refl, refl, tt)
  insert-Keyed t ((j, u) ∷ m) fresh (same, new, h) = elim (Bool-cases (str_beq j (key t.agv))) [
    | inl e ↦ ground arith
    | inr n ↦ rw n (
      same,
      lookup-none_of_insert (key t.agv) j t m
          (ground (arith, str_beq_iff j (key t.agv), str_beq_iff (key t.agv) j)) new,
      insert-Keyed t m (ground arith) h,
    )
  ]

  pub delete_of_none :
      (k : GoString) (m : List (GoString × TrackedAgv U)) → lookup k m ≡ none → delete k m ≡ m
  unfolding lookup delete
  delete_of_none k [] h = refl
  delete_of_none k ((j, t) ∷ m) h = ground (arith, delete_of_none k m)

  abbrev Within : List GoString → List (GoString × TrackedAgv U) → Type 0
  Within ks m = All (λ (entry : GoString × TrackedAgv U). KeyIn entry.0 ks) m

  Within-delete :
      (k : GoString) (ks : List GoString) (m : List (GoString × TrackedAgv U))
      → Within (k ∷ ks) m
      → Within ks (delete k m)
  unfolding delete
  Within-delete k ks [] h = tt
  Within-delete k ks ((j, t) ∷ m) (here, h) =
      ground (arith, Within-delete k ks m h, str_beq_iff j k)

  Within-cons :
      (k : GoString) (ks : List GoString) (m : List (GoString × TrackedAgv U))
      → Within ks m
      → Within (k ∷ ks) m
  Within-cons k ks [] h = tt
  Within-cons k ks (x ∷ m) (here, h) = (inr here, Within-cons k ks m h)

  -- The keys of the vehicles of the entries, as Stop lists them.
  abbrev pub agv_keys : List (GoString × TrackedAgv U) → List GoString
  agv_keys m = map key (map (λ entry. entry.1.agv) m)

  Within-agv_keys : (m : List (GoString × TrackedAgv U)) → Keyed m → Within (agv_keys m) m
  Within-agv_keys [] h = tt
  Within-agv_keys ((k, t) ∷ m) (same, _, h) =
      (inl same, Within-cons (key t.agv) (agv_keys m) m (Within-agv_keys m h))

  unfoldable pub delete_all :
      List GoString → List (GoString × TrackedAgv U) → List (GoString × TrackedAgv U)
  delete_all [] m = m
  delete_all (k ∷ ks) m = delete_all ks (delete k m)

  delete_all_of_Within :
      (ks : List GoString) (m : List (GoString × TrackedAgv U)) → Within ks m → delete_all ks m ≡ []
  unfolding delete_all
  delete_all_of_Within [] [] h = refl
  delete_all_of_Within [] (x ∷ m) h = absurd h.0
  delete_all_of_Within (k ∷ ks) m h = delete_all_of_Within ks (delete k m) (Within-delete k ks m h)

  -- Deleting the vehicle of every entry empties the map.
  pub delete_all-agv_keys :
      (m : List (GoString × TrackedAgv U)) → Keyed m → delete_all (agv_keys m) m ≡ []
  delete_all-agv_keys m h = delete_all_of_Within (agv_keys m) m (Within-agv_keys m h)

module _ {U : Type 0} ⦃e : Comparable U⦄ where
  -- How often a handle is held for a vehicle.
  abbrev pub held : U → List (GoString × TrackedAgv U) → ℕ
  held v [] = 0
  held v ((_, t) ∷ m) = count v t.unsubs + held v m

  pub held-insert :
      (v : U) (k : GoString) (t : TrackedAgv U) (m : List (GoString × TrackedAgv U))
      → lookup k m ≡ none
      → held v (insert k t m) ≡ held v m + count v t.unsubs
  unfolding lookup insert
  held-insert v k t [] h = omega arith
  held-insert v k t ((j, u) ∷ m) h = ground (arith, held-insert v k t m)

  pub held-delete :
      (v : U) (k : GoString) (t : TrackedAgv U) (m : List (GoString × TrackedAgv U))
      → Keyed m
      → lookup k m ≡ some t
      → held v (delete k m) + count v t.unsubs ≡ held v m
  unfolding lookup delete
  held-delete v k t [] h e = cc
  held-delete v k t ((j, u) ∷ m) (same, fresh, h) e = elim (Bool-cases (str_beq j k)) [
    | inl hit ↦ ground (arith, str_beq_iff j k, delete_of_none k m)
    | inr miss ↦ ground (arith, held-delete v k t m h)
  ]
