-- ===== src/Mqtt/Coalesce/Drain.antt =====
-- internal/mqtt/dispatch.go: the inner loop of the connection worker ends.
use navlink.Base.{
  ℕ, suc, ◌≤◌, ◌≡◌, refl, ap, true, false, some, sym, subst, if◌then◌else◌, ◌⊎◌, inl, inr, zero,
  List, [], ◌∷◌, arith, nat_eq,
}
use navlink.Base.Lists.{length}
use navlink.Base.Text.{GoString, string_eq, str_beq_iff}
use navlink.Base.Dict.{lookup, delete}
use navlink.Mqtt.Coalesce.{Coalescer, take_found, take_from, take, first_key, drain}

module _ {M : Type 0} where
  length-delete : (key : GoString) (m : List (GoString × M)) → length (delete key m) ≤ length m
  unfolding delete
  length-delete key [] = omega arith
  length-delete key ((j, _) ∷ m) = ground (arith, length-delete key m)

  -- The loop has ended and nothing is stored.
  abbrev pub IsIdle : Coalescer M → Type 0
  IsIdle c = (c.latest ≡ []) × (c.draining ≡ false)

  drain-IsIdle : (n : ℕ) (c : Coalescer M) → IsIdle c → IsIdle (drain n c)
  unfolding drain take
  drain-IsIdle zero c h = h
  drain-IsIdle (suc n) c h = drain-IsIdle n (take c (first_key c.latest)) (ground arith)

  -- One round of the loop ends it, or takes an entry out.
  abbrev Proceeds : ℕ → Coalescer M → Type 0
  Proceeds n c = IsIdle c ⊎ ((c.draining ≡ true) × (length c.latest ≤ n))

  lookup-head :
      (key : GoString) (msg : M) (m : List (GoString × M)) → lookup key ((key, msg) ∷ m) ≡ some msg
  unfolding lookup
  lookup-head key msg m = ground (arith, str_beq_iff key key)

  length-delete_head :
      (key : GoString) (msg : M) (m : List (GoString × M))
      → length (delete key ((key, msg) ∷ m)) ≤ length m
  unfolding delete
  length-delete_head key msg m = ground (arith, str_beq_iff key key, length-delete key m)

  take_from-Proceeds :
      (n : ℕ) (c : Coalescer M) (latest : List (GoString × M))
      → c.latest ≡ latest
      → c.draining ≡ true
      → length latest ≤ suc n
      → Proceeds n (take_from c latest (first_key latest))
  unfolding take_from take_found
  take_from-Proceeds n c [] e d h = inl (e, refl)
  take_from-Proceeds n c ((key, msg) ∷ m) e d h =
      rw (e, lookup-head key msg m) (inr (d, omega (arith, length-delete_head key msg m)))

  take_from-IsIdle :
      (c : Coalescer M) (latest : List (GoString × M)) (key : GoString)
      → c.latest ≡ latest
      → length latest ≤ 0
      → IsIdle (take_from c latest key)
  unfolding take_from
  take_from-IsIdle c [] key e h = (e, refl)
  take_from-IsIdle c (_ ∷ _) key e h = absurd (omega arith)

  take-draining :
      (c : Coalescer M) (key : GoString) → c.draining ≡ true → take_from c c.latest key ≡ take c key
  unfolding take
  take-draining c key d = ap (λ b. if b then take_from c c.latest key else c) (sym d)

  -- Once the connection worker is in its inner loop, at most n messages are stored and no further
  -- message comes in, the loop ends with nothing stored after n + 1 rounds.
  pub drain-ends :
      (n : ℕ) (c : Coalescer M) → c.draining ≡ true → length c.latest ≤ n → IsIdle (drain (suc n) c)
  unfolding drain
  drain-ends zero c d h =
      subst IsIdle (take-draining c (first_key c.latest) d)
        (take_from-IsIdle c c.latest (first_key c.latest) refl h)
  drain-ends (suc n) c d h =
      subst (λ c. IsIdle (drain (suc n) c)) (take-draining c (first_key c.latest) d)
        (elim (take_from-Proceeds n c c.latest refl d h) [
          | inl idle ↦ drain-IsIdle (suc n) _ idle
          | inr (up, less) ↦ drain-ends n _ up less
        ])
