-- ===== src/Database/Migrate/Discovered.antt =====
-- database/migrate.py: the versions of the migrations that `_discover` finds.
use node_monitor.Common.{
  ℕ, ◌<◌, String, ◌≡◌, refl, false, Option, none, List, [], ◌∷◌, ◌++◌, contains, nat_eq, ◌==◌,
  arith, Bool-cases, Option-cases, inl, inr, All, All-append, IsDistinct, ltb,
}
use node_monitor.Common.Dict.{keys, lookup}
use node_monitor.Database.Migrate.{
  Migration, Discovery, found, zero_version, shared_version, insert_sorted, sorted, claim,
  discover_one, discover_loop, discover,
}

-- The versions increase, from above a number.
unfoldable pub IsAbove : ℕ → List Migration → Type 0
IsAbove n [] = Unit
IsAbove n (m ∷ ms) = (n < m.0) × IsAbove m.0 ms

contains-insert :
    (n : ℕ) (m : Migration) (ms : List Migration)
    → contains n (keys (insert_sorted m ms)) ≡ contains n (keys (m ∷ ms))
unfolding insert_sorted
contains-insert n m [] = refl
contains-insert n m (k ∷ ms) = ground (arith, contains-insert n m ms)

contains-sorted :
    (n : ℕ) (ms : List Migration) → contains n (keys (sorted ms)) ≡ contains n (keys ms)
unfolding sorted
contains-sorted n [] = refl
contains-sorted n (m ∷ ms) = ground (arith, contains-insert n m (sorted ms), contains-sorted n ms)

insert-IsAbove :
    (n : ℕ) (m : Migration) (ms : List Migration)
    → n < m.0
    → contains m.0 (keys ms) ≡ false
    → IsAbove n ms
    → IsAbove n (insert_sorted m ms)
unfolding insert_sorted IsAbove
insert-IsAbove n m [] h new k = (h, tt)
insert-IsAbove n m (j ∷ ms) h new k = elim (Bool-cases (ltb m.0 j.0)) [
  | inl before ↦ rw before (h, (ground arith, k.1))
  | inr after ↦
      rw after (k.0, insert-IsAbove j.0 m ms (ground (arith, new)) (ground (arith, new)) k.1)
]

sorted-IsAbove :
    (ms : List Migration) → IsDistinct (keys ms) → All (λ m. 0 < m.0) ms → IsAbove 0 (sorted ms)
unfolding sorted IsAbove
sorted-IsAbove [] d h = tt
sorted-IsAbove (m ∷ ms) d h =
    insert-IsAbove 0 m (sorted ms) h.0 (ground (arith, contains-sorted m.0 ms, d.0))
      (sorted-IsAbove ms d.1 h.1)

contains-snoc :
    (n : ℕ) (ms : List Migration) (m : Migration)
    → contains n (keys ms) ≡ false
    → (m.0 == n) ≡ false
    → contains n (keys (ms ++ m ∷ [])) ≡ false
contains-snoc n [] m h new = ground (arith, new)
contains-snoc n (k ∷ ms) m h new = ground (arith, contains-snoc n ms m)

snoc-IsDistinct :
    (ms : List Migration) (m : Migration)
    → IsDistinct (keys ms)
    → lookup m.0 ms ≡ none
    → IsDistinct (keys (ms ++ m ∷ []))
unfolding lookup
snoc-IsDistinct [] m d h = (refl, tt)
snoc-IsDistinct (k ∷ ms) m d h = elim (Bool-cases (k.0 == m.0)) [
  | inl same ↦ absurd (ground (arith, same, h))
  | inr other ↦ (
    contains-snoc k.0 ms m d.0 (ground (arith, other)),
    snoc-IsDistinct ms m d.1 (ground (arith, other, h)),
  )
]

-- What a discovery must be: its migrations have distinct versions above 0, in order.
unfoldable pub IsOrdered : Discovery → Type 0
IsOrdered (found ms) = IsAbove 0 ms
IsOrdered (zero_version name) = Unit
IsOrdered (shared_version other name) = Unit

module _ (version_of : String → Option ℕ) where
  discover_loop-IsOrdered :
      (names : List String) (ms : List Migration)
      → IsDistinct (keys ms)
      → All (λ m. 0 < m.0) ms
      → IsOrdered (discover_loop version_of names ms)
  unfolding discover_loop discover_one claim IsOrdered
  discover_loop-IsOrdered [] ms d h = sorted-IsAbove ms d h
  discover_loop-IsOrdered (name ∷ names) ms d h = elim (Option-cases (version_of name)) [
    | inl e ↦ rw e (discover_loop-IsOrdered names ms d h)
    | inr (v, e) ↦ elim (Bool-cases (v == 0)) [
      | inl zero_v ↦ rw (e, zero_v) tt
      | inr positive ↦ elim (Option-cases (lookup v ms)) [
        | inr (other, shared) ↦ rw (e, positive, shared) tt
        | inl new ↦
            rw (e, positive, new)
              (discover_loop-IsOrdered names (ms ++ (v, name) ∷ [])
                (snoc-IsDistinct ms (v, name) d new)
                (All-append (λ m. 0 < m.0) ms ((v, name) ∷ []) h (ground (arith, positive), tt)))
      ]
    ]
  ]

  -- Whatever files there are, in whatever order they are listed: the migrations found have
  -- versions above 0, each once, in increasing order.
  pub discover-IsOrdered : (names : List String) → IsOrdered (discover version_of names)
  unfolding discover
  discover-IsOrdered names = discover_loop-IsOrdered names [] tt tt
