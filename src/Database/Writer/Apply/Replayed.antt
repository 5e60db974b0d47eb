-- ===== src/Database/Writer/Apply/Replayed.antt =====
-- database/writer.py: snapshots that are written again, as after a lost acknowledgement.
use node_monitor.Common.{
  ℕ, ◌≤◌, ◌<◌, ◌≡◌, refl, sym, ap, ◌∙◌, ◌⊎◌, inl, inr, Option, none, some, List, [], ◌∷◌, ◌==◌, Eq,
  text_eq, pair_eq, leb, keep, All, arith, Bool-cases, leb→le,
}
use node_monitor.Common.Dict.{lookup, lookup-put}
use node_monitor.Database.Writer.Apply.{
  NodeKey, Snapshot, Store, stored_of, newer_snapshot, write_snapshot, write_snapshots,
}

-- What is stored is not replaced by what is older.
unfoldable pub IsForward :
    {Proc : Type 0} → Option (ℕ × List Proc) → Option (ℕ × List Proc) → Type 0
IsForward none o = Unit
IsForward (some x) none = ⊥
IsForward (some x) (some y) = x.0 ≤ y.0

module _ {Proc K : Type 0} ⦃k : Eq K⦄ (proc_key : Proc → K) where
  abbrev Stored : Type 0
  Stored = ℕ × List Proc

  -- What is stored for a node after some of its snapshots.
  unfoldable pub after : Option Stored → List (Snapshot Proc) → Option Stored
  after o [] = o
  after o (s ∷ more) = after (some (newer_snapshot proc_key o s)) more

  unfoldable pub snapshots_of : NodeKey → List (Snapshot Proc) → List (Snapshot Proc)
  snapshots_of key snapshots = keep (λ s. s.key == key) snapshots

  abbrev written : Snapshot Proc → Store Proc → Stored
  written s store = newer_snapshot proc_key (lookup s.key store.snapshots) s

  lookup-write_snapshots :
      (key : NodeKey) (snapshots : List (Snapshot Proc)) (store : Store Proc)
      → lookup key (write_snapshots proc_key snapshots store).snapshots
        ≡ after (lookup key store.snapshots) (snapshots_of key snapshots)
  unfolding write_snapshots write_snapshot after snapshots_of
  lookup-write_snapshots key [] store = refl
  lookup-write_snapshots key (s ∷ more) store = elim (Bool-cases (s.key == key)) [
    | inl same ↦
        lookup-write_snapshots key more (write_snapshot proc_key s store)
        ∙ rw (lookup-put s.key key (written s store) store.snapshots, same)
            (ap
              (λ i.
                after (some (newer_snapshot proc_key (lookup i store.snapshots) s))
                  (snapshots_of key more))
              ((pair_eq.equals_iff s.key key).0 same))
    | inr other ↦
        lookup-write_snapshots key more (write_snapshot proc_key s store)
        ∙ rw (lookup-put s.key key (written s store) store.snapshots, other) refl
  ]

  -- All are older.
  abbrev IsBelow : Stored → List (Snapshot Proc) → Type 0
  IsBelow r snapshots = All (λ s. s.ts < r.0) snapshots

  -- The newest, the last of those, is what is stored.
  EndsIn : Stored → List (Snapshot Proc) → Type 0
  EndsIn r [] = ⊥
  EndsIn r (s ∷ more) =
      (EndsIn r more × (s.ts ≤ r.0)) ⊎ ((stored_of proc_key s ≡ r) × IsBelow r more)

  newer_lem :
      (x : Stored) (s : Snapshot Proc)
      → ((x.0 ≤ s.ts) × (newer_snapshot proc_key (some x) s ≡ stored_of proc_key s))
        ⊎ ((s.ts < x.0) × (newer_snapshot proc_key (some x) s ≡ x))
  unfolding newer_snapshot
  newer_lem x s = elim (Bool-cases (leb x.0 s.ts)) [
    | inl newer ↦ rw newer (inl (leb→le x.0 s.ts newer, refl))
    | inr older ↦ rw older (inr (ground arith, refl))
  ]

  below_lem :
      (r : Stored) (snapshots : List (Snapshot Proc))
      → IsBelow r snapshots
      → after (some r) snapshots ≡ some r
  unfolding after
  below_lem r [] h = refl
  below_lem r (s ∷ more) h = elim (newer_lem r s) [
    | inl (newer, e) ↦ absurd (omega (arith, h.0))
    | inr (older, e) ↦ rw e (below_lem r more h.1)
  ]

  ends_lem :
      (r x : Stored) (snapshots : List (Snapshot Proc))
      → EndsIn r snapshots
      → x.0 ≤ r.0
      → after (some x) snapshots ≡ some r
  unfolding after EndsIn stored_of
  ends_lem r x [] h below = absurd h
  ends_lem r x (s ∷ more) (inl (rest, s_below)) below = elim (newer_lem x s) [
    | inl (newer, e) ↦ rw e (ends_lem r (stored_of proc_key s) more rest s_below)
    | inr (older, e) ↦ rw e (ends_lem r x more rest below)
  ]
  ends_lem r x (s ∷ more) (inr (is_last, rest)) below = elim (newer_lem x s) [
    | inl (newer, e) ↦ rw (e, is_last) (below_lem r more rest)
    | inr (older, e) ↦ absurd (omega (arith, ap (λ y. y.0) is_last))
  ]

  -- From what is stored on, later snapshots leave it as it is, or end in a newer one.
  after_lem :
      (x : Stored) (snapshots : List (Snapshot Proc))
      → IsBelow x snapshots
        ⊎ ((r : Stored) × ((after (some x) snapshots ≡ some r) × EndsIn r snapshots × (x.0 ≤ r.0)))
  unfolding after EndsIn stored_of
  after_lem x [] = inl tt
  after_lem x (s ∷ more) = elim (newer_lem x s) [
    | inl (newer, e) ↦ inr (elim (after_lem (stored_of proc_key s) more) [
      | inl below ↦ (
        stored_of proc_key s,
        (rw e (below_lem (stored_of proc_key s) more below), inr (refl, below), newer),
      )
      | inr (r, (same, ends, s_below)) ↦ (r, (rw e same, inl (ends, s_below), omega arith))
    ])
    | inr (older, e) ↦ elim (after_lem x more) [
      | inl below ↦ inl (older, below)
      | inr (r, (same, ends, x_below)) ↦ inr (r, (rw e same, inl (ends, omega arith), x_below))
    ]
  ]

  again :
      (x : Stored) (snapshots : List (Snapshot Proc))
      → after (after (some x) snapshots) snapshots ≡ after (some x) snapshots
  again x snapshots = elim (after_lem x snapshots) [
    | inl below ↦ rw (below_lem x snapshots below, below_lem x snapshots below) refl
    | inr (r, (same, ends, x_below)) ↦ rw same (ends_lem r r snapshots ends (omega arith))
  ]

  replayed :
      (o : Option Stored) (snapshots : List (Snapshot Proc))
      → after (after o snapshots) snapshots ≡ after o snapshots
  unfolding after newer_snapshot
  replayed (some x) snapshots = again x snapshots
  replayed none [] = refl
  replayed none (s ∷ more) =
      ap (λ o. after o (s ∷ more)) (sym (from_first (stored_of proc_key s) s refl))
      ∙ again (stored_of proc_key s) (s ∷ more)
      ∙ from_first (stored_of proc_key s) s refl
    where
      -- A snapshot over the same one stored changes nothing.
      from_first :
          (x : Stored) (t : Snapshot Proc)
          → x ≡ stored_of proc_key t
          → after (some x) (t ∷ more) ≡ after (some x) more
      from_first x t e = elim (newer_lem x t) [
        | inl (newer, q) ↦ ap (λ y. after (some y) more) (q ∙ sym e)
        | inr (older, q) ↦ ap (λ y. after (some y) more) q
      ]

  forward : (o : Option Stored) (snapshots : List (Snapshot Proc)) → IsForward o (after o snapshots)
  unfolding IsForward
  forward none snapshots = tt
  forward (some x) snapshots = elim (after_lem x snapshots) [
    | inl below ↦ rw (below_lem x snapshots below) (omega arith)
    | inr (r, (same, ends, x_below)) ↦ rw same x_below
  ]

  -- Writing the snapshots of a batch again changes nothing of what is stored for a node, and what
  -- is stored for a node never gives way to an older snapshot.
  pub write_snapshots-replayed :
      (key : NodeKey) (snapshots : List (Snapshot Proc)) (store : Store Proc)
      → (lookup key
            (write_snapshots proc_key snapshots
              (write_snapshots proc_key snapshots store)).snapshots
          ≡ lookup key (write_snapshots proc_key snapshots store).snapshots)
        × IsForward
            (lookup key store.snapshots)
            (lookup key (write_snapshots proc_key snapshots store).snapshots)
  write_snapshots-replayed key snapshots store =
      let once = lookup-write_snapshots key snapshots store in
      let twice = lookup-write_snapshots key snapshots (write_snapshots proc_key snapshots store) in
      let these = snapshots_of key snapshots in
      (
        twice
            ∙ ap (λ o. after o these) once
            ∙ replayed (lookup key store.snapshots) these
            ∙ sym once,
        rw once (forward (lookup key store.snapshots) these),
      )
