-- ===== src/Database/Migrate/Applied.antt =====
-- What `migrate` leaves in the database.
use node_monitor.Common.{
  ℕ, ◌≤◌, String, ◌≡◌, refl, sym, ap, ◌∙◌, true, not, Option, none, some, List, [], ◌∷◌, ◌++◌,
  append-nil, append_assoc, keep, contains, ==_refl, nat_eq, ◌==◌, arith, Bool-cases, Option-cases,
  inl, inr, map, All,
}
use node_monitor.Common.Dict.{keys}
use node_monitor.Database.Migrate.{
  Migration, Schema, Migrated, applied, in_transaction, failed_in, apply_one, apply_loop,
  apply_pending, migrate, check_schema, current_version, required_version, greatest,
}

unfoldable pub pending : List ℕ → List Migration → List Migration
pending done ms = keep (λ m. not (contains m.0 done)) ms

module _ {Tables : Type 0} (execute : String → Tables → Option Tables) where
  -- Executing the files of a list, in order, on the tables.
  unfoldable pub ExecutesTo : List Migration → Tables → Tables → Type 0
  ExecutesTo [] old new = new ≡ old
  ExecutesTo (m ∷ ms) old new =
      (mid : Tables) × (execute m.1 old ≡ some mid) × ExecutesTo ms mid new

  -- What the result says of the migrations made and left: all are made, or the next one fails.
  unfoldable pub Said : List ℕ → List Migration → List Migration → Tables → Migrated → Type 0
  Said so_far made left tables (applied versions) =
      (versions ≡ so_far ++ map (λ m. m.0) made) × (left ≡ [])
  Said so_far made left tables in_transaction = ⊥
  Said so_far made left tables (failed_in m) =
      (rest : List Migration) × (left ≡ m ∷ rest) × (execute m.1 tables ≡ none)

  -- Of the migrations to do those in `made` have been executed, in order and once each, and are
  -- recorded after the earlier ones. They are all, or the next one failed and has left no trace.
  pub record IsApplied (so_far : List ℕ) (todo : List Migration) (old : Schema Tables)
      (result : Migrated × Schema Tables) : Type 0 where
    pub made : List Migration
    pub left : List Migration
    pub split : todo ≡ made ++ left
    pub recorded : result.1.versions ≡ old.versions ++ made
    pub executed : ExecutesTo made old.tables result.1.tables
    pub said : Said so_far made left result.1.tables result.0

  more-Said :
      (so_far : List ℕ) (m : Migration) (made left : List Migration) (tables : Tables)
      (answer : Migrated)
      → Said (so_far ++ m.0 ∷ []) made left tables answer
      → Said so_far (m ∷ made) left tables answer
  unfolding Said
  more-Said so_far m made left tables (applied versions) h =
      (h.0 ∙ append_assoc so_far (m.0 ∷ []) (map (λ k. k.0) made), h.1)
  more-Said so_far m made left tables in_transaction h = h
  more-Said so_far m made left tables (failed_in n) h = h

  one_more :
      (so_far : List ℕ) (m : Migration) (todo : List Migration) (old : Schema Tables)
      (tables : Tables) (result : Migrated × Schema Tables)
      → execute m.1 old.tables ≡ some tables
      → IsApplied
          (so_far ++ m.0 ∷ [])
          todo
          (record { versions = old.versions ++ m ∷ []; tables = tables })
          result
      → IsApplied so_far (m ∷ todo) old result
  unfolding ExecutesTo
  one_more so_far m todo old tables result e h = record {
    made = m ∷ h.made;
    left = h.left;
    split = ap (λ ms. m ∷ ms) h.split;
    recorded = h.recorded ∙ append_assoc old.versions (m ∷ []) h.made;
    executed = (tables, e, h.executed);
    said = more-Said so_far m h.made h.left result.1.tables result.0 h.said;
  }

  apply_loop-IsApplied :
      (done so_far : List ℕ) (ms : List Migration) (schema : Schema Tables)
      → IsApplied so_far (pending done ms) schema (apply_loop execute done so_far ms schema)
  unfolding apply_loop pending apply_one Said ExecutesTo
  apply_loop-IsApplied done so_far [] schema = record {
    made = [];
    left = [];
    split = refl;
    recorded = sym (append-nil schema.versions);
    executed = refl;
    said = (sym (append-nil so_far), refl);
  }
  apply_loop-IsApplied done so_far (m ∷ ms) schema = elim (Bool-cases (contains m.0 done)) [
    | inl old ↦ rw old (apply_loop-IsApplied done so_far ms schema)
    | inr new ↦ elim (Option-cases (execute m.1 schema.tables)) [
      | inl e ↦
          rw (new, e)
            (record {
              made = [];
              left = m ∷ pending done ms;
              split = refl;
              recorded = sym (append-nil schema.versions);
              executed = refl;
              said = (pending done ms, refl, e);
            })
      | inr (tables, e) ↦
          rw (new, e)
            (one_more so_far m (pending done ms) schema tables
              (apply_loop execute done (so_far ++ m.0 ∷ []) ms
                (record { versions = schema.versions ++ m ∷ []; tables = tables }))
              e
              (apply_loop-IsApplied done (so_far ++ m.0 ∷ []) ms
                (record { versions = schema.versions ++ m ∷ []; tables = tables })))
    ]
  ]

  -- Without an open transaction `migrate` executes the files of the migrations that are not
  -- recorded, in order and once each, and records them; it stops at the first that fails, which
  -- leaves no trace, and says which versions it has applied or which migration failed.
  pub migrate-IsApplied :
      (ms : List Migration) (schema : Schema Tables)
      → IsApplied [] (pending (keys schema.versions) ms) schema (migrate execute true ms schema)
  unfolding migrate apply_pending
  migrate-IsApplied ms schema = apply_loop-IsApplied (keys schema.versions) [] ms schema

  contains-append :
      (n : ℕ) (xs ys : List Migration)
      → contains n (keys xs) ≡ true
      → contains n (keys (xs ++ ys)) ≡ true
  contains-append n [] ys h = ground arith
  contains-append n (x ∷ xs) ys h = ground (arith, contains-append n xs ys)

  contains_later :
      (n : ℕ) (xs ys : List Migration)
      → contains n (keys ys) ≡ true
      → contains n (keys (xs ++ ys)) ≡ true
  contains_later n [] ys h = h
  contains_later n (x ∷ xs) ys h = ground (arith, contains_later n xs ys h)

  -- Every migration of the list is recorded.
  pub AllRecorded : List Migration → List ℕ → Type 0
  AllRecorded ms done = All (λ m. contains m.0 done ≡ true) ms

  later_pending :
      (done : List ℕ) (m : Migration) (ms : List Migration) (n : ℕ)
      → contains n (keys (pending done ms)) ≡ true
      → contains n (keys (pending done (m ∷ ms))) ≡ true
  unfolding pending
  later_pending done m ms n h = elim (Bool-cases (contains m.0 done)) [
    | inl old ↦ rw old h
    | inr new ↦ rw new (ground (arith, h))
  ]

  all_recorded :
      (done known : List ℕ) (ms : List Migration)
      → ((n : ℕ) → contains n done ≡ true → contains n known ≡ true)
      → ((n : ℕ) → contains n (keys (pending done ms)) ≡ true → contains n known ≡ true)
      → AllRecorded ms known
  unfolding AllRecorded
  all_recorded done known [] h k = tt
  all_recorded done known (m ∷ ms) h k = (
    elim (Bool-cases (contains m.0 done)) [
      | inl old ↦ h m.0 old
      | inr new ↦ k m.0 (unfold pending in rw new (ground (arith, ==_refl m.0)))
    ],
    all_recorded done known ms h (λ n c. k n (later_pending done m ms n c)),
  )

  skips_all :
      (done : List ℕ) (ms : List Migration) (schema : Schema Tables)
      → AllRecorded ms done
      → apply_loop execute done [] ms schema ≡ (applied [], schema)
  unfolding apply_loop AllRecorded
  skips_all done [] schema h = refl
  skips_all done (m ∷ ms) schema h = rw h.0 (skips_all done ms schema h.1)

  -- All the pending migrations are made where the answer is that they are applied.
  made_all :
      (so_far : List ℕ) (made left : List Migration) (tables : Tables) (answer : Migrated)
      (versions : List ℕ)
      → answer ≡ applied versions
      → Said so_far made left tables answer
      → made ≡ made ++ left
  made_all so_far made left tables answer versions e said =
      let told : Said so_far made left tables (applied versions) = rw (sym e) said in
      let none_left : left ≡ [] = unfold Said in told.1 in rw none_left (sym (append-nil made))

  recorded_after :
      (ms : List Migration) (schema : Schema Tables) (versions : List ℕ)
      → (migrate execute true ms schema).0 ≡ applied versions
      → AllRecorded ms (keys (migrate execute true ms schema).1.versions)
  recorded_after ms schema versions e =
      let result = migrate execute true ms schema in
      let h = migrate-IsApplied ms schema in
      let todo = pending (keys schema.versions) ms in
      let made : h.made ≡ todo =
        made_all [] h.made h.left result.1.tables result.0 versions e h.said ∙ sym h.split in
      rw (h.recorded, made)
        (all_recorded (keys schema.versions) (keys (schema.versions ++ todo)) ms
          (λ n c. contains-append n schema.versions todo c)
          (λ n c. contains_later n schema.versions todo c))

  below_greatest : (n : ℕ) (ns : List ℕ) → contains n ns ≡ true → n ≤ greatest ns
  unfolding greatest
  below_greatest n [] h = ground arith
  below_greatest n (m ∷ ns) h = elim (Bool-cases (m == n)) [
    | inl here ↦ ground arith
    | inr there ↦ omega (arith, below_greatest n ns (ground arith))
  ]

  required_known :
      (ms : List Migration) (known : List ℕ)
      → AllRecorded ms known
      → required_version ms ≤ greatest known
  unfolding required_version AllRecorded
  required_known [] known h = omega arith
  required_known ((v, name) ∷ []) known h = below_greatest v known h.0
  required_known ((v, name) ∷ m ∷ ms) known h = required_known (m ∷ ms) known h.1

  check_schema-recorded :
      (ms : List Migration) (schema : Schema Tables)
      → AllRecorded ms (keys schema.versions)
      → check_schema execute ms schema ≡ true
  unfolding check_schema current_version
  check_schema-recorded ms schema h = ground (arith, required_known ms (keys schema.versions) h)

  -- After a `migrate` that succeeds another one applies nothing and changes nothing, and the schema
  -- is not out of date.
  pub migrate_again :
      (ms : List Migration) (schema : Schema Tables) (versions : List ℕ)
      → (migrate execute true ms schema).0 ≡ applied versions
      → (migrate execute true ms (migrate execute true ms schema).1
          ≡ (applied [], (migrate execute true ms schema).1))
        × (check_schema execute ms (migrate execute true ms schema).1 ≡ true)
  unfolding migrate apply_pending
  migrate_again ms schema versions e =
      let next = (migrate execute true ms schema).1 in
      let known = recorded_after ms schema versions e in
      (skips_all (keys next.versions) ms next known, check_schema-recorded ms next known)
