-- ===== src/Pipeline/Usage/Derived.antt =====
-- pipeline/usage.py: the maps of a user, and the sums over `by_category_dormancy`.
use node_monitor.Common.{
  ℕ, ◌+◌, String, ◌≡◌, refl, Bool, true, Option, none, some, List, [], ◌∷◌, if◌then◌else◌, ◌==◌,
  text_eq, sum_by, arith, Bool-cases, inl, inr, All,
}
use node_monitor.Common.Dict.{Dict, lookup, put, sum_by-put, weight_at, values, All-put}
use node_monitor.Pipeline.Usage.Tallies.{
  Floats, Process, Cell, Tally, new_tally, add, fold, or_new, cell_or_new, table_or_new, grow,
  grow_at, bump, merge_cells, merge_tables, dormancy, or_zero,
}
use node_monitor.Pipeline.Usage.{
  Interval, new_interval, user_processes, node_tally, add_user, user_tallies, fold_users, add_rows,
}
use node_monitor.Pipeline.Usage.Totals.{add_censuses}

-- The whole numbers of a cell.
pub data Part : Type 0 where
  counted resident : Part

unfoldable pub part : {F : Type 0} → Part → Cell F → ℕ
part counted c = c.count
part resident c = c.rss

-- What a table has at the chosen keys.
abbrev pub chosen : {F : Type 0} → Part → (String → Bool) → String → Cell F → ℕ
chosen f of key c = if of key then part f c else 0

unfoldable pub at_keys : {F : Type 0} → Part → (String → Bool) → Dict String (Cell F) → ℕ
at_keys f of table = sum_by (λ e. chosen f of e.0 e.1) table

-- What the tables of the chosen categories have at the chosen keys.
abbrev pub in_table :
    {F : Type 0} → Part → (String → Bool) → (String → Bool) → String → Dict String (Cell F) → ℕ
in_table f categories of category table = if categories category then at_keys f of table else 0

unfoldable pub in_tables :
    {F : Type 0} → Part → (String → Bool) → (String → Bool) → Dict String (Dict String (Cell F)) → ℕ
in_tables f categories of tables = sum_by (λ e. in_table f categories of e.0 e.1) tables

abbrev pub any_key : String → Bool
any_key key = true

-- The two maps left out, at any keys, are sums over the tables of `by_category_dormancy`.
unfoldable pub IsDerived : {F : Type 0} → Tally F → Type 0
IsDerived t =
    (f : Part) (of : String → Bool)
    → (at_keys f of t.by_category ≡ in_tables f of any_key t.cat_dorm)
      × (at_keys f of t.by_dormancy ≡ in_tables f any_key of t.cat_dorm)

new_tally-IsDerived : (F : Type 0) ⦃floats : Floats F⦄ → IsDerived {F = F} new_tally
unfolding IsDerived new_tally at_keys in_tables
new_tally-IsDerived F = λ f of. (refl, refl)

module _ {F : Type 0} ⦃floats : Floats F⦄ where
  part-grow :
      (f : Part) (c : Cell F) (cpu_s : F) (new : Cell F)
      → part f (grow c new.count cpu_s new.rss) ≡ part f c + part f new
  unfolding part grow
  part-grow counted c cpu_s new = refl
  part-grow resident c cpu_s new = refl

  chosen-cell_or_new :
      (f : Part) (of : String → Bool) (key : String) (o : Option (Cell F))
      → weight_at (chosen f of) key o ≡ chosen f of key (cell_or_new o)
  unfolding cell_or_new part
  chosen-cell_or_new counted of key none = ground arith
  chosen-cell_or_new resident of key none = ground arith
  chosen-cell_or_new f of key (some c) = refl

  -- A table grows by what is added at a key.
  at_keys-grow_at :
      (f : Part) (of : String → Bool) (table : Dict String (Cell F)) (key : String) (new : Cell F)
      → at_keys f of (grow_at table key new.count new.cpu_s new.rss)
        ≡ at_keys f of table + chosen f of key new
  unfolding at_keys grow_at
  at_keys-grow_at f of table key new =
      let old = cell_or_new (lookup key table) in
      let summed = sum_by-put (chosen f of) key (grow old new.count new.cpu_s new.rss) table in
      let before = chosen-cell_or_new f of key (lookup key table) in
      let grown = part-grow f old new.cpu_s new in
      elim (Bool-cases (of key)) [
        | inl one ↦ ground (arith, summed, before, grown)
        | inr other ↦ ground (arith, summed, before, grown)
      ]

  at_keys-merge_cells :
      (f : Part) (of : String → Bool) (table more : Dict String (Cell F))
      → at_keys f of (merge_cells table more) ≡ at_keys f of table + at_keys f of more
  unfolding merge_cells at_keys
  at_keys-merge_cells f of table [] = omega arith
  at_keys-merge_cells f of table ((key, c) ∷ more) = omega (
    arith,
    at_keys-grow_at f of table key c,
    at_keys-merge_cells f of (grow_at table key c.count c.cpu_s c.rss) more,
  )

  in_table-or_new :
      (f : Part) (categories of : String → Bool) (category : String)
      (o : Option (Dict String (Cell F)))
      → weight_at (in_table f categories of) category o
        ≡ in_table f categories of category (table_or_new o)
  unfolding table_or_new at_keys
  in_table-or_new f categories of category none = ground arith
  in_table-or_new f categories of category (some table) = refl

  -- Another table for a category adds what the table has grown by.
  in_tables-put :
      (f : Part) (categories of : String → Bool) (category : String) (table : Dict String (Cell F))
      (tables : Dict String (Dict String (Cell F))) (grown : ℕ)
      → at_keys f of table ≡ at_keys f of (table_or_new (lookup category tables)) + grown
      → in_tables f categories of (put category table tables)
        ≡ in_tables f categories of tables + (if categories category then grown else 0)
  unfolding in_tables
  in_tables-put f categories of category table tables grown h =
      let summed = sum_by-put (in_table f categories of) category table tables in
      let before = in_table-or_new f categories of category (lookup category tables) in
      elim (Bool-cases (categories category)) [
        | inl one ↦ ground (arith, summed, before)
        | inr other ↦ ground (arith, summed, before)
      ]

  in_tables-merge_tables :
      (f : Part) (categories of : String → Bool) (tables more : Dict String (Dict String (Cell F)))
      → in_tables f categories of (merge_tables tables more)
        ≡ in_tables f categories of tables + in_tables f categories of more
  unfolding merge_tables in_tables
  in_tables-merge_tables f categories of tables [] = omega arith
  in_tables-merge_tables f categories of tables ((category, table) ∷ more) =
      let old = table_or_new (lookup category tables) in
      let merged = merge_cells old table in
      omega (
        arith,
        in_tables-put f categories of category merged tables (at_keys f of table)
            (at_keys-merge_cells f of old table),
        in_tables-merge_tables f categories of (put category merged tables) more,
      )

  fold-IsDerived : (t u : Tally F) → IsDerived t → IsDerived u → IsDerived (fold t u)
  unfolding IsDerived fold
  fold-IsDerived t u h k = λ f of. (
    omega (
      arith,
      (h f of).0,
      (k f of).0,
      at_keys-merge_cells f of t.by_category u.by_category,
      in_tables-merge_tables f of any_key t.cat_dorm u.cat_dorm,
    ),
    omega (
      arith,
      (h f of).1,
      (k f of).1,
      at_keys-merge_cells f of t.by_dormancy u.by_dormancy,
      in_tables-merge_tables f any_key of t.cat_dorm u.cat_dorm,
    ),
  )

  add-IsDerived : (g : Bool) (p : Process F) (t : Tally F) → IsDerived t → IsDerived (add g p t)
  unfolding IsDerived add bump
  add-IsDerived g p t h = λ f of. (
    omega (
      arith,
      (h f of).0,
      at_keys-grow_at f of t.by_category p.category new,
      in_tables-put f of any_key p.category grown t.cat_dorm (part f new)
          (at_keys-grow_at f any_key old (dormancy p) new),
    ),
    omega (
      arith,
      (h f of).1,
      at_keys-grow_at f of t.by_dormancy (dormancy p) new,
      in_tables-put f any_key of p.category grown t.cat_dorm (chosen f of (dormancy p) new)
          (at_keys-grow_at f of old (dormancy p) new),
    ),
  )
    where
      new : Cell F
      new = record { count = 1; cpu_s = or_zero p.cpu_seconds; rss = p.rss_kb }

      old : Dict String (Cell F)
      old = table_or_new (lookup p.category t.cat_dorm)

      grown : Dict String (Cell F)
      grown = grow_at old (dormancy p) 1 new.cpu_s new.rss

  or_new-IsDerived :
      (name : String) (users : Dict String (Tally F))
      → All IsDerived (values users)
      → IsDerived (or_new (lookup name users))
  unfolding or_new lookup
  or_new-IsDerived name [] h = new_tally-IsDerived F
  or_new-IsDerived name ((known, t) ∷ users) h = elim (Bool-cases (known == name)) [
    | inl same ↦ rw same h.0
    | inr other ↦ rw other (or_new-IsDerived name users h.1)
  ]

  node_tally-IsDerived :
      (g : Bool) (ps : List (Process F)) (node : Tally F)
      → IsDerived node
      → IsDerived (node_tally g ps node)
  unfolding node_tally
  node_tally-IsDerived g [] node h = h
  node_tally-IsDerived g (p ∷ ps) node h =
      node_tally-IsDerived g ps (add g p node) (add-IsDerived g p node h)

  user_tallies-IsDerived :
      (g : Bool) (ps : List (Process F)) (users : Dict String (Tally F))
      → All IsDerived (values users)
      → All IsDerived (values (user_tallies g ps users))
  unfolding user_tallies add_user
  user_tallies-IsDerived g [] users h = h
  user_tallies-IsDerived g (p ∷ ps) users h =
      let t = or_new (lookup p.username users) in
      let one = add-IsDerived g p t (or_new-IsDerived p.username users h) in
      user_tallies-IsDerived g ps (add_user g p users)
        (All-put IsDerived p.username (add g p t) users h one)

  fold_users-IsDerived :
      (census users : Dict String (Tally F))
      → All IsDerived (values census)
      → All IsDerived (values users)
      → All IsDerived (values (fold_users census users))
  unfolding fold_users
  fold_users-IsDerived [] users h k = k
  fold_users-IsDerived ((name, u) ∷ more) users h k =
      let t = or_new (lookup name users) in
      let one = fold-IsDerived t u (or_new-IsDerived name users k) h.0 in
      fold_users-IsDerived more (put name (fold t u) users) h.1
        (All-put IsDerived name (fold t u) users k one)

  all-IsDerived :
      (censuses : List (List (Process F) × Bool)) (iv : Interval F)
      → IsDerived iv.node × All IsDerived (values iv.users)
      → IsDerived (add_censuses censuses iv).node
        × All IsDerived (values (add_censuses censuses iv).users)
  unfolding add_censuses add_rows
  all-IsDerived [] iv h = h
  all-IsDerived ((rows, g) ∷ more) iv h =
      let ps = user_processes rows in
      let one = node_tally-IsDerived g ps new_tally (new_tally-IsDerived F) in
      all-IsDerived more (add_rows rows g iv) (
        fold-IsDerived iv.node (node_tally g ps new_tally) h.0 one,
        fold_users-IsDerived (user_tallies g ps []) iv.users (user_tallies-IsDerived g ps [] tt)
            h.1,
      )

  -- After any censuses of an interval, in the tally of the node and of each user the counts and the
  -- memory of `by_category` at any categories are the sums over their tables of
  -- `by_category_dormancy`, and those of `by_dormancy` at any keys are the sums over all tables.
  pub add_censuses-IsDerived :
      (censuses : List (List (Process F) × Bool)) (start : ℕ)
      → IsDerived (add_censuses censuses (new_interval start)).node
        × All IsDerived (values (add_censuses censuses (new_interval start)).users)
  unfolding new_interval
  add_censuses-IsDerived censuses start =
      all-IsDerived censuses (new_interval start) (new_tally-IsDerived F, tt)
