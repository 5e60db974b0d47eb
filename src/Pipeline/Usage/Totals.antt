-- ===== src/Pipeline/Usage/Totals.antt =====
-- What the tallies of an interval add up to.
use node_monitor.Common.{
  ℕ, ◌+◌, String, ◌≡◌, refl, Bool, true, Option, none, some, List, [], ◌∷◌, if◌then◌else◌, text_eq,
  sum_by, arith, Bool-cases, inl, inr,
}
use node_monitor.Common.Dict.{Dict, lookup, put, sum_by-put, weight_at}
use node_monitor.Pipeline.Usage.Tallies.{
  Floats, Process, Tally, new_tally, add, fold, or_new, one_if, is_unmeasured, is_blocked,
}
use node_monitor.Pipeline.Usage.{
  Interval, new_interval, user_processes, node_tally, add_user, user_tallies, fold_users, add_rows,
}

-- What is summed as a whole number.
pub data Count : Type 0 where
  processes without_cpu resident threads blocked interactive : Count

unfoldable pub amount : {F : Type 0} → Count → Tally F → ℕ
amount processes t = t.n
amount without_cpu t = t.unmeasured
amount resident t = t.rss
amount threads t = t.threads
amount blocked t = t.d
amount interactive t = t.inter

unfoldable pub of_process : {F : Type 0} → Count → Process F → ℕ
of_process processes p = 1
of_process without_cpu p = one_if (is_unmeasured p.cpu_seconds)
of_process resident p = p.rss_kb
of_process threads p = p.threads
of_process blocked p = one_if (is_blocked p)
of_process interactive p = one_if p.interactive

abbrev pub weight : {F : Type 0} → Count → (String → Bool) → String → Tally F → ℕ
weight c of name t = if of name then amount c t else 0

-- The sum over the tallies of some users.
unfoldable pub users_amount : {F : Type 0} → Count → (String → Bool) → Dict String (Tally F) → ℕ
users_amount c of users = sum_by (λ user. weight c of user.0 user.1) users

-- The sum over the processes of some users, and over the user processes of several censuses.
unfoldable pub rows_amount : {F : Type 0} → Count → (String → Bool) → List (Process F) → ℕ
rows_amount c of ps = sum_by (λ p. if of p.username then of_process c p else 0) ps

unfoldable pub censuses_amount :
    {F : Type 0} → Count → (String → Bool) → List (List (Process F) × Bool) → ℕ
censuses_amount c of censuses =
    sum_by (λ census. rows_amount c of (user_processes census.0)) censuses

abbrev pub everyone : String → Bool
everyone name = true

nobody : (F : Type 0) (c : Count) (of : String → Bool) → users_amount {F = F} c of [] ≡ 0
unfolding users_amount
nobody F c of = refl

amount-new_tally : (F : Type 0) ⦃floats : Floats F⦄ (c : Count) → amount {F = F} c new_tally ≡ 0
unfolding amount new_tally
amount-new_tally F processes = refl
amount-new_tally F without_cpu = refl
amount-new_tally F resident = refl
amount-new_tally F threads = refl
amount-new_tally F blocked = refl
amount-new_tally F interactive = refl

module _ {F : Type 0} ⦃floats : Floats F⦄ where
  -- The censuses of an interval, each with whether its GPUs were measured.
  unfoldable pub add_censuses : List (List (Process F) × Bool) → Interval F → Interval F
  add_censuses [] iv = iv
  add_censuses ((rows, gpu_measured) ∷ more) iv = add_censuses more (add_rows rows gpu_measured iv)

  amount-fold : (c : Count) (t u : Tally F) → amount c (fold t u) ≡ amount c t + amount c u
  unfolding amount fold
  amount-fold processes t u = refl
  amount-fold without_cpu t u = refl
  amount-fold resident t u = refl
  amount-fold threads t u = refl
  amount-fold blocked t u = refl
  amount-fold interactive t u = refl

  amount-add :
      (c : Count) (g : Bool) (p : Process F) (t : Tally F)
      → amount c (add g p t) ≡ amount c t + of_process c p
  unfolding amount add of_process
  amount-add processes g p t = refl
  amount-add without_cpu g p t = refl
  amount-add resident g p t = refl
  amount-add threads g p t = refl
  amount-add blocked g p t = refl
  amount-add interactive g p t = refl

  -- What was there for a user counts as the tally that is changed.
  weight-or_new :
      (c : Count) (of : String → Bool) (name : String) (o : Option (Tally F))
      → weight_at (weight c of) name o ≡ weight c of name (or_new o)
  unfolding or_new
  weight-or_new c of name none = ground (arith, amount-new_tally F c)
  weight-or_new c of name (some t) = refl

  -- Another tally for one user adds what the tally has grown by.
  users-put :
      (c : Count) (of : String → Bool) (name : String) (t : Tally F) (users : Dict String (Tally F))
      (grown : ℕ)
      → amount c t ≡ amount c (or_new (lookup name users)) + grown
      → users_amount c of (put name t users)
        ≡ users_amount c of users + (if of name then grown else 0)
  unfolding users_amount
  users-put c of name t users grown h =
      let summed = sum_by-put (weight c of) name t users in
      let before = weight-or_new c of name (lookup name users) in
      elim (Bool-cases (of name)) [
        | inl is_one ↦ ground (arith, summed, before)
        | inr other ↦ ground (arith, summed, before)
      ]

  users-user_tallies :
      (c : Count) (of : String → Bool) (g : Bool) (ps : List (Process F))
      (users : Dict String (Tally F))
      → users_amount c of (user_tallies g ps users) ≡ users_amount c of users + rows_amount c of ps
  unfolding user_tallies rows_amount add_user
  users-user_tallies c of g [] users = omega arith
  users-user_tallies c of g (p ∷ ps) users =
      let t = or_new (lookup p.username users) in
      let added = amount-add c g p t in
      let grown = users-put c of p.username (add g p t) users (of_process c p) added in
      omega (arith, grown, users-user_tallies c of g ps (add_user g p users))

  users-fold_users :
      (c : Count) (of : String → Bool) (census users : Dict String (Tally F))
      → users_amount c of (fold_users census users)
        ≡ users_amount c of users + users_amount c of census
  unfolding fold_users users_amount
  users-fold_users c of [] users = omega arith
  users-fold_users c of ((name, u) ∷ more) users =
      let t = or_new (lookup name users) in
      let grown = users-put c of name (fold t u) users (amount c u) (amount-fold c t u) in
      omega (arith, grown, users-fold_users c of more (put name (fold t u) users))

  amount-node_tally :
      (c : Count) (g : Bool) (ps : List (Process F)) (node : Tally F)
      → amount c (node_tally g ps node) ≡ amount c node + rows_amount c everyone ps
  unfolding node_tally rows_amount
  amount-node_tally c g [] node = omega arith
  amount-node_tally c g (p ∷ ps) node =
      omega (arith, amount-add c g p node, amount-node_tally c g ps (add g p node))

  from_users :
      (c : Count) (of : String → Bool) (censuses : List (List (Process F) × Bool)) (iv : Interval F)
      → users_amount c of (add_censuses censuses iv).users
        ≡ users_amount c of iv.users + censuses_amount c of censuses
  unfolding add_censuses add_rows censuses_amount
  from_users c of [] iv = omega arith
  from_users c of ((rows, g) ∷ more) iv =
      let ps = user_processes rows in
      omega (
        arith,
        from_users c of more (add_rows rows g iv),
        users-fold_users c of (user_tallies g ps []) iv.users,
        users-user_tallies c of g ps [],
        nobody F c of,
      )

  from_node :
      (c : Count) (censuses : List (List (Process F) × Bool)) (iv : Interval F)
      → amount c (add_censuses censuses iv).node
        ≡ amount c iv.node + censuses_amount c everyone censuses
  unfolding add_censuses add_rows censuses_amount
  from_node c [] iv = omega arith
  from_node c ((rows, g) ∷ more) iv =
      let ps = user_processes rows in
      omega (
        arith,
        from_node c more (add_rows rows g iv),
        amount-fold c iv.node (node_tally g ps new_tally),
        amount-node_tally c g ps new_tally,
        amount-new_tally F c,
      )

  -- After any censuses of an interval, what the tallies of some users hold is what the user
  -- processes of these users have added in all the censuses, and the node's tally holds what all
  -- user processes have added.
  pub add_censuses-totals :
      (c : Count) (of : String → Bool) (censuses : List (List (Process F) × Bool)) (start : ℕ)
      → (users_amount c of (add_censuses censuses (new_interval start)).users
          ≡ censuses_amount c of censuses)
        × (amount c (add_censuses censuses (new_interval start)).node
            ≡ censuses_amount c everyone censuses)
  unfolding new_interval
  add_censuses-totals c of censuses start = (
    omega (arith, from_users c of censuses (new_interval start), nobody F c of),
    omega (arith, from_node c censuses (new_interval start), amount-new_tally F c),
  )
