-- ===== src/Probe/Stat/RoundTrip.antt =====
-- probe/probe.py, `parse_stat`: reading a line of /proc/<pid>/stat back.
use node_monitor.Common.{
  ℕ, suc, ◌+◌, ◌≤◌, ◌≡◌, refl, sym, ap, ◌∙◌, true, false, none, some, List, [], ◌∷◌, ◌++◌, arith,
  Bool-cases, inl, inr, ltb, length, All, contains, ◌==◌, nat_eq, append_assoc, append-nil,
  length-append, ==_refl,
}
use node_monitor.Common.Slices.{first, drop}
use node_monitor.Probe.Stat.{
  Text, is_space, shifted, found_or, index_of, last_index_of, with_word, cut_at, words, split,
  with_tail, parse_between, parse_stat,
}

-- A field as the kernel writes it: not empty, and without spaces and ")".
unfoldable pub IsField : Text → Type 0
IsField [] = ⊥
IsField (c ∷ cs) = All (λ x. (is_space x ≡ false) × ((x == 41) ≡ false)) (c ∷ cs)

-- Fields with a space between them and a line feed at the end.
unfoldable pub print_fields : List Text → Text
print_fields [] = 10 ∷ []
print_fields (f ∷ []) = f ++ 10 ∷ []
print_fields (f ∷ g ∷ fs) = f ++ 32 ∷ print_fields (g ∷ fs)

-- `pid (comm) field field ...`
unfoldable pub stat_line : Text → Text → List Text → Text
stat_line pid comm fields = (pid ++ 32 ∷ 40 ∷ []) ++ (comm ++ 41 ∷ 32 ∷ print_fields fields)

index_of-append :
    (c : ℕ) (xs ys : Text) → contains c xs ≡ false → index_of c (xs ++ c ∷ ys) ≡ some (length xs)
unfolding index_of shifted
index_of-append c [] ys h = rw (==_refl c) refl
index_of-append c (x ∷ xs) ys h = elim (Bool-cases (x == c)) [
  | inl same ↦ absurd (ground (arith, same))
  | inr other ↦ rw (other, index_of-append c xs ys (ground arith)) refl
]

last_index_of_absent : (c : ℕ) (xs : Text) → contains c xs ≡ false → last_index_of c xs ≡ none
unfolding last_index_of shifted found_or
last_index_of_absent c [] h = refl
last_index_of_absent c (x ∷ xs) h = elim (Bool-cases (x == c)) [
  | inl same ↦ absurd (ground (arith, same))
  | inr other ↦ rw (last_index_of_absent c xs (ground arith), other) refl
]

last_index_of-append :
    (c : ℕ) (xs ys : Text)
    → contains c ys ≡ false
    → last_index_of c (xs ++ c ∷ ys) ≡ some (length xs)
unfolding last_index_of shifted found_or
last_index_of-append c [] ys h = rw (last_index_of_absent c ys h, ==_refl c) refl
last_index_of-append c (x ∷ xs) ys h = rw (last_index_of-append c xs ys h) refl

first_part : (xs ys : Text) → first (length xs) (xs ++ ys) ≡ xs
unfolding first
first_part [] ys = refl
first_part (x ∷ xs) ys = ap (λ zs. x ∷ zs) (first_part xs ys)

drop_part : (xs ys : Text) → drop (length xs) (xs ++ ys) ≡ ys
unfolding drop
drop_part [] ys = refl
drop_part (x ∷ xs) ys = drop_part xs ys

-- The characters of a word are put in front of the word that follows.
words-append :
    (word rest : Text)
    → All (λ x. (is_space x ≡ false) × ((x == 41) ≡ false)) word
    → words (word ++ rest) ≡ (word ++ (words rest).0, (words rest).1)
unfolding words cut_at
words-append [] rest h = refl
words-append (c ∷ word) rest h = rw (h.0.0, words-append word rest h.1) refl

-- A field before a space is the first of the words.
split-field :
    (f rest : Text) (space : ℕ)
    → IsField f
    → is_space space ≡ true
    → split (f ++ space ∷ rest) ≡ f ∷ split rest
unfolding IsField split with_word words cut_at
split-field [] rest space h k = absurd h
split-field (c ∷ f) rest space h k =
    ap (λ cut. with_word cut.0 cut.1)
      (words-append (c ∷ f) (space ∷ rest) h ∙ ap (λ after. ((c ∷ f) ++ after.0, after.1)) ended)
    ∙ ap (λ word. (c ∷ word) ∷ split rest) (append-nil f)
  where
    ended : words (space ∷ rest) ≡ ([], split rest)
    ended = rw k refl

split-print_fields :
    (fields : List Text) → All IsField fields → split (print_fields fields) ≡ fields
unfolding print_fields split with_word words cut_at is_space
split-print_fields [] h = refl
split-print_fields (f ∷ []) h = split-field f [] 10 h.0 refl
split-print_fields (f ∷ g ∷ fs) h =
    split-field f (print_fields (g ∷ fs)) 32 h.0 refl
    ∙ ap (λ more. f ∷ more) (split-print_fields (g ∷ fs) h.1)

contains-append :
    (c : ℕ) (xs ys : Text)
    → contains c xs ≡ false
    → contains c ys ≡ false
    → contains c (xs ++ ys) ≡ false
contains-append c [] ys h k = k
contains-append c (x ∷ xs) ys h k = ground (arith, contains-append c xs ys)

field-unparenthesised : (f : Text) → IsField f → contains 41 f ≡ false
unfolding IsField
field-unparenthesised [] h = absurd h
field-unparenthesised (c ∷ cs) h = go (c ∷ cs) h
  where
    go :
        (f : Text) → All (λ x. (is_space x ≡ false) × ((x == 41) ≡ false)) f → contains 41 f ≡ false
    go [] h = refl
    go (x ∷ xs) h = rw (h.0.1, go xs h.1) refl

fields-unparenthesised :
    (fields : List Text) → All IsField fields → contains 41 (print_fields fields) ≡ false
unfolding print_fields
fields-unparenthesised [] h = refl
fields-unparenthesised (f ∷ []) h =
    contains-append 41 f (10 ∷ []) (field-unparenthesised f h.0) refl
fields-unparenthesised (f ∷ g ∷ fs) h =
    contains-append 41 f (32 ∷ print_fields (g ∷ fs)) (field-unparenthesised f h.0)
      (fields-unparenthesised (g ∷ fs) h.1)

drop_two : (xs ys : Text) (x y : ℕ) → drop (length xs + 2) (xs ++ x ∷ y ∷ ys) ≡ ys
drop_two xs ys x y =
    rw⁻¹ (append_assoc xs (x ∷ y ∷ []) ys)
      (rw⁻¹ (length-append xs (x ∷ y ∷ [])) (drop_part (xs ++ x ∷ y ∷ []) ys))

parse_between_comm :
    (before comm rest : Text) (open_paren : ℕ)
    → suc open_paren ≡ length before
    → 22 ≤ length (split rest)
    → parse_between
        ((before ++ comm) ++ 41 ∷ 32 ∷ rest)
        (some open_paren)
        (some (length (before ++ comm)))
      ≡ some (comm, split rest)
unfolding parse_between with_tail
parse_between_comm before comm rest open_paren h enough =
    rw
      (
        ordered,
        h,
        first_part (before ++ comm) (41 ∷ 32 ∷ rest),
        drop_part before comm,
        drop_two (before ++ comm) rest 41 32,
        many,
      )
      refl
  where
    ordered : ltb (length (before ++ comm)) open_paren ≡ false
    ordered = ground (arith, length-append before comm)

    many : ltb (length (split rest)) 22 ≡ false
    many = ground arith

-- A line of /proc/<pid>/stat is read as the name of its command, spaces and parentheses included,
-- and its fields, if the text before the name has no "(", no field is empty or has a space or a
-- ")", and there are at least 22 fields.
pub parse_stat-stat_line :
    (pid comm : Text) (fields : List Text)
    → contains 40 pid ≡ false
    → All IsField fields
    → 22 ≤ length fields
    → parse_stat (stat_line pid comm fields) ≡ some (comm, fields)
unfolding parse_stat stat_line
parse_stat-stat_line pid comm fields h k enough =
    ap (λ line. parse_between line (index_of 40 line) (last_index_of 41 line)) closed
    ∙ rw (opened_at, closed_at)
        (parse_between_comm before comm printed (length (pid ++ 32 ∷ []))
          (omega (arith, length-append pid (32 ∷ []), length-append pid (32 ∷ 40 ∷ [])))
          (rw (split-print_fields fields k) enough))
    ∙ ap (λ tail. some (comm, tail)) (split-print_fields fields k)
  where
    before : Text
    before = pid ++ 32 ∷ 40 ∷ []

    printed : Text
    printed = print_fields fields

    closed : before ++ (comm ++ 41 ∷ 32 ∷ printed) ≡ (before ++ comm) ++ 41 ∷ 32 ∷ printed
    closed = sym (append_assoc before comm (41 ∷ 32 ∷ printed))

    opened :
        (pid ++ 32 ∷ []) ++ 40 ∷ (comm ++ 41 ∷ 32 ∷ printed) ≡ (before ++ comm) ++ 41 ∷ 32 ∷ printed
    opened =
        append_assoc pid (32 ∷ []) (40 ∷ (comm ++ 41 ∷ 32 ∷ printed))
        ∙ sym (append_assoc pid (32 ∷ 40 ∷ []) (comm ++ 41 ∷ 32 ∷ printed))
        ∙ closed

    opened_at : index_of 40 ((before ++ comm) ++ 41 ∷ 32 ∷ printed) ≡ some (length (pid ++ 32 ∷ []))
    opened_at =
        ap (index_of 40) (sym opened)
        ∙ index_of-append 40 (pid ++ 32 ∷ []) (comm ++ 41 ∷ 32 ∷ printed)
            (contains-append 40 pid (32 ∷ []) h refl)

    closed_at :
        last_index_of 41 ((before ++ comm) ++ 41 ∷ 32 ∷ printed) ≡ some (length (before ++ comm))
    closed_at =
        last_index_of-append 41 (before ++ comm) (32 ∷ printed) (fields-unparenthesised fields k)
