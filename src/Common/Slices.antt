-- ===== src/Common/Slices.antt =====
-- Slices of a sequence, `xs[:n]`, `xs[n:]` and `xs[-n:]`.
use mathlib.Core.Path.{◌≡◌, refl, sym, ap, ◌∙◌}
use Prim.Native.Nat.{ℕ, zero, suc, ◌+◌, ◌-◌, ◌≤◌}
use mathlib.Core.List.{List, [], ◌∷◌, ◌++◌}
use mathlib.Core.Logic.{inl, inr}
use native.Mathlib.Omega.{arith}
use node_monitor.Common.Tests.{leb, leb→le, Bool-cases}
use node_monitor.Common.Lists.{length, length-append}

-- `xs[:n]`
unfoldable pub first {ℓ} : {A : Type ℓ} → ℕ → List A → List A
first zero xs = []
first (suc n) [] = []
first (suc n) (x ∷ xs) = x ∷ first n xs

-- `xs[n:]`
unfoldable pub drop {ℓ} : {A : Type ℓ} → ℕ → List A → List A
drop zero xs = xs
drop (suc n) [] = []
drop (suc n) (x ∷ xs) = drop n xs

-- `xs[-n:]`, for n above 0
unfoldable pub last {ℓ} : {A : Type ℓ} → ℕ → List A → List A
last n xs = drop (length xs - n) xs

suc-add : (n m : ℕ) → suc n + m ≡ suc (n + m)
suc-add n m = omega arith

sub-suc : (n m : ℕ) → suc n - suc m ≡ n - m
sub-suc n m = omega arith

sub_zero : (n : ℕ) → n - 0 ≡ n
sub_zero n = omega arith

zero_add : (n : ℕ) → 0 + n ≡ n
zero_add n = omega arith

zero_sub : (n : ℕ) → 0 - n ≡ 0
zero_sub n = omega arith

module _ {ℓ} {A : Type ℓ} where
  first_nil : (n : ℕ) → first {A = A} n [] ≡ []
  unfolding first
  first_nil zero = refl
  first_nil (suc n) = refl

  pub length-first : (n : ℕ) (xs : List A) → length (first n xs) ≤ n
  unfolding first
  length-first zero xs = omega arith
  length-first (suc n) [] = omega arith
  length-first (suc n) (x ∷ xs) = omega (arith, length-first n xs)

  -- Taking from `xs` and then, with what room is left, from `ys`.
  pub first-append :
      (n : ℕ) (xs ys : List A)
      → first n (xs ++ ys) ≡ first n xs ++ first (n - length (first n xs)) ys
  unfolding first
  first-append zero xs ys = refl
  first-append (suc n) [] ys = rw (sub_zero (suc n)) refl
  first-append (suc n) (x ∷ xs) ys = rw (sub-suc n (length (first n xs)), first-append n xs ys) refl

  drop_all : (n : ℕ) (xs : List A) → length xs ≤ n → drop n xs ≡ []
  unfolding drop
  drop_all zero [] h = refl
  drop_all zero (x ∷ xs) h = absurd (omega arith)
  drop_all (suc n) [] h = refl
  drop_all (suc n) (x ∷ xs) h = drop_all n xs (omega arith)

  drop-append : (n : ℕ) (xs ys : List A) → drop n (xs ++ ys) ≡ drop n xs ++ drop (n - length xs) ys
  unfolding drop
  drop-append zero xs ys = rw (zero_sub (length xs)) refl
  drop-append (suc n) [] ys = rw (sub_zero (suc n)) refl
  drop-append (suc n) (x ∷ xs) ys = rw (sub-suc n (length xs)) (drop-append n xs ys)

  drop_nil : (n : ℕ) → drop {A = A} n [] ≡ []
  unfolding drop
  drop_nil zero = refl
  drop_nil (suc n) = refl

  drop-drop : (m n : ℕ) (xs : List A) → drop m (drop n xs) ≡ drop (n + m) xs
  unfolding drop
  drop-drop m zero xs = rw (zero_add m) refl
  drop-drop m (suc n) [] = rw (suc-add n m, drop_nil m) refl
  drop-drop m (suc n) (x ∷ xs) = rw (suc-add n m) (drop-drop m n xs)

  length-drop : (n : ℕ) (xs : List A) → length (drop n xs) ≡ length xs - n
  unfolding drop
  length-drop zero xs = omega arith
  length-drop (suc n) [] = omega arith
  length-drop (suc n) (x ∷ xs) = omega (arith, length-drop n xs)

  pub length-last : (n : ℕ) (xs : List A) → length (last n xs) ≤ n
  unfolding last
  length-last n xs = omega (arith, length-drop (length xs - n) xs)

  drop_zero : (xs ys : List A) → xs ++ drop 0 ys ≡ xs ++ ys
  unfolding drop
  drop_zero xs ys = refl

  drop_first : (n : ℕ) (xs ys : List A) → n ≤ length xs → drop n (xs ++ ys) ≡ drop n xs ++ ys
  drop_first n xs ys h =
      let none_over : n - length xs ≡ 0 = omega arith in
      drop-append n xs ys ∙ rw none_over (drop_zero (drop n xs) ys)

  -- What is beyond the last n is forgotten for good.
  pub last-append : (n : ℕ) (xs ys : List A) → last n (last n xs ++ ys) ≡ last n (xs ++ ys)
  unfolding last
  last-append n xs ys =
      let k = length xs - n in
      ap (λ zs. drop (length zs - n) zs) (sym (drop_first k xs ys (omega arith)))
      ∙ drop-drop (length (drop k (xs ++ ys)) - n) k (xs ++ ys)
      ∙ ap (λ i. drop i (xs ++ ys)) (omega (arith, length-drop k (xs ++ ys), length-append xs ys))

  last_shorter : (n : ℕ) (xs : List A) → length xs ≤ n → last n xs ≡ xs
  unfolding last
  last_shorter n xs h =
      let none_over : length xs - n ≡ 0 = omega arith in rw none_over (drop_zero [] xs)

  drop_past : (k : ℕ) (xs ys : List A) → drop (length xs + k) (xs ++ ys) ≡ drop k ys
  unfolding drop
  drop_past k [] ys = rw (zero_add k) refl
  drop_past k (x ∷ xs) ys = rw (suc-add (length xs) k) (drop_past k xs ys)

  last_longer : (n : ℕ) (xs ys : List A) → n ≤ length ys → last n (xs ++ ys) ≡ last n ys
  unfolding last
  last_longer n xs ys h =
      ap (λ k. drop k (xs ++ ys)) (omega (arith, length-append xs ys))
      ∙ drop_past (length ys - n) xs ys

  last_full : (n : ℕ) (xs : List A) → n ≤ length xs → n ≤ length (last n xs)
  unfolding last
  last_full n xs h = omega (arith, length-drop (length xs - n) xs)

  pub last-last : (n : ℕ) (xs ys : List A) → last n (xs ++ last n ys) ≡ last n (xs ++ ys)
  last-last n xs ys = elim (Bool-cases (leb (length ys) n)) [
    | inl short ↦ rw (last_shorter n ys (leb→le (length ys) n short)) refl
    | inr long ↦
        last_longer n xs (last n ys) (last_full n ys (ground arith))
        ∙ last_shorter n (last n ys) (length-last n ys)
        ∙ sym (last_longer n xs ys (ground arith))
  ]
