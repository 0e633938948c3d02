-- ===== src/Prelude/Slices.antt =====
-- The start and the rest of a list: `take` and `drop` of joined, padded and short lists.
use Prim.Native.Nat.{ℕ, zero, suc, ◌+◌, ◌-◌, ◌≤◌}
use mathlib.Core.Path.{◌≡◌, refl, ap}
use mathlib.Core.List.{List, [], ◌∷◌, ◌++◌}
use native.Mathlib.Omega.{arith}
use spead.Prelude.Lists.{length, take, drop, replicate}

module _ {ℓ} {A : Type ℓ} where
  pub take-append :
      (n : ℕ) (xs ys : List A) → take n (xs ++ ys) ≡ take n xs ++ take (n - length xs) ys
  take-append zero [] ys = refl
  take-append (suc n) [] ys = let all : suc n - 0 ≡ suc n = omega arith in rw all refl
  take-append zero (x ∷ xs) ys = let nil : 0 - suc (length xs) ≡ 0 = omega arith in rw nil refl
  take-append (suc n) (x ∷ xs) ys =
      let less : suc n - suc (length xs) ≡ n - length xs = omega arith in
      rw less (ap (◌∷◌ x) (take-append n xs ys))

  pub drop-append :
      (n : ℕ) (xs ys : List A) → drop n (xs ++ ys) ≡ drop n xs ++ drop (n - length xs) ys
  drop-append zero [] ys = refl
  drop-append (suc n) [] ys = let all : suc n - 0 ≡ suc n = omega arith in rw all refl
  drop-append zero (x ∷ xs) ys = let nil : 0 - suc (length xs) ≡ 0 = omega arith in rw nil refl
  drop-append (suc n) (x ∷ xs) ys =
      let less : suc n - suc (length xs) ≡ n - length xs = omega arith in
      rw less ((drop-append n xs ys))

  pub take_all : (n : ℕ) (xs : List A) → length xs ≤ n → take n xs ≡ xs
  take_all zero [] h = refl
  take_all zero (x ∷ xs) h = absurd (omega arith)
  take_all (suc n) [] h = refl
  take_all (suc n) (x ∷ xs) h = ap (◌∷◌ x) (take_all n xs (omega arith))

  pub drop_all : (n : ℕ) (xs : List A) → length xs ≤ n → drop n xs ≡ []
  drop_all zero [] h = refl
  drop_all zero (x ∷ xs) h = absurd (omega arith)
  drop_all (suc n) [] h = refl
  drop_all (suc n) (x ∷ xs) h = drop_all n xs (omega arith)

  pub drop-drop : (m n : ℕ) (xs : List A) → drop m (drop n xs) ≡ drop (n + m) xs
  drop-drop m zero xs = let same : 0 + m ≡ m = omega arith in rw same refl
  drop-drop zero (suc n) [] = let some_of : suc n + 0 ≡ suc n = omega arith in rw some_of refl
  drop-drop (suc m) (suc n) [] =
      let more : suc n + suc m ≡ suc (n + suc m) = omega arith in rw more refl
  drop-drop m (suc n) (x ∷ xs) =
      let more : suc n + m ≡ suc (n + m) = omega arith in rw more (drop-drop m n xs)

  pub drop-replicate : (n m : ℕ) (x : A) → drop n (replicate m x) ≡ replicate (m - n) x
  drop-replicate zero m x = let same : m - 0 ≡ m = omega arith in rw same refl
  drop-replicate (suc n) zero x = let nil : 0 - suc n ≡ 0 = omega arith in rw nil refl
  drop-replicate (suc n) (suc m) x =
      let less : suc m - suc n ≡ m - n = omega arith in rw less (drop-replicate n m x)

  pub take-replicate : (n m : ℕ) (x : A) → n ≤ m → take n (replicate m x) ≡ replicate n x
  take-replicate zero m x h = refl
  take-replicate (suc n) zero x h = absurd (omega arith)
  take-replicate (suc n) (suc m) x h = ap (◌∷◌ x) (take-replicate n m x (omega arith))
