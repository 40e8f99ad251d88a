-- ===== src/Prelude/Identity.antt =====
-- Identity columns: the rows of a table newest first, their ids falling and below the next one.
use mathlib.Core.List.{Memᴰ}
use ocm.Prelude.Tests.{◌==◌, Bool-cases}
use ocm.Prelude.Lists.{find}
use ocm.Prelude.Tables.{update_where}
use Prim.Native.Nat.{ℕ, ◌<◌}
use mathlib.Core.Path.{◌≡◌, sym, ap}
use mathlib.Core.Logic.{inl, inr}
use mathlib.Core.Bool.{Bool, true, false}
use mathlib.Core.List.{List, [], ◌∷◌}
use mathlib.Core.Option.{some}
use native.Mathlib.Omega.{arith}

module _ {ℓ} {A : Type ℓ} (key : A → ℕ) where
  abbrev pub Keys : ℕ → List A → Type 0
  Keys n [] = Unit
  Keys n (x ∷ xs) = (key x < n) × Keys (key x) xs

  pub key_below : {x : A} (n : ℕ) (xs : List A) → Keys n xs → Memᴰ x xs → key x < n
  key_below n [] k m = elim m [ ]
  key_below n (y ∷ xs) k (Memᴰ.head e) = omega (arith, ap key e)
  key_below n (y ∷ xs) k (Memᴰ.tail m) = omega (arith, key_below (key y) xs k.1 m)

  -- A row is the one that its key finds.
  pub find_of_mem :
      {x : A} (n : ℕ) (xs : List A) → Keys n xs → Memᴰ x xs → find (λ y. key y == key x) xs ≡ some x
  find_of_mem n [] k m = elim m [ ]
  find_of_mem {x} n (y ∷ xs) k (Memᴰ.head e) =
      let same : (key y == key x) ≡ true = ground (arith, ap key e) in rw same (ap some (sym e))
  find_of_mem {x} n (y ∷ xs) k (Memᴰ.tail m) =
      let other : (key y == key x) ≡ false = ground (arith, key_below (key y) xs k.1 m) in
      rw other (find_of_mem (key y) xs k.1 m)

  -- An UPDATE that leaves the key alone.
  pub Keys-update_where :
      (p : A → Bool) (f : A → A) (n : ℕ) (xs : List A)
      → ((x : A) → key (f x) ≡ key x)
      → Keys n xs
      → Keys n (update_where p f xs)
  Keys-update_where p f n [] same k = tt
  Keys-update_where p f n (x ∷ xs) same k = elim (Bool-cases (p x)) [
    | inl e ↦ rw (e, same x) (k.0, Keys-update_where p f (key x) xs same k.1)
    | inr e ↦ rw e (k.0, Keys-update_where p f (key x) xs same k.1)
  ]
