-- ===== src/Prelude/Tables.antt =====
-- Database tables as lists of rows: the meaning of the SQL statements that the stores issue.
-- A statement may fail for reasons outside the program; see `Faults`.
use Prim.Native.Nat.{ℕ, suc}
use mathlib.Core.Bool.{Bool, true, false}
use mathlib.Core.Path.{◌≡◌, refl, ap}
use mathlib.Core.Logic.{◌⊎◌, inl, inr}
use mathlib.Core.List.{List, [], ◌∷◌, Memᴰ}
use ocm.Prelude.Tests.{Bool-cases, if◌then◌else◌}
use ocm.Prelude.Lists.{any}

-- `UPDATE t SET f WHERE p`.
abbrev pub update_where {ℓ} : {A : Type ℓ} → (A → Bool) → (A → A) → List A → List A
update_where p f [] = []
update_where p f (x ∷ xs) = (if p x then f x else x) ∷ update_where p f xs

-- The `RowsAffected` of that statement.
abbrev pub count_where {ℓ} : {A : Type ℓ} → (A → Bool) → List A → ℕ
count_where p [] = 0
count_where p (x ∷ xs) = let rest = count_where p xs in if p x then suc rest else rest

-- `DELETE FROM t WHERE p`.
abbrev pub delete_where {ℓ} : {A : Type ℓ} → (A → Bool) → List A → List A
delete_where p [] = []
delete_where p (x ∷ xs) = let rest = delete_where p xs in if p x then rest else x ∷ rest

-- The statements of one call, in the order in which it issues them; each call names its own by
-- position. `Faults` says which of them the database, or the connection to it, refuses.
abbrev pub Faults : Type 0
Faults = ℕ → Bool

abbrev pub no_faults : Faults
no_faults _ = false

module _ {ℓ} {A : Type ℓ} (p : A → Bool) (f : A → A) where
  -- A row that the WHERE clause does not select stays.
  pub mem-update_where :
      {x : A} (xs : List A) → Memᴰ x xs → p x ≡ false → Memᴰ x (update_where p f xs)
  mem-update_where [] m h = elim m [ ]
  mem-update_where (y ∷ xs) (Memᴰ.head e) h = let g : p y ≡ false = rw (← e) h in rw g (Memᴰ.head e)
  mem-update_where (y ∷ xs) (Memᴰ.tail m) h = Memᴰ.tail (mem-update_where xs m h)

  -- A row of the new table was there before, or is a selected row rewritten.
  pub mem_of_update_where :
      {x : A} (xs : List A)
      → Memᴰ x (update_where p f xs)
      → Memᴰ x xs ⊎ ((y : A) × Memᴰ y xs × (p y ≡ true) × (x ≡ f y))
  mem_of_update_where [] m = elim m [ ]
  mem_of_update_where (y ∷ xs) (Memᴰ.head e) = elim (Bool-cases (p y)) [
    | inl h ↦ inr (y, Memᴰ.head refl, h, rw h at e)
    | inr h ↦ inl (Memᴰ.head (rw h at e))
  ]
  mem_of_update_where (y ∷ xs) (Memᴰ.tail m) = elim (mem_of_update_where xs m) [
    | inl k ↦ inl (Memᴰ.tail k)
    | inr (z, k, h, e) ↦ inr (z, Memᴰ.tail k, h, e)
  ]

  -- A test that the rewriting leaves alone.
  pub any-update_where :
      (test : A → Bool) (xs : List A)
      → ((x : A) → test (f x) ≡ test x)
      → any test (update_where p f xs) ≡ any test xs
  any-update_where test [] same = refl
  any-update_where test (x ∷ xs) same = elim (Bool-cases (p x)) [
    | inl e ↦ rw (e, same x, any-update_where test xs same)
    | inr e ↦ rw (e, any-update_where test xs same)
  ]

  -- A row that the WHERE clause selects is there rewritten.
  pub mem-updated :
      {x : A} (xs : List A) → Memᴰ x xs → p x ≡ true → Memᴰ (f x) (update_where p f xs)
  mem-updated [] m h = elim m [ ]
  mem-updated (y ∷ xs) (Memᴰ.head e) h =
      let g : p y ≡ true = rw (← e) h in rw g (Memᴰ.head (ap f e))
  mem-updated (y ∷ xs) (Memᴰ.tail m) h = Memᴰ.tail (mem-updated xs m h)

module _ {ℓ} {A : Type ℓ} (p : A → Bool) where
  -- A row that is left by a deletion was there.
  pub mem_of_delete_where : {x : A} (xs : List A) → Memᴰ x (delete_where p xs) → Memᴰ x xs
  mem_of_delete_where [] m = elim m [ ]
  mem_of_delete_where (y ∷ ys) m = elim (Bool-cases (p y)) [
    | inl e ↦ Memᴰ.tail (mem_of_delete_where ys (rw e at m))
    | inr e ↦ elim (rw e at m) [
      | Memᴰ.head h ↦ Memᴰ.head h
      | Memᴰ.tail t ↦ Memᴰ.tail (mem_of_delete_where ys t)
    ]
  ]

  -- A row that the WHERE clause does not select is left.
  pub mem-delete_where :
      {x : A} (xs : List A) → Memᴰ x xs → p x ≡ false → Memᴰ x (delete_where p xs)
  mem-delete_where [] m h = elim m [ ]
  mem-delete_where (y ∷ ys) (Memᴰ.head e) h = let g : p y ≡ false = rw (← e) h in rw g (Memᴰ.head e)
  mem-delete_where (y ∷ ys) (Memᴰ.tail m) h = elim (Bool-cases (p y)) [
    | inl e ↦ rw e (mem-delete_where ys m h)
    | inr e ↦ rw e (Memᴰ.tail (mem-delete_where ys m h))
  ]
