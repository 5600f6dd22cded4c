-- ===== src/Base/Lists.antt =====
-- Lists: lengths over the native numbers, tests of all or some members, sublists.
use Prim.Native.Nat.{ℕ, suc, ◌+◌}
use mathlib.Core.Path.{◌≡◌, refl}
use mathlib.Core.Logic.{inl, inr}
use mathlib.Core.Bool.{Bool, true, false, ◌||◌}
use mathlib.Core.Option.{Option, none, some}
use mathlib.Core.List.{List, [], ◌∷◌, ◌++◌}
use native.Mathlib.Omega.{arith}
use agent_supervisor_runtime.Base.Tests.{if◌then◌else◌, Bool-cases}

module _ {ℓ} {A : Type ℓ} where
  abbrev pub length : List A → ℕ
  length [] = 0
  length (x ∷ xs) = suc (length xs)

  pub length-append : (xs ys : List A) → length (xs ++ ys) ≡ length xs + length ys
  length-append [] ys = omega arith
  length-append (x ∷ xs) ys = omega (arith, length-append xs ys)

  abbrev pub any : (A → Bool) → List A → Bool
  any p [] = false
  any p (x ∷ xs) = p x || any p xs

  abbrev pub keep : (A → Bool) → List A → List A
  keep p [] = []
  keep p (x ∷ xs) = if p x then x ∷ keep p xs else keep p xs

  -- The first member that passes.
  abbrev pub find : (A → Bool) → List A → Option A
  find p [] = none
  find p (x ∷ xs) = if p x then some x else find p xs

module _ {ℓ κ} {A : Type ℓ} where
  abbrev pub All : (A → Type κ) → List A → Type κ
  All P [] = Unit
  All P (x ∷ xs) = P x × All P xs

  pub All-append : (P : A → Type κ) (xs ys : List A) → All P xs → All P ys → All P (xs ++ ys)
  All-append P [] ys hx hy = hy
  All-append P (x ∷ xs) ys hx hy = (hx.0, All-append P xs ys hx.1 hy)

-- The members of the first list stand in the second in the same order, with others between them.
pub data InOrder {ℓ} {A : Type ℓ} : List A → List A → Type ℓ where
  done : {ys : List A} → InOrder [] ys
  take : {x y : A} {xs ys : List A} → x ≡ y → InOrder xs ys → InOrder (x ∷ xs) (y ∷ ys)
  skip : {y : A} {xs ys : List A} → InOrder xs ys → InOrder xs (y ∷ ys)

pub InOrder-tail {ℓ} : {A : Type ℓ} {x : A} {xs ys : List A} → InOrder (x ∷ xs) ys → InOrder xs ys
InOrder-tail (take e h) = skip h
InOrder-tail (skip h) = skip (InOrder-tail h)

module _ {ℓ} {A : Type ℓ} where
  pub InOrder-refl : (xs : List A) → InOrder xs xs
  InOrder-refl [] = done
  InOrder-refl (x ∷ xs) = take refl (InOrder-refl xs)

  pub InOrder-skip : {xs zs : List A} (ys : List A) → InOrder xs zs → InOrder xs (ys ++ zs)
  InOrder-skip [] h = h
  InOrder-skip (y ∷ ys) h = skip (InOrder-skip ys h)

  pub InOrder-append :
      {xs ys zs ws : List A} → InOrder xs ys → InOrder zs ws → InOrder (xs ++ zs) (ys ++ ws)
  InOrder-append (done {ys = bs}) k = InOrder-skip bs k
  InOrder-append (take e h) k = take e (InOrder-append h k)
  InOrder-append (skip h) k = skip (InOrder-append h k)

  pub InOrder-widen : {xs ys : List A} (zs : List A) → InOrder xs ys → InOrder xs (ys ++ zs)
  InOrder-widen zs done = done
  InOrder-widen zs (take e h) = take e (InOrder-widen zs h)
  InOrder-widen zs (skip h) = skip (InOrder-widen zs h)

  pub InOrder-keep :
      (p : A → Bool) {xs ys : List A}
      → All (λ x. p x ≡ true) xs
      → InOrder xs ys
      → InOrder xs (keep p ys)
  InOrder-keep p a done = done
  InOrder-keep p a (take {y = b} {ys = bs} e h) =
      let t : p b ≡ true = rw (← e) a.0 in rw t (take e (InOrder-keep p a.1 h))
  InOrder-keep p a (skip {y = b} {ys = bs} h) = elim (Bool-cases (p b)) [
    | inl t ↦ rw t (skip (InOrder-keep p a h))
    | inr f ↦ rw f (InOrder-keep p a h)
  ]
