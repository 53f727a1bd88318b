-- ===== src/Base/Lists.antt =====
-- Lists measured and indexed by native numbers, under the library's names.
use Prim.Native.Nat.{ℕ, zero, suc, ◌+◌, ◌/◌, ◌%◌, ◌^◌}
use mathlib.Core.Path.{◌≡◌, refl, sym, ◌∙◌}
use mathlib.Core.List.{List, [], ◌∷◌, ◌++◌, append-nil}
use mathlib.Core.Option.{Option, none, some}
use native.Mathlib.Omega.{arith}

module _ {ℓ} {A : Type ℓ} where
  abbrev pub length : List A → ℕ
  length [] = 0
  length (x ∷ xs) = suc (length xs)

  abbrev pub get_elem? : List A → ℕ → Option A
  get_elem? [] i = none
  get_elem? (x ∷ xs) zero = some x
  get_elem? (x ∷ xs) (suc i) = get_elem? xs i

  abbrev pub last : List A → Option A
  last [] = none
  last (x ∷ []) = some x
  last (x ∷ y ∷ xs) = last (y ∷ xs)

  -- The element of a list that has one only.
  abbrev pub single : List A → Option A
  single [] = none
  single (x ∷ []) = some x
  single (x ∷ y ∷ xs) = none

  abbrev pub head : List A → Option A
  head [] = none
  head (x ∷ xs) = some x

  abbrev pub take : ℕ → List A → List A
  take zero xs = []
  take (suc n) [] = []
  take (suc n) (x ∷ xs) = x ∷ take n xs

  abbrev pub replicate : ℕ → A → List A
  replicate zero a = []
  replicate (suc n) a = a ∷ replicate n a

  pub length-append : (xs ys : List A) → length (xs ++ ys) ≡ length xs + length ys
  length-append [] ys = omega arith
  length-append (x ∷ xs) ys = omega (arith, length-append xs ys)

  pub append-inj : (a b x y : List A) → length a ≡ length b → a ++ x ≡ b ++ y → (a ≡ b) × (x ≡ y)
  append-inj [] [] x y h e = (refl, e)
  append-inj [] (v ∷ b) x y h e = absurd (omega arith)
  append-inj (u ∷ a) [] x y h e = absurd (omega arith)
  append-inj (u ∷ a) (v ∷ b) x y h e =
      ground (arith, append-inj a b x y (omega arith) (ground arith))

  pub append_cancel : (a : List A) {x y : List A} → a ++ x ≡ a ++ y → x ≡ y
  append_cancel a {x} {y} e = (append-inj a a x y refl e).1

  pub append_nil_inj : {a b : List A} → a ++ [] ≡ b ++ [] → a ≡ b
  append_nil_inj {a} {b} e = sym (append-nil a) ∙ e ∙ append-nil b

-- A predicate of every element.
abbrev pub All {ℓ κ} : {A : Type ℓ} → (A → Type κ) → List A → Type κ
All P [] = Unit
All P (x ∷ xs) = P x × All P xs

-- `to_be_bytes` of an unsigned integer of `n` bytes.
pub be_bytes : ℕ → ℕ → List ℕ
be_bytes zero x = []
be_bytes (suc n) x = (x / 256 ^ n % 256) ∷ be_bytes n x
