-- ===== src/Prelude/Equality.antt =====
-- Python's `==` as an interface: a Boolean test that decides the equality of its type.
use Prim.Native.Nat.{ℕ, ◌+◌, ◌≤◌}
use Prim.Native.String.{String}
use mathlib.Core.Path.{◌≡◌, refl, ap}
use mathlib.Core.Logic.{◌↔◌}
use mathlib.Core.Bool.{Bool, true, false}
use mathlib.Core.Option.{Option, none, some}
use mathlib.Core.List.{List, [], ◌∷◌, ◌++◌}
use native.Mathlib.Omega.{arith}
use text.Mathlib.Text.{◌==◌ as str_eq}
use text.Mathlib.TextEquality.{eq_iff}
use nano_rl.Prelude.Tests.{nat_beq, nat_beq_iff, one, if◌then◌else◌}

pub record HasEq {ℓ} (A : Type ℓ) : Type ℓ where
  pub test : A → A → Bool
  pub test_iff : (a b : A) → (test a b ≡ true) ↔ (a ≡ b)

infix 50 ◌==◌
-- `a == b` in the source
abbrev pub ◌==◌ {ℓ} : {A : Type ℓ} ⦃e : HasEq A⦄ (a b : A) → Bool
◌==◌ ⦃e⦄ a b = e.test a b

instance abbrev pub nat_eq : HasEq ℕ
nat_eq = record { test = nat_beq; test_iff = nat_beq_iff }

instance abbrev pub string_eq : HasEq String
string_eq = record { test = str_eq; test_iff = eq_iff }

module _ {ℓ κ} {A : Type ℓ} {B : Type κ} ⦃d : HasEq A⦄ ⦃e : HasEq B⦄ where
  abbrev pair_test : A × B → A × B → Bool
  pair_test (a, b) (x, y) = if d.test a x then e.test b y else false

  pub pair_test_iff : (p q : A × B) → (pair_test p q ≡ true) ↔ (p ≡ q)
  pair_test_iff p q = ground (arith, d.test_iff p.0 q.0, e.test_iff p.1 q.1)

  instance abbrev pub pair_eq : HasEq (A × B)
  pair_eq = record { test = pair_test; test_iff = pair_test_iff }

module _ {ℓ} {A : Type ℓ} ⦃e : HasEq A⦄ where
  pub beq_refl : (a : A) → (a == a) ≡ true
  beq_refl a = (e.test_iff a a).1 refl

  -- `Optional[A]` compared with a value
  abbrev pub is_some_of : Option A → A → Bool
  is_some_of none a = false
  is_some_of (some b) a = b == a

  pub is_some_of-eq : (o : Option A) (a : A) → is_some_of o a ≡ true → o ≡ some a
  is_some_of-eq none a h = cc
  is_some_of-eq (some b) a h = ap some ((e.test_iff b a).0 h)

  pub is_some_of_refl : (o : Option A) (a : A) → o ≡ some a → is_some_of o a ≡ true
  is_some_of_refl o a h = rw h (beq_refl a)

  -- `a in xs`, for a tuple, a list or a set
  abbrev pub contains : A → List A → Bool
  contains a [] = false
  contains a (x ∷ xs) = if x == a then true else contains a xs

  -- `xs.add(a)`, for a set
  abbrev pub add : A → List A → List A
  add a xs = if contains a xs then xs else xs ++ (a ∷ [])

  pub contains-append :
      (a : A) (xs ys : List A)
      → contains a (xs ++ ys) ≡ (if contains a xs then true else contains a ys)
  contains-append a [] ys = refl
  contains-append a (x ∷ xs) ys = ground (arith, contains-append a xs ys)

  pub contains-add :
      (b a : A) (xs : List A) → contains b (add a xs) ≡ (if a == b then true else contains b xs)
  contains-add b a xs = ground (arith, contains-append b xs (a ∷ []), e.test_iff a b)

  unfoldable pub count : A → List A → ℕ
  count a [] = 0
  count a (x ∷ xs) = (if x == a then 1 else 0) + count a xs

  pub count-pos : (a : A) (xs : List A) → contains a xs ≡ true → 1 ≤ count a xs
  unfolding count
  count-pos a [] h = cc
  count-pos a (x ∷ xs) h = ground (arith, count-pos a xs)

  pub count-zero : (a : A) (xs : List A) → contains a xs ≡ false → count a xs ≡ 0
  unfolding count
  count-zero a [] h = refl
  count-zero a (x ∷ xs) h = ground (arith, count-zero a xs)

  -- No element stands twice.
  abbrev pub Unique : List A → Type 0
  Unique [] = Unit
  Unique (x ∷ xs) = (contains x xs ≡ false) × Unique xs

  pub count-Unique : (a : A) (xs : List A) → Unique xs → count a xs ≡ one (contains a xs)
  unfolding count
  count-Unique a [] u = refl
  count-Unique a (x ∷ xs) u = ground (arith, count-Unique a xs u.1, e.test_iff x a)

  pub Unique-snoc :
      (xs : List A) (a : A) → Unique xs → contains a xs ≡ false → Unique (xs ++ (a ∷ []))
  Unique-snoc [] a u h = (refl, tt)
  Unique-snoc (x ∷ xs) a u h =
      ground
        (arith, Unique-snoc xs a u.1, contains-append x xs (a ∷ []), e.test_iff x a, e.test_iff a x)
