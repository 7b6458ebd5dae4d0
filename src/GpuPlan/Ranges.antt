-- ===== src/GpuPlan/Ranges.antt =====
-- The consecutive GPUs that the plan of nano_rl/config.py cuts into pieces.
use nano_rl.Prelude.{
  ℕ, zero, suc, ◌+◌, ◌*◌, ◌≤◌, ◌<◌, ◌≡◌, refl, sym, ap, ◌∙◌, true, false, List, [], ◌∷◌, ◌++◌,
  length, take, drop, All, arith,
}
use nano_rl.Prelude.Equality.{nat_eq, contains}
use nano_rl.GpuPlan.{range_from, all_in}

pub length-range_from : (s n : ℕ) → length (range_from s n) ≡ n
unfolding range_from
length-range_from s zero = refl
length-range_from s (suc n) = ap suc (length-range_from (s + 1) n)

pub range_from-append : (s n m : ℕ) → range_from s (n + m) ≡ range_from s n ++ range_from (s + n) m
unfolding range_from
range_from-append s zero m =
    let left : zero + m ≡ m = omega arith in
    let right : s + zero ≡ s = omega arith in
    ap (λ k. range_from s k) left ∙ ap (λ k. range_from k m) (sym right)
range_from-append s (suc n) m =
    let left : suc n + m ≡ suc (n + m) = omega arith in
    let right : (s + 1) + n ≡ s + suc n = omega arith in
    ap (λ k. range_from s k) left
    ∙ ap (λ ys. s ∷ ys)
        (range_from-append (s + 1) n m ∙ ap (λ k. range_from (s + 1) n ++ range_from k m) right)

take-append : (xs ys : List ℕ) → take (length xs) (xs ++ ys) ≡ xs
take-append [] ys = refl
take-append (x ∷ xs) ys = ap (λ zs. x ∷ zs) (take-append xs ys)

drop-append : (xs ys : List ℕ) → drop (length xs) (xs ++ ys) ≡ ys
drop-append [] ys = refl
drop-append (x ∷ xs) ys = drop-append xs ys

pub take-range_from : (s n m : ℕ) → take n (range_from s (n + m)) ≡ range_from s n
take-range_from s n m =
    ap (take n) (range_from-append s n m)
    ∙ ap (λ k. take k (range_from s n ++ range_from (s + n) m)) (sym (length-range_from s n))
    ∙ take-append (range_from s n) _

pub drop-range_from : (s n m : ℕ) → drop n (range_from s (n + m)) ≡ range_from (s + n) m
drop-range_from s n m =
    ap (drop n) (range_from-append s n m)
    ∙ ap (λ k. drop k (range_from s n ++ range_from (s + n) m)) (sym (length-range_from s n))
    ∙ drop-append (range_from s n) _

contains-range_from : (x s n : ℕ) → s ≤ x → x < s + n → contains x (range_from s n) ≡ true
unfolding range_from
contains-range_from x s zero low high = absurd (omega arith)
contains-range_from x s (suc n) low high =
    ground (arith, contains-range_from x (s + 1) n, nat_eq.test_iff s x, low, high)

misses-range_from : (x s n : ℕ) → x < s → contains x (range_from s n) ≡ false
unfolding range_from
misses-range_from x s zero low = refl
misses-range_from x s (suc n) low =
    ground (arith, misses-range_from x (s + 1) n, nat_eq.test_iff s x, low)

pub all_in-range_from :
    (s n a b : ℕ) → a ≤ s → s + n ≤ a + b → all_in (range_from s n) (range_from a b) ≡ true
unfolding range_from
all_in-range_from s zero a b low high = refl
all_in-range_from s (suc n) a b low high =
    rw (contains-range_from s a b low (omega arith))
      (all_in-range_from (s + 1) n a b (omega arith) (omega arith))

pub not_all_in-range_from :
    (s n a b : ℕ) → s < a → all_in (range_from s (suc n)) (range_from a b) ≡ false
unfolding range_from
not_all_in-range_from s n a b low = rw (misses-range_from s a b low) refl

pub range_from-from : (s n a : ℕ) → a ≤ s → All (λ x. a ≤ x) (range_from s n)
unfolding range_from
range_from-from s zero a h = tt
range_from-from s (suc n) a h = (h, range_from-from (s + 1) n a (omega arith))

pub range_from-below : (s n a : ℕ) → s + n ≤ a → All (λ x. x < a) (range_from s n)
unfolding range_from
range_from-below s zero a h = tt
range_from-below s (suc n) a h = (omega arith, range_from-below (s + 1) n a (omega arith))

pub times_suc : (n m : ℕ) → suc n * m ≡ m + n * m
times_suc n m = grind arith

pub count_fits : (n t : ℕ) → n ≤ n * suc t
count_fits zero t = omega arith
count_fits (suc n) t = omega (arith, times_suc n (suc t), count_fits n t)
