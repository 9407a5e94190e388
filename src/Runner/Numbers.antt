-- ===== src/Runner/Numbers.antt =====
-- multicore_runner_queue.c: the two functions against their recursive definitions, modulo 2 ^ 32.
use pico_cpp.Common.{ℕ, zero, suc, ◌+◌, ◌-◌, ◌*◌, ◌/◌, ◌%◌, ◌^◌, ◌≡◌, ◌∙◌, refl, ap, sym, arith}
use pico_cpp.Common.{u32, ◌==◌, false}
use native.Mathlib.Nat.{add-mul-mod_self_right, mul_comm}
use pico_cpp.Runner.Queues.{
  factorial_loop, factorial, fibonacci_loop, fibonacci, Func, factorial_func,
}
use pico_cpp.Runner.Queues.{fibonacci_func, QueueEntry, apply}

abbrev pub fact : ℕ → ℕ
fact zero = 1
fact (suc k) = suc k * fact k

abbrev pub fib : ℕ → ℕ
fib zero = 0
fib (suc zero) = 1
fib (suc (suc k)) = fib k + fib (suc k)

times_word : (a i : ℕ) → u32 (u32 a * i) ≡ u32 (a * i)
times_word a i =
    let parts : a ≡ a % 2 ^ 32 + a / 2 ^ 32 * 2 ^ 32 = omega arith in
    let product : a * i ≡ a % 2 ^ 32 * i + a / 2 ^ 32 * i * 2 ^ 32 =
      ap (λ t. t * i) parts ∙ spread (a % 2 ^ 32) (a / 2 ^ 32) i in
    sym (ap u32 product ∙ add-mul-mod_self_right (a % 2 ^ 32 * i) (a / 2 ^ 32 * i) (2 ^ 32))
  where
    spread : (r q i : ℕ) → (r + q * 2 ^ 32) * i ≡ r * i + q * i * 2 ^ 32
    spread r q i = omega arith

factorial_loop_lem :
    (turns k : ℕ) → factorial_loop turns (suc k) (u32 (fact k)) ≡ u32 (fact (k + turns))
unfolding factorial_loop
factorial_loop_lem zero k = let e : k + 0 ≡ k = omega arith in ap (λ n. u32 (fact n)) (sym e)
factorial_loop_lem (suc turns) k =
    let e : suc k + turns ≡ k + suc turns = omega arith in
    let swap : fact k * suc k ≡ suc k * fact k = mul_comm (fact k) (suc k) in
    ap (factorial_loop turns (suc (suc k))) (times_word (fact k) (suc k) ∙ ap u32 swap)
    ∙ factorial_loop_lem turns (suc k)
    ∙ ap (λ n. u32 (fact n)) e

factorial_lem : (n : ℕ) → factorial n ≡ u32 (fact n)
unfolding factorial
factorial_lem zero = refl
factorial_lem (suc n) =
    let e : suc n - 1 ≡ n = omega arith in
    let f : 1 + n ≡ suc n = omega arith in
    ap (λ t. factorial_loop t 2 1) e ∙ factorial_loop_lem n 1 ∙ ap (λ m. u32 (fact m)) f

fibonacci_loop_lem :
    (turns k n3 : ℕ)
    → fibonacci_loop (suc turns) (u32 (fib k)) (u32 (fib (suc k))) n3
      ≡ u32 (fib (suc (suc k) + turns))
unfolding fibonacci_loop
fibonacci_loop_lem zero k n3 =
    let e : suc (suc k) + 0 ≡ suc (suc k) = omega arith in
    sum (fib k) (fib (suc k)) ∙ ap (λ n. u32 (fib n)) (sym e)
  where
    sum : (a b : ℕ) → u32 (u32 a + u32 b) ≡ u32 (a + b)
    sum a b = omega arith
fibonacci_loop_lem (suc turns) k n3 =
    let e : suc (suc (suc k)) + turns ≡ suc (suc k) + suc turns = omega arith in
    let next = sum (fib k) (fib (suc k)) in
    ap (λ x. fibonacci_loop (suc turns) (u32 (fib (suc k))) x x) next
    ∙ fibonacci_loop_lem turns (suc k) (u32 (fib (suc (suc k))))
    ∙ ap (λ n. u32 (fib n)) e
  where
    sum : (a b : ℕ) → u32 (u32 a + u32 b) ≡ u32 (a + b)
    sum a b = omega arith

fibonacci_lem : (n : ℕ) → fibonacci n ≡ u32 (fib n)
unfolding fibonacci fibonacci_loop
fibonacci_lem zero = refl
fibonacci_lem (suc zero) = refl
fibonacci_lem (suc (suc n)) =
    let e : suc (suc n) - 1 ≡ suc n = omega arith in
    let f : 2 + n ≡ suc (suc n) = omega arith in
    let many : (suc (suc n) == 0) ≡ false = ground arith in
    let more : (suc (suc n) == 1) ≡ false = ground arith in
    rw (fibonacci, many, more)
      (ap (λ t. fibonacci_loop t 0 1 0) e ∙ fibonacci_loop_lem n 0 0 ∙ ap (λ m. u32 (fib m)) f)

-- What a request asks for.
abbrev pub reference : QueueEntry → ℕ
reference entry = elim entry.func [
  | factorial_func ↦ u32 (fact entry.argument)
  | fibonacci_func ↦ u32 (fib entry.argument)
]

-- The two functions give the factorial and the Fibonacci number of an argument that is not negative,
-- modulo 2 ^ 32.
pub apply-reference :
    (func : Func) (n : ℕ)
    → apply (record { func = func; argument = n })
      ≡ reference (record { func = func; argument = n })
unfolding apply
apply-reference factorial_func n = factorial_lem n
apply-reference fibonacci_func n = fibonacci_lem n
