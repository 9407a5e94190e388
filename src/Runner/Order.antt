-- ===== src/Runner/Order.antt =====
-- multicore_runner_queue.c: the program as a whole.
use pico_cpp.Common.{ℕ, ◌*◌, ◌≡◌, ◌⊎◌, inl, inr, ◌∙◌, refl, sym, ap₂, arith}
use pico_cpp.Common.{List, [], ◌∷◌, map, length, ltb, Bool-cases}
use pico_cpp.Runner.Queues.{QueueEntry, System, Step, Run, at_start, apply}
use pico_cpp.Runner.Results.{run-Sound, goes_on, all_got, steps_left}
use pico_cpp.Runner.Numbers.{reference, apply-reference}

map-reference : (requests : List QueueEntry) → map apply requests ≡ map reference requests
map-reference [] = refl
map-reference (request ∷ requests) =
    ap₂ (λ x xs. x ∷ xs) (apply-reference request.func request.argument) (map-reference requests)

-- In every interleaving of the two cores over any list of requests: after `n` steps some core can go
-- on, or the program has ended after exactly four steps for each request, and then the first core
-- has the results that the requests ask for, as words of 32 bits and in the order of the requests.
-- Arguments stand for `int32_t` that are not negative; where the exact result is not below 2^31, signed
-- arithmetic of C overflows, and the theorem speaks of the wrapped word.
pub results_in_order :
    (requests : List QueueEntry) (n : ℕ) (s : System)
    → Run n (at_start requests) s
    → ((next : System) × Step s next)
      ⊎ ((n ≡ 4 * length requests) × (s.got ≡ map reference requests))
results_in_order requests n s r =
    let h = run-Sound requests n s r in
    elim (Bool-cases (ltb 0 (steps_left s))) [
      | inl more ↦ inl (
          goes_on s.todo s.waiting s.got s.taken s.call_queue s.results_queue h.balance
            (ground arith))
      | inr ended ↦
          let none_left : steps_left s ≡ 0 = ground arith in
          inr (
            omega (arith, none_left, h.left),
            sym (all_got s.todo s.got s.taken s.call_queue s.results_queue none_left)
                ∙ h.order
                ∙ map-reference requests,
          )
    ]
