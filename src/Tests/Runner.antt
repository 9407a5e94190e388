-- ===== src/Tests/Runner.antt =====
-- The two cores on concrete inputs.
use pico_cpp.Common.{◌≡◌, ◌*◌, ◌⊎◌, refl, arith, List, [], ◌∷◌, none, true, map, length}
use pico_cpp.Runner.Queues.{QueueEntry, System, Step, stay, step, at_start, factorial_func}
use pico_cpp.Runner.Queues.{fibonacci_func, core0_adds, apply}
use pico_cpp.Runner.Numbers.{reference}
use pico_cpp.Runner.Order.{results_in_order}

abbrev requests : List QueueEntry
requests =
    record { func = factorial_func; argument = 10 }
    ∷ record { func = fibonacci_func; argument = 10 }
    ∷ []

answers : map apply requests ≡ 3628800 ∷ 55 ∷ []
unfolding apply
answers = refl

abbrev asked : System
asked = record {
  todo = record { func = fibonacci_func; argument = 10 } ∷ [];
  waiting = true;
  got = [];
  taken = none;
  call_queue = record { func = factorial_func; argument = 10 } ∷ [];
  results_queue = [];
}

results_in_order_example :
    ((next : System) × Step asked next)
    ⊎ ((1 ≡ 4 * length requests) × (asked.got ≡ map reference requests))
results_in_order_example = results_in_order requests 1 asked (
    step 0 (at_start requests) (at_start requests) asked (stay (at_start requests)) (
      core0_adds (record { func = factorial_func; argument = 10 })
        (record { func = fibonacci_func; argument = 10 } ∷ []) [] none [] [] (omega arith)))
