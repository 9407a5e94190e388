-- ===== src/Runner/Queues.antt =====
-- multicore_runner_queue.c: the functions, and the steps of the two cores. A blocking call of the
-- queue library is a step that is possible when it need not wait. An `int32_t` is a word: arguments
-- below 2^31 are meant, and a result of 2^31 or more, an overflow that C leaves undefined, is taken as
-- the wrapped word.
use pico_cpp.Common.{
  ℕ, zero, suc, ◌+◌, ◌*◌, ◌-◌, ◌<◌, List, [], ◌∷◌, ◌++◌, Option, none, some, Bool, true, false,
}
use pico_cpp.Common.{◌==◌, if◌then◌else◌, u32, length}

-- The loop from `i` on, with so many turns left.
unfoldable pub factorial_loop : ℕ → ℕ → ℕ → ℕ
factorial_loop zero i f = f
factorial_loop (suc turns) i f = factorial_loop turns (suc i) (u32 (f * i))

-- For `n` below 2^31, which is not negative.
unfoldable pub factorial : ℕ → ℕ
unfolding factorial_loop
factorial n = factorial_loop (n - 1) 2 1

unfoldable pub fibonacci_loop : ℕ → ℕ → ℕ → ℕ → ℕ
fibonacci_loop zero n1 n2 n3 = n3
fibonacci_loop (suc turns) n1 n2 n3 = let n3 = u32 (n1 + n2) in fibonacci_loop turns n2 n3 n3

unfoldable pub fibonacci : ℕ → ℕ
unfolding fibonacci_loop
fibonacci n =
    let loop = fibonacci_loop (n - 1) 0 1 0 in if n == 0 then 0 else if n == 1 then 1 else loop

pub data Func : Type 0 where
  factorial_func fibonacci_func : Func

pub record QueueEntry : Type 0 where
  pub func : Func
  pub argument : ℕ

unfoldable pub apply : QueueEntry → ℕ
unfolding factorial fibonacci
apply entry = elim entry.func [
  | factorial_func ↦ factorial entry.argument
  | fibonacci_func ↦ fibonacci entry.argument
]

-- `queue_init(.., 2)` for both queues.
abbrev pub queue_size : ℕ
queue_size = 2

-- The first core's calls to come and whether it waits for a result, what it has got, the second
-- core's entry, and the queues, the oldest element first.
pub record System : Type 0 where
  pub todo : List QueueEntry
  pub waiting : Bool
  pub got : List ℕ
  pub taken : Option QueueEntry
  pub call_queue : List QueueEntry
  pub results_queue : List ℕ

abbrev pub at_start : List QueueEntry → System
at_start requests = record {
  todo = requests;
  waiting = false;
  got = [];
  taken = none;
  call_queue = [];
  results_queue = [];
}

-- The steps of `main` and of `core1_entry`, in any order.
pub data Step : System → System → Type 0 where
  core0_adds :
      (entry : QueueEntry) (todo : List QueueEntry) (got : List ℕ) (taken : Option QueueEntry)
      (calls : List QueueEntry) (results : List ℕ)
      → length calls < queue_size
      → Step
          (record {
            todo = entry ∷ todo;
            waiting = false;
            got = got;
            taken = taken;
            call_queue = calls;
            results_queue = results;
          })
          (record {
            todo = todo;
            waiting = true;
            got = got;
            taken = taken;
            call_queue = calls ++ (entry ∷ []);
            results_queue = results;
          })
  core1_takes :
      (entry : QueueEntry) (todo : List QueueEntry) (waiting : Bool) (got : List ℕ)
      (calls : List QueueEntry) (results : List ℕ)
      → Step
          (record {
            todo = todo;
            waiting = waiting;
            got = got;
            taken = none;
            call_queue = entry ∷ calls;
            results_queue = results;
          })
          (record {
            todo = todo;
            waiting = waiting;
            got = got;
            taken = some entry;
            call_queue = calls;
            results_queue = results;
          })
  core1_adds :
      (entry : QueueEntry) (todo : List QueueEntry) (waiting : Bool) (got : List ℕ)
      (calls : List QueueEntry) (results : List ℕ)
      → length results < queue_size
      → Step
          (record {
            todo = todo;
            waiting = waiting;
            got = got;
            taken = some entry;
            call_queue = calls;
            results_queue = results;
          })
          (record {
            todo = todo;
            waiting = waiting;
            got = got;
            taken = none;
            call_queue = calls;
            results_queue = results ++ (apply entry ∷ []);
          })
  core0_removes :
      (result : ℕ) (todo : List QueueEntry) (got : List ℕ) (taken : Option QueueEntry)
      (calls : List QueueEntry) (results : List ℕ)
      → Step
          (record {
            todo = todo;
            waiting = true;
            got = got;
            taken = taken;
            call_queue = calls;
            results_queue = result ∷ results;
          })
          (record {
            todo = todo;
            waiting = false;
            got = got ++ (result ∷ []);
            taken = taken;
            call_queue = calls;
            results_queue = results;
          })

-- So many steps.
pub data Run : ℕ → System → System → Type 0 where
  stay : (s : System) → Run 0 s s
  step : (n : ℕ) (a b c : System) → Run n a b → Step b c → Run (suc n) a c
