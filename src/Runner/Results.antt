-- ===== src/Runner/Results.antt =====
-- multicore_runner_queue.c: in every interleaving of the two cores the results come in the order of
-- the calls, no core waits for ever, and the program ends.
use pico_cpp.Common.{ℕ, suc, ◌+◌, ◌*◌, ◌<◌, ◌≡◌, ◌∙◌, refl, ap, arith, List, [], ◌∷◌, ◌++◌, map}
use pico_cpp.Common.{Option, none, some, Bool, true, false, length, length-append}
use pico_cpp.Runner.Queues.{QueueEntry, System, Step, Run, stay, step, at_start, apply}
use pico_cpp.Runner.Queues.{core0_adds, core1_takes, core1_adds, core0_removes}

abbrev one_taken : Option QueueEntry → List ℕ
one_taken none = []
one_taken (some entry) = apply entry ∷ []

-- What the first core has got and will get.
abbrev pub view : System → List ℕ
view s =
    s.got
    ++ (s.results_queue ++ (one_taken s.taken ++ (map apply s.call_queue ++ map apply s.todo)))

abbrev flag : Bool → ℕ
flag true = 1
flag false = 0

abbrev count : Option QueueEntry → ℕ
count none = 0
count (some entry) = 1

-- How many entries and results are under way.
abbrev under_way : System → ℕ
under_way s = length s.call_queue + count s.taken + length s.results_queue

-- How many steps are left.
abbrev pub steps_left : System → ℕ
steps_left s =
    4 * length s.todo + 3 * length s.call_queue + 2 * count s.taken + length s.results_queue

map-append_one :
    (xs ys : List QueueEntry) (entry : QueueEntry)
    → map apply (xs ++ (entry ∷ [])) ++ map apply ys ≡ map apply xs ++ (apply entry ∷ map apply ys)
map-append_one [] ys entry = refl
map-append_one (x ∷ xs) ys entry = ap (λ l. apply x ∷ l) (map-append_one xs ys entry)

append_one : (xs : List ℕ) (x : ℕ) (ys : List ℕ) → (xs ++ (x ∷ [])) ++ ys ≡ xs ++ (x ∷ ys)
append_one [] x ys = refl
append_one (y ∷ xs) x ys = ap (λ l. y ∷ l) (append_one xs x ys)

view_kept : (a b : System) → Step a b → view b ≡ view a
view_kept a b (core0_adds entry todo got taken calls results room) =
    ap (λ l. got ++ (results ++ (one_taken taken ++ l))) (map-append_one calls todo entry)
view_kept a b (core1_takes entry todo waiting got calls results) = refl
view_kept a b (core1_adds entry todo waiting got calls results room) =
    ap (λ l. got ++ l) (append_one results (apply entry) (map apply calls ++ map apply todo))
view_kept a b (core0_removes result todo got taken calls results) =
    append_one got result (results ++ (one_taken taken ++ (map apply calls ++ map apply todo)))

balance_kept :
    (a b : System) → Step a b → under_way a ≡ flag a.waiting → under_way b ≡ flag b.waiting
balance_kept a b (core0_adds entry todo got taken calls results room) h =
    omega (arith, h, length-append calls (entry ∷ []))
balance_kept a b (core1_takes entry todo waiting got calls results) h = omega (arith, h)
balance_kept a b (core1_adds entry todo waiting got calls results room) h =
    omega (arith, h, length-append results (apply entry ∷ []))
balance_kept a b (core0_removes result todo got taken calls results) h = omega (arith, h)

one_fewer : (a b : System) → Step a b → steps_left a ≡ suc (steps_left b)
one_fewer a b (core0_adds entry todo got taken calls results room) =
    omega (arith, length-append calls (entry ∷ []))
one_fewer a b (core1_takes entry todo waiting got calls results) = omega arith
one_fewer a b (core1_adds entry todo waiting got calls results room) =
    omega (arith, length-append results (apply entry ∷ []))
one_fewer a b (core0_removes result todo got taken calls results) = omega arith

pub record Sound (requests : List QueueEntry) (n : ℕ) (s : System) : Type 0 where
  pub order : view s ≡ map apply requests
  pub balance : under_way s ≡ flag s.waiting
  pub left : steps_left s + n ≡ 4 * length requests

pub run-Sound :
    (requests : List QueueEntry) (n : ℕ) (s : System)
    → Run n (at_start requests) s
    → Sound requests n s
run-Sound requests n s (stay b) = record { order = refl; balance = refl; left = omega arith }
run-Sound requests n s (step k a b c r e) =
    let h = run-Sound requests k b r in
    record {
      order = view_kept b s e ∙ h.order;
      balance = balance_kept b s e h.balance;
      left = omega (arith, h.left, one_fewer b s e);
    }

pub goes_on :
    (todo : List QueueEntry) (waiting : Bool) (got : List ℕ) (taken : Option QueueEntry)
    (calls : List QueueEntry) (results : List ℕ)
    → length calls + count taken + length results ≡ flag waiting
    → 0 < 4 * length todo + 3 * length calls + 2 * count taken + length results
    → (next : System) × Step
        (record {
          todo = todo;
          waiting = waiting;
          got = got;
          taken = taken;
          call_queue = calls;
          results_queue = results;
        })
        next
goes_on todo true got taken calls (result ∷ results) b more =
    (_, core0_removes result todo got taken calls results)
goes_on todo true got (some entry) calls [] b more =
    (_, core1_adds entry todo true got calls [] (omega arith))
goes_on todo true got none (entry ∷ calls) [] b more = (_, core1_takes entry todo true got calls [])
goes_on todo true got none [] [] b more = absurd (omega (arith, b))
goes_on (entry ∷ todo) false got none [] [] b more =
    (_, core0_adds entry todo got none [] [] (omega arith))
goes_on [] false got none [] [] b more = absurd (omega (arith, more))
goes_on todo false got (some entry) calls results b more = absurd (omega (arith, b))
goes_on todo false got taken (entry ∷ calls) results b more = absurd (omega (arith, b))
goes_on todo false got taken calls (result ∷ results) b more = absurd (omega (arith, b))

append_nil : (xs : List ℕ) → xs ++ [] ≡ xs
append_nil [] = refl
append_nil (x ∷ xs) = ap (λ l. x ∷ l) (append_nil xs)

pub all_got :
    (todo : List QueueEntry) (got : List ℕ) (taken : Option QueueEntry) (calls : List QueueEntry)
    (results : List ℕ)
    → 4 * length todo + 3 * length calls + 2 * count taken + length results ≡ 0
    → got ++ (results ++ (one_taken taken ++ (map apply calls ++ map apply todo))) ≡ got
all_got [] got none [] [] e = append_nil got
all_got (entry ∷ todo) got taken calls results e = absurd (omega (arith, e))
all_got todo got (some entry) calls results e = absurd (omega (arith, e))
all_got todo got taken (entry ∷ calls) results e = absurd (omega (arith, e))
all_got todo got taken calls (result ∷ results) e = absurd (omega (arith, e))
