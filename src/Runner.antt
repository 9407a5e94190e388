-- ===== src/Runner.antt =====
-- multicore/multicore_runner_queue/multicore_runner_queue.c: one core sends functions and arguments
-- to the other by a queue and takes the results from a second one.
pub mod Queues
pub mod Results
pub mod Numbers
pub mod Order
