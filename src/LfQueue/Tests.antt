-- ===== src/LfQueue/Tests.antt =====
-- Runs of the queue, and the theorems at a concrete one.
use autobahn_app.Prelude.{◌≡◌, ◌↔◌, refl, true, false, List, [], ◌∷◌, arith}
use autobahn_app.LfQueue.{Queue, new_queue, enqueue, dequeue, get_size, is_empty, Op, put, get, run}
use autobahn_app.LfQueue.Fifo.{IsValid, contents, after_enqueue}
use autobahn_app.LfQueue.Refine.{
  fifo, new_queue-IsValid, run-fifo, get_size-length, is_empty-contents,
}

abbrev fresh : Queue
unfolding new_queue
fresh = new_queue (λ _. 0) 3

-- Three values fit, and a fourth waits until one has been taken out.
script : List Op
script = put 7 ∷ put 8 ∷ put 9 ∷ get ∷ put 10 ∷ get ∷ get ∷ get ∷ []

run-script : run fresh script ≡ (7 ∷ 8 ∷ 9 ∷ 10 ∷ [], true)
unfolding run script new_queue enqueue dequeue
run-script = refl

run_full : run fresh (put 1 ∷ put 2 ∷ put 3 ∷ put 4 ∷ get ∷ []) ≡ ([], false)
unfolding run new_queue enqueue dequeue
run_full = refl

size_after_two : get_size (after_enqueue (after_enqueue fresh 1) 2) ≡ 2
unfolding get_size new_queue
size_after_two = refl

new_queue-IsValid_example : IsValid (new_queue (λ _. 0) 3) × (contents (new_queue (λ _. 0) 3) ≡ [])
new_queue-IsValid_example = new_queue-IsValid (λ _. 0) 3 (omega arith) (omega arith)

run-fifo_example : run (new_queue (λ _. 0) 3) script ≡ fifo 3 [] script
unfolding new_queue script
run-fifo_example = run-fifo script (new_queue (λ _. 0) 3) new_queue-IsValid_example.0 (omega arith)

get_size-length_example : get_size (new_queue (λ _. 0) 3) ≡ 0
unfolding new_queue
get_size-length_example =
    get_size-length (new_queue (λ _. 0) 3) new_queue-IsValid_example.0 (omega arith) (omega arith)

is_empty-contents_example :
    (is_empty (new_queue (λ _. 0) 3) ≡ true) ↔ (contents (new_queue (λ _. 0) 3) ≡ [])
is_empty-contents_example = is_empty-contents (new_queue (λ _. 0) 3) new_queue-IsValid_example.0
