-- ===== src/LfQueue/Threads/Tests.antt =====
-- A producer and a consumer that overlap, and the theorems in the states that they reach.
use autobahn_app.Prelude.{◌%◌, ◌≡◌, ◌≢◌, refl, arith}
use autobahn_app.LfQueue.{update, new_queue}
use autobahn_app.LfQueue.Threads.{
  idle, enq_wait, enq_store, enq_publish, deq_wait, deq_read, deq_release, take_p_ticket,
  store_value, publish_ticket, take_c_ticket, take_p, ready_p, store, publish, take_c, ready_c,
  read, System, move, Reach, here, next,
}
use autobahn_app.LfQueue.Threads.Reachable.{start, fifo_tickets, slots_exclusive}

abbrev s0 : System
s0 = start (λ _. 0) 2

-- Thread 0 calls enqueue(42) and thread 1 calls dequeue(); both take ticket 2.
abbrev s1 : System
s1 = record { shared = take_p_ticket s0.shared 42; pc = update s0.pc 0 (enq_wait 42 2) }

abbrev s2 : System
s2 = record { shared = take_c_ticket s1.shared; pc = update s1.pc 1 (deq_wait 2) }

abbrev s3 : System
s3 = record { shared = s2.shared; pc = update s2.pc 0 (enq_store 42 2) }

abbrev s4 : System
s4 = record { shared = store_value s3.shared 42 2; pc = update s3.pc 0 (enq_publish 2) }

abbrev s5 : System
s5 = record { shared = publish_ticket s4.shared 2; pc = update s4.pc 0 idle }

abbrev s6 : System
s6 = record { shared = s5.shared; pc = update s5.pc 1 (deq_read 2) }

abbrev s7 : System
s7 = record { shared = s6.shared; pc = update s6.pc 1 (deq_release 2 42) }

Reach-s3 : Reach s0 s3
unfolding new_queue
Reach-s3 =
    next (next (next here (omega arith) (move 0 (take_p 42))) (omega arith) (move 1 take_c))
      (omega arith) (move 0 (ready_p {v = 42} {p = 2} refl))

Reach-s7 : Reach s0 s7
unfolding new_queue
Reach-s7 =
    next
      (next (next (next Reach-s3 (omega arith) (move 0 store)) (omega arith) (move 0 publish))
        (omega arith) (move 1 (ready_c {c = 2} refl)))
      (omega arith) (move 1 read)

fifo_tickets_example : 42 ≡ s7.shared.sent 2
fifo_tickets_example =
    fifo_tickets (λ _. 0) 2 (omega arith) (omega arith) {s = s7} Reach-s7 1 2 42 refl

-- Threads 0 and 2 both call enqueue, and both are about to write their slots.
abbrev w1 : System
w1 = record { shared = take_p_ticket s1.shared 43; pc = update s1.pc 2 (enq_wait 43 3) }

abbrev w2 : System
w2 = record { shared = w1.shared; pc = update w1.pc 0 (enq_store 42 2) }

abbrev w3 : System
w3 = record { shared = w2.shared; pc = update w2.pc 2 (enq_store 43 3) }

Reach-w3 : Reach s0 w3
unfolding new_queue
Reach-w3 =
    next
      (next (next (next here (omega arith) (move 0 (take_p 42))) (omega arith) (move 2 (take_p 43)))
        (omega arith) (move 0 (ready_p {v = 42} {p = 2} refl)))
      (omega arith) (move 2 (ready_p {v = 43} {p = 3} refl))

slots_exclusive_example : 2 % w3.shared.queue.capacity ≢ 3 % w3.shared.queue.capacity
slots_exclusive_example =
    slots_exclusive (λ _. 0) 2 (omega arith) (omega arith) {s = w3} Reach-w3 0 2 2 3 (omega arith)
      refl refl
