-- ===== src/Examples/Queue.antt =====
-- queue.c on a queue of two numbers.
use network_file_system_in_c.Base.{[], some, ℕ, ◌∷◌, ◌≡◌}
use network_file_system_in_c.Queue.{QueueHead, init_queue, pop, push}
use network_file_system_in_c.Queue.Fifo.{Queued, init_queue-Queued, pop-Queued, push-Queued}

two_queued : (q : QueueHead ℕ) × Queued q (3 ∷ 5 ∷ [])
two_queued =
    let (q, _, one) = push-Queued init_queue [] 3 init_queue-Queued in
    let (q', _, two) = push-Queued q (3 ∷ []) 5 one in (q', two)

push-Queued_example :
    (q' : QueueHead ℕ) × (push two_queued.0 7 ≡ some q') × Queued q' (3 ∷ 5 ∷ 7 ∷ [])
push-Queued_example = push-Queued two_queued.0 (3 ∷ 5 ∷ []) 7 two_queued.1

pop-Queued_example :
    (q' : QueueHead ℕ) × (pop two_queued.0 ≡ some (some 3, q')) × Queued q' (5 ∷ [])
pop-Queued_example = pop-Queued two_queued.0 (3 ∷ 5 ∷ []) two_queued.1
