-- ===== src/Writer/Tests.antt =====
-- The theorem at a writer that has sent two blocks.
use astra_shell.Prelude.{◌≡◌, ◌≤◌, [], ◌∷◌, true}
use astra_shell.Writer.Queue.{
  max_queued_bytes, Queue, new_queue, reserve_bytes, hand_over, receive_next, finish_write,
  reserving, handing, receiving, finishing, Queues, at_start, and_then,
}
use astra_shell.Writer.Drained.{waiting, Queues-drained}

abbrev two_sent : Queue
two_sent = finish_write (
    receive_next
      (hand_over (reserve_bytes (3 ∷ []) (hand_over (reserve_bytes (1 ∷ 2 ∷ []) new_queue)))))

two_sent_steps : Queues two_sent
two_sent_steps =
    and_then
      (and_then
        (and_then
          (and_then (and_then (and_then at_start (reserving _ _)) (handing _)) (reserving _ _))
          (handing _))
        (receiving _))
      (finishing _)

drained_example :
    (two_sent.queued ≤ max_queued_bytes)
    × (two_sent.is_draining ≡ true → two_sent.queued ≡ waiting two_sent)
    × (two_sent.is_draining ≡ true → two_sent.queued ≡ 0 → two_sent.written ≡ two_sent.accepted)
drained_example = Queues-drained two_sent_steps
