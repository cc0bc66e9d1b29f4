-- ===== src/Agent/Queue/Fifo.antt =====
-- internal/agent/queue.go: capacity and order over any sequence of pushes and drains.
use mixi.Base.{
  ℕ, ◌≤◌, ◌<◌, ◌≡◌, sym, ap, ◌∙◌, inl, inr, Option, none, some, List, [], ◌∷◌, ◌++◌, append-nil,
  append_assoc, arith, leb, ◌==◌, Bool-cases, length, length-append, take-append-drop, length-drop,
}
use mixi.Agent.Queue.{
  DrainMode, QueueError, BoundedQueue, new_bounded_queue, push, drain, drain_count,
}

pub data Op {ℓ} (T : Type ℓ) : Type ℓ where
  push_op : T → Op T
  drain_op : Op T

-- What a client has seen: the items that Push accepted and those that Drain returned, in order.
pub record History {ℓ} (T : Type ℓ) : Type ℓ where
  pub queue : BoundedQueue T
  pub accepted : List T
  pub drained : List T

pub record IsBounded {ℓ} {T : Type ℓ} (q : BoundedQueue T) : Type 0 where
  pub positive : 0 < q.cap
  pub within : length q.items ≤ q.cap

module _ {ℓ} {T : Type ℓ} where
  abbrev pub start : BoundedQueue T → History T
  start q = record { queue = q; accepted = []; drained = [] }

  abbrev accept : T → Option QueueError → List T → List T
  accept item none seen = seen ++ item ∷ []
  accept item (some e) seen = seen

  step : Op T → History T → History T
  unfolding push drain
  step (push_op item) h =
      let (e, q) = push item h.queue in record h { queue = q; accepted = accept item e h.accepted }
  step drain_op h =
      let (out, q) = drain h.queue in record h { queue = q; drained = h.drained ++ out }

  unfoldable pub run : List (Op T) → History T → History T
  unfolding step
  run [] h = h
  run (op ∷ ops) h = run ops (step op h)

  -- The queue invariant of a history that began with `old` in the queue.
  record IsOrdered (old : List T) (h : History T) : Type ℓ where
    order : old ++ h.accepted ≡ h.drained ++ h.queue.items

  push-IsBounded : (item : T) (q : BoundedQueue T) → IsBounded q → IsBounded (push item q).1
  unfolding push
  push-IsBounded item q h = ground (arith, length-append q.items (item ∷ []))

  drain-IsBounded : (q : BoundedQueue T) → IsBounded q → IsBounded (drain q).1
  unfolding drain
  drain-IsBounded q h = ground (arith, length-drop (drain_count q.mode q.items) q.items)

  drain-append : (q : BoundedQueue T) → (drain q).0 ++ (drain q).1.items ≡ q.items
  unfolding drain
  drain-append q = elim (Bool-cases (length q.items == 0)) [
    | inl e ↦ rw e
    | inr e ↦ rw e (take-append-drop (drain_count q.mode q.items) q.items)
  ]

  step-IsBounded : (op : Op T) (h : History T) → IsBounded h.queue → IsBounded (step op h).queue
  unfolding step
  step-IsBounded (push_op item) h b = push-IsBounded item h.queue b
  step-IsBounded drain_op h b = drain-IsBounded h.queue b

  step-IsOrdered :
      (old : List T) (op : Op T) (h : History T) → IsOrdered old h → IsOrdered old (step op h)
  unfolding step push
  step-IsOrdered old (push_op item) h o =
      elim (Bool-cases (leb h.queue.cap (length h.queue.items))) [
        | inl e ↦ record { order = rw e o.order }
        | inr e ↦ record {
          order = rw e (
              sym (append_assoc old h.accepted (item ∷ []))
              ∙ (ap (λ l. l ++ item ∷ []) o.order
                  ∙ append_assoc h.drained h.queue.items (item ∷ [])));
        }
      ]
  step-IsOrdered old drain_op h o = record {
    order =
        o.order
        ∙ (ap (λ l. h.drained ++ l) (sym (drain-append h.queue))
            ∙ sym (append_assoc h.drained (drain h.queue).0 (drain h.queue).1.items));
  }

  run-IsOrdered :
      (old : List T) (ops : List (Op T)) (h : History T)
      → IsOrdered old h
      → IsOrdered old (run ops h)
  unfolding run
  run-IsOrdered old [] h o = o
  run-IsOrdered old (op ∷ ops) h o = run-IsOrdered old ops (step op h) (step-IsOrdered old op h o)

  run-IsBounded :
      (ops : List (Op T)) (h : History T) → IsBounded h.queue → IsBounded (run ops h).queue
  unfolding run
  run-IsBounded [] h b = b
  run-IsBounded (op ∷ ops) h b = run-IsBounded ops (step op h) (step-IsBounded op h b)

  -- After any sequence of pushes and drains, the items that the queue held at first followed by
  -- those that Push accepted are the items that Drain returned followed by those still queued, in
  -- the same order.
  pub run_fifo :
      (ops : List (Op T)) (q : BoundedQueue T)
      → q.items ++ (run ops (start q)).accepted
        ≡ (run ops (start q)).drained ++ (run ops (start q)).queue.items
  run_fifo ops q =
      (run-IsOrdered q.items ops (start q) (record { order = append-nil q.items })).order

  new_bounded_queue-IsBounded :
      (capacity : ℕ) (mode : DrainMode) → IsBounded (new_bounded_queue {T = T} capacity mode)
  unfolding new_bounded_queue
  new_bounded_queue-IsBounded capacity mode = ground arith

  -- A queue made with any capacity and mode, after any sequence of pushes and drains, holds at
  -- most its capacity, and the capacity is positive.
  pub new-run-IsBounded :
      (capacity : ℕ) (mode : DrainMode) (ops : List (Op T))
      → IsBounded (run ops (start (new_bounded_queue capacity mode))).queue
  new-run-IsBounded capacity mode ops =
      run-IsBounded ops _ (new_bounded_queue-IsBounded capacity mode)
