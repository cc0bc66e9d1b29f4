-- ===== src/Ext/Extension/Replies.antt =====
-- internal/ext/extension.go: which requests are answered, and how often.
use mixi.Base.{
  length-append, length-drop, ltb→lt, ltb→le, ℕ, suc, ◌≤◌, ◌≡◌, refl, List, [], ◌∷◌, ◌++◌, arith,
  true, Bool-cases, if◌then◌else◌, ◌+◌, inr, ◌==◌, ◌<◌, inl, length, drop, ◌-◌, ltb,
}
use mixi.Base.Bytes.{Bytes}
use mixi.Ext.Extension.{
  Extension, Reply, register, resolve, unregister, fail_pending, waits_for, without, all_gone,
  enqueue, queue_cap,
}

-- What reaches an extension's requests, in any order.
pub data Call : Type 0 where
  register_call : Call
  resolve_call : ℕ → Reply → Call
  unregister_call : ℕ → Call
  fail_pending_call : Call

abbrev pub apply : Call → Extension → Extension
apply register_call e = (register e).1
apply (resolve_call id r) e = resolve id r e
apply (unregister_call id) e = unregister id e
apply fail_pending_call e = fail_pending e

unfoldable pub run : List Call → Extension → Extension
run [] e = e
run (c ∷ cs) e = run cs (apply c e)

-- how often an id stands in a list
unfoldable pub count : ℕ → List ℕ → ℕ
count j [] = 0
count j (i ∷ is) = let rest = count j is in if i == j then suc rest else rest

unfoldable pub ids_of : List (ℕ × Reply) → List ℕ
ids_of [] = []
ids_of ((id, r) ∷ rs) = id ∷ ids_of rs

-- An id waits or is answered at most once, and only if it was given out.
pub record IsValid (e : Extension) : Type 0 where
  pub once : (j : ℕ) → count j e.pending + count j (ids_of e.answered) ≤ 1
  pub given : (j : ℕ) → e.next_id < j → count j e.pending + count j (ids_of e.answered) ≡ 0

count-without :
    (j id : ℕ) (xs : List ℕ) → count j (without id xs) ≡ (if id == j then 0 else count j xs)
unfolding count without
count-without j id [] = ground arith
count-without j id (x ∷ xs) = ground (arith, count-without j id xs)

waits_counted : (id : ℕ) (xs : List ℕ) → waits_for id xs ≡ true → 1 ≤ count id xs
unfolding count waits_for
waits_counted id [] h = absurd (cc h)
waits_counted id (x ∷ xs) h = ground (arith, waits_counted id xs, h)

count-all_gone :
    (j : ℕ) (xs : List ℕ) (rs : List (ℕ × Reply))
    → count j (ids_of (all_gone xs rs)) ≡ count j xs + count j (ids_of rs)
unfolding count all_gone ids_of
count-all_gone j [] rs = omega arith
count-all_gone j (x ∷ xs) rs = ground (arith, count-all_gone j xs rs)

register-IsValid : (e : Extension) → IsValid e → IsValid (register e).1
unfolding register count
register-IsValid e v = record {
  once = λ j. ground (arith, v.once j, v.given j);
  given = λ j h. ground (arith, h, v.given j (omega (arith, h)));
}

resolve-IsValid : (id : ℕ) (r : Reply) (e : Extension) → IsValid e → IsValid (resolve id r e)
unfolding resolve count ids_of
resolve-IsValid id r e v = elim (Bool-cases (waits_for id e.pending)) [
  | inr q ↦ rw q v
  | inl q ↦ rw q (record {
    once = λ j.
        ground
          (arith, count-without j id e.pending, v.once j, v.once id, waits_counted id e.pending q);
    given = λ j h. ground (
      arith,
      count-without j id e.pending,
      v.given j h,
      v.given id,
      waits_counted id e.pending q,
    );
  })
]

unregister-IsValid : (id : ℕ) (e : Extension) → IsValid e → IsValid (unregister id e)
unfolding unregister
unregister-IsValid id e v = record {
  once = λ j. ground (arith, count-without j id e.pending, v.once j);
  given = λ j h. ground (arith, count-without j id e.pending, v.given j h);
}

fail_pending-IsValid : (e : Extension) → IsValid e → IsValid (fail_pending e)
unfolding fail_pending count
fail_pending-IsValid e v = record {
  once = λ j. omega (arith, count-all_gone j e.pending e.answered, v.once j);
  given = λ j h. omega (arith, count-all_gone j e.pending e.answered, v.given j h);
}

apply-IsValid : (c : Call) (e : Extension) → IsValid e → IsValid (apply c e)
apply-IsValid register_call e v = register-IsValid e v
apply-IsValid (resolve_call id r) e v = resolve-IsValid id r e v
apply-IsValid (unregister_call id) e v = unregister-IsValid id e v
apply-IsValid fail_pending_call e v = fail_pending-IsValid e v

-- In whatever order requests are made, answered, given up and failed, starting from an extension in
-- which each id waits or is answered at most once, no request is answered twice, none is
-- answered that still waits, and no id that was not given out is answered.
pub run-IsValid : (cs : List Call) (e : Extension) → IsValid e → IsValid (run cs e)
unfolding run
run-IsValid [] e v = v
run-IsValid (c ∷ cs) e v = run-IsValid cs (apply c e) (apply-IsValid c e v)

-- Once the process has died no request waits any more, and each that waited has an answer.
pub fail_pending_answers :
    (e : Extension) (id : ℕ)
    → waits_for id e.pending ≡ true
    → ((fail_pending e).pending ≡ []) × (1 ≤ count id (ids_of (fail_pending e).answered))
unfolding fail_pending
fail_pending_answers e id h =
    (refl, omega (arith, count-all_gone id e.pending e.answered, waits_counted id e.pending h))

-- A queue in its bounds stays in them, an event put in is its newest, and it lost the oldest just
-- when it was full.
pub enqueue-bounds :
    (ev : Bytes) (e : Extension)
    → length e.queue ≤ queue_cap
    → (length (enqueue ev e).1.queue ≤ queue_cap)
      × ((enqueue ev e).1.queue ≡ drop (length e.queue + 1 - queue_cap) e.queue ++ ev ∷ [])
unfolding enqueue
enqueue-bounds ev e h = elim (Bool-cases (ltb (length e.queue) queue_cap)) [
  | inl q ↦
      let l : length e.queue + 1 - queue_cap ≡ 0 =
        omega (arith, ltb→lt (length e.queue) queue_cap q) in
      rw (q, l)
        (omega (arith, length-append e.queue (ev ∷ []), ltb→lt (length e.queue) queue_cap q), refl)
  | inr q ↦
      let l : length e.queue + 1 - queue_cap ≡ 1 =
        omega (arith, ltb→le (length e.queue) queue_cap q, h) in
      rw (q, l)
        (omega (arith, length-append (drop 1 e.queue) (ev ∷ []), length-drop 1 e.queue, h), refl)
]
