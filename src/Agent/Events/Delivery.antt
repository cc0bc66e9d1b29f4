-- ===== src/Agent/Events/Delivery.antt =====
-- internal/agent/events.go: what a consumer gets of what was published.
use mixi.Base.{
  ℕ, zero, suc, ◌≡◌, refl, ap, inl, inr, Bool, true, false, List, [], ◌∷◌, ◌++◌, append_assoc,
  arith, if◌then◌else◌, Bool-cases, ◌∙◌, ◌-◌, ◌≤◌, ltb→lt, sym, length, append-nil, ltb, false≢true,
  length-append,
}
use mixi.Agent.Events.{
  Event, Subscriber, is_render_only, deliver, receive, close, put, subscriber_buf, new_subscriber,
}

-- What happens to one consumer: an event is published, or it takes one.
pub data Happening : Type 0 where
  published : (takes : Bool) → Event → Happening
  taken : Happening

-- the bus closes a consumer that could not be given an event
abbrev pub cut_if : Bool × Subscriber → Subscriber
cut_if (true, s) = s
cut_if (false, s) = close s

abbrev pub happen : Happening → Subscriber → Subscriber
happen (published takes ev) s = cut_if (deliver takes ev s)
happen taken s = receive s

unfoldable pub run : List Happening → Subscriber → Subscriber
run [] s = s
run (h ∷ hs) s = run hs (happen h s)

-- the lifecycle events among some
unfoldable pub lifecycle : List Event → List Event
lifecycle [] = []
lifecycle (e ∷ es) = let rest = lifecycle es in if is_render_only e then rest else e ∷ rest

unfoldable pub all_published : List Happening → List Event
all_published [] = []
all_published (published takes ev ∷ hs) = ev ∷ all_published hs
all_published (taken ∷ hs) = all_published hs

-- everything that a consumer got or still may take
abbrev pub got : Subscriber → List Event
got s = s.received ++ s.buffer

lifecycle-append : (xs ys : List Event) → lifecycle (xs ++ ys) ≡ lifecycle xs ++ lifecycle ys
unfolding lifecycle
lifecycle-append [] ys = refl
lifecycle-append (x ∷ xs) ys = elim (Bool-cases (is_render_only x)) [
  | inl q ↦ rw q (lifecycle-append xs ys)
  | inr q ↦ rw q (ap (λ t. x ∷ t) (lifecycle-append xs ys))
]

receive-got : (s : Subscriber) → got (receive s) ≡ got s
unfolding receive
receive-got s = from s.buffer
  where
    from : (b : List Event) → got (receive (record s { buffer = b })) ≡ s.received ++ b
    from [] = refl
    from (e ∷ es) = append_assoc s.received (e ∷ []) es

receive-closed : (s : Subscriber) → (receive s).closed ≡ s.closed
unfolding receive
receive-closed s = ground arith

-- What one delivery adds to a consumer that it leaves open.
abbrev Added : Event → Subscriber → Bool × Subscriber → Type 0
Added ev s r =
    (cut_if r).closed ≡ false
    → lifecycle (got (cut_if r)) ≡ lifecycle (got s) ++ lifecycle (ev ∷ [])

put_added :
    (ev : Event) (s : Subscriber)
    → lifecycle (got (put ev s)) ≡ lifecycle (got s) ++ lifecycle (ev ∷ [])
put_added ev s =
    ap lifecycle (sym (append_assoc s.received s.buffer (ev ∷ [])))
    ∙ lifecycle-append (got s) (ev ∷ [])

render_none : (ev : Event) → is_render_only ev ≡ true → lifecycle (ev ∷ []) ≡ []
unfolding lifecycle
render_none ev h = rw h

deliver-Added : (takes : Bool) (ev : Event) (s : Subscriber) → Added ev s (deliver takes ev s)
unfolding deliver close
deliver-Added takes ev s = elim (Bool-cases s.closed) [
  | inl c ↦ simp c (λ h. absurd (false≢true (sym h)))
  | inr c ↦ elim (Bool-cases (ltb (length s.buffer) subscriber_buf)) [
    | inl q ↦ simp (c, q) (λ h. put_added ev s)
    | inr q ↦ elim (Bool-cases (is_render_only ev)) [
      | inl r ↦
          simp (c, q, r)
            (λ h. sym (
              ap (λ es. lifecycle (got s) ++ es) (render_none ev r)
              ∙ append-nil (lifecycle (got s))))
      | inr r ↦ elim (Bool-cases takes) [
        | inl t ↦
            simp (c, q, r, t)
              (λ h.
                put_added ev (receive s)
                ∙ ap (λ es. lifecycle es ++ lifecycle (ev ∷ [])) (receive-got s))
        | inr t ↦ simp (c, q, r, t) (λ h. absurd (false≢true (sym h)))
      ]
    ]
  ]
]

deliver_stays_closed :
    (takes : Bool) (ev : Event) (s : Subscriber)
    → s.closed ≡ true
    → (cut_if (deliver takes ev s)).closed ≡ true
unfolding deliver
deliver_stays_closed takes ev s h = simp h

run_stays_closed :
    (hs : List Happening) (s : Subscriber) → s.closed ≡ true → (run hs s).closed ≡ true
unfolding run
run_stays_closed [] s h = h
run_stays_closed (published takes ev ∷ hs) s h =
    run_stays_closed hs _ (deliver_stays_closed takes ev s h)
run_stays_closed (taken ∷ hs) s h = run_stays_closed hs _ (receive-closed s ∙ h)

-- a consumer that is open at the end was open all along
open_before : (hs : List Happening) (s : Subscriber) → (run hs s).closed ≡ false → s.closed ≡ false
open_before hs s h = elim (Bool-cases s.closed) [
  | inl q ↦ absurd (false≢true (sym h ∙ run_stays_closed hs s q))
  | inr q ↦ q
]

run-lifecycle :
    (hs : List Happening) (s : Subscriber)
    → (run hs s).closed ≡ false
    → lifecycle (got (run hs s)) ≡ lifecycle (got s) ++ lifecycle (all_published hs)
unfolding run all_published lifecycle
run-lifecycle [] s h = sym (append-nil (lifecycle (got s)))
run-lifecycle (taken ∷ hs) s h =
    run-lifecycle hs (receive s) h
    ∙ ap (λ es. lifecycle es ++ lifecycle (all_published hs)) (receive-got s)
run-lifecycle (published takes ev ∷ hs) s h =
    run-lifecycle hs (cut_if (deliver takes ev s)) h
    ∙ (ap (λ es. es ++ lifecycle (all_published hs)) (deliver-Added takes ev s (open_before hs _ h))
        ∙ (append_assoc (lifecycle (got s)) (lifecycle (ev ∷ [])) (lifecycle (all_published hs))
            ∙ ap (λ es. lifecycle (got s) ++ es)
                (sym (lifecycle-append (ev ∷ []) (all_published hs)))))

receive-length : (s : Subscriber) → length (receive s).buffer ≡ length s.buffer - 1
unfolding receive
receive-length s = from s.buffer
  where
    from : (b : List Event) → length (receive (record s { buffer = b })).buffer ≡ length b - 1
    from [] = omega arith
    from (e ∷ es) = omega arith

deliver-bound :
    (takes : Bool) (ev : Event) (s : Subscriber)
    → length s.buffer ≤ subscriber_buf
    → length (cut_if (deliver takes ev s)).buffer ≤ subscriber_buf
unfolding deliver close
deliver-bound takes ev s h = elim (Bool-cases s.closed) [
  | inl c ↦ simp c h
  | inr c ↦ elim (Bool-cases (ltb (length s.buffer) subscriber_buf)) [
    | inl q ↦ simp (c, q) (omega (arith, length-append s.buffer (ev ∷ []), ltb→lt _ _ q))
    | inr q ↦ elim (Bool-cases (is_render_only ev)) [
      | inl r ↦ simp (c, q, r) h
      | inr r ↦ elim (Bool-cases takes) [
        | inl t ↦
            simp (c, q, r, t)
              (omega (arith, length-append (receive s).buffer (ev ∷ []), receive-length s, h))
        | inr t ↦ simp (c, q, r, t) h
      ]
    ]
  ]
]

run-bound :
    (hs : List Happening) (s : Subscriber)
    → length s.buffer ≤ subscriber_buf
    → length (run hs s).buffer ≤ subscriber_buf
unfolding run
run-bound [] s h = h
run-bound (published takes ev ∷ hs) s h = run-bound hs _ (deliver-bound takes ev s h)
run-bound (taken ∷ hs) s h = run-bound hs (receive s) (omega (arith, receive-length s, h))

-- the consumer takes events, so many times
unfoldable pub take_out : ℕ → Subscriber → Subscriber
take_out zero s = s
take_out (suc n) s = take_out n (receive s)

take_out-got : (n : ℕ) (s : Subscriber) → length s.buffer ≤ n → (take_out n s).received ≡ got s
unfolding take_out
take_out-got zero s h = emptied s.buffer h
  where
    emptied : (b : List Event) → length b ≤ 0 → s.received ≡ s.received ++ b
    emptied [] h = sym (append-nil s.received)
    emptied (e ∷ es) h = absurd (omega (arith, h))
take_out-got (suc n) s h =
    take_out-got n (receive s) (omega (arith, receive-length s, h)) ∙ receive-got s

-- Every lifecycle event reaches a consumer that is not cut: whatever is published and taken from
-- the moment it subscribes on, if its channel is still open at the end then, once it has
-- taken as many more events as the channel holds at most, the lifecycle events it has received are
-- all that were published, in their order.
pub lifecycle_received :
    (hs : List Happening)
    → (run hs new_subscriber).closed ≡ false
    → lifecycle (take_out subscriber_buf (run hs new_subscriber)).received
      ≡ lifecycle (all_published hs)
unfolding lifecycle
lifecycle_received hs h =
    ap lifecycle (
      take_out-got subscriber_buf (run hs new_subscriber)
        (run-bound hs new_subscriber (omega arith)))
    ∙ run-lifecycle hs new_subscriber h
