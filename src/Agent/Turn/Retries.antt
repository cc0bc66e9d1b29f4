-- ===== src/Agent/Turn/Retries.antt =====
-- internal/agent/loop.go: what streamTurn promises.
use mixi.Base.{
  ℕ, zero, suc, ◌+◌, ◌≤◌, ◌<◌, ◌≡◌, refl, sym, ap, ◌∙◌, subst, ◌⊎◌, inl, inr, Bool, true, false,
  not, ◌&&◌, false≢true, Option, none, some, arith, ltb, leb, ltb→lt, ltb→le, leb→lt, Bool-cases,
  Option-cases, and_cases,
}
use mixi.Ai.{AssistantMessage}
use mixi.Agent.Retry.{RetryClass, fatal, retryable, overflow, classify_error, retry_max_attempts}
use mixi.Agent.Turn.{
  Final, World, Turned, Next, finish, again, reply, is_error, is_retryable, is_overflow,
  retry_or_stop, after_reply, turn_loop, stream_turn,
}

abbrev bit : Bool → ℕ
bit true = 1
bit false = 0

-- What a reply that leads to another call was: a failure that had shown no content
abbrev Retried : World → Final → ℕ → Bool → ℕ → Bool → Type 0
Retried w f a r a' r' =
    (a' + bit r' ≡ suc (a + bit r))
    × (a' ≤ retry_max_attempts)
    × (f.emitted_content ≡ false)
    × (is_error f.message.stop_reason ≡ true)

again_eq : {a a' : ℕ} {r r' : Bool} → again a r ≡ again a' r' → (a ≡ a') × (r ≡ r')
again_eq h = (cc h, cc h)

finish_again : {m : AssistantMessage} {ok : Bool} {a : ℕ} {r : Bool} → finish m ok ≡ again a r → ⊥
finish_again h = cc

Next-cases :
    (x : Next)
    → ((m : AssistantMessage) × (ok : Bool) × (x ≡ finish m ok))
      ⊎ ((a : ℕ) × (r : Bool) × (x ≡ again a r))
Next-cases (finish m ok) = inl (m, ok, refl)
Next-cases (again a r) = inr (a, r, refl)

overflow_not_retryable : (c : RetryClass) → is_overflow c ≡ true → is_retryable c ≡ false
overflow_not_retryable fatal h = refl
overflow_not_retryable retryable h = absurd (false≢true h)
overflow_not_retryable overflow h = refl

module _ (w : World) (f : Final) where
  retry_or_stop_lem :
      (a : ℕ) (r : Bool) (a' : ℕ) (r' : Bool)
      → retry_or_stop w f a r ≡ again a' r'
      → (is_retryable (classify_error f.message.error_message) ≡ true)
        × (f.emitted_content ≡ false)
        × (a < retry_max_attempts)
        × (a' ≡ suc a)
        × (r' ≡ r)
  retry_or_stop_lem a r a' r' h =
      elim (Bool-cases (is_retryable (classify_error f.message.error_message))) [
        | inr p ↦ absurd (finish_again (rw (retry_or_stop, p) at h))
        | inl p ↦ elim (Bool-cases f.emitted_content) [
          | inl e ↦ absurd (finish_again (rw (retry_or_stop, p, e) at h))
          | inr e ↦ elim (Bool-cases (leb retry_max_attempts a)) [
            | inl q ↦ absurd (finish_again (rw (retry_or_stop, p, e, q) at h))
            | inr q ↦ elim (Option-cases (w.sleep_error (suc a))) [
              | inr (x, u) ↦ absurd (finish_again (rw (retry_or_stop, p, e, q, u) at h))
              | inl u ↦
                  let (k, m) = again_eq (rw (retry_or_stop, p, e, q, u) at h) in
                  (p, e, leb→lt retry_max_attempts a q, sym k, sym m)
            ]
          ]
        ]
      ]

  after_reply_lem :
      (a : ℕ) (r : Bool) (a' : ℕ) (r' : Bool)
      → a ≤ retry_max_attempts
      → after_reply w f a r ≡ again a' r'
      → Retried w f a r a' r'
  unfolding after_reply
  after_reply_lem a r a' r' l h = elim (Bool-cases (is_error f.message.stop_reason)) [
    | inr p ↦ absurd (finish_again (rw (after_reply, p) at h))
    | inl p ↦
        elim (Bool-cases (
          is_overflow (classify_error f.message.error_message) && not f.emitted_content && not r)) [
            | inr q ↦ plain p (retry_or_stop_lem a r a' r' (rw (after_reply, p, q) at h))
            | inl q ↦ elim (Bool-cases w.frees_context) [
              | inl v ↦ freed p q (again_eq (rw (after_reply, p, q, v) at h))
              | inr v ↦
                  let (c, e, k, u, v) =
                    retry_or_stop_lem a true a' r' (rw (after_reply, p, q, v) at h) in
                  let o = (and_cases ((and_cases q).0)).0 in
                  absurd (
                    false≢true
                      (sym (overflow_not_retryable (classify_error f.message.error_message) o) ∙ c))
            ]
          ]
  ]
    where
      plain :
          is_error f.message.stop_reason ≡ true
          → (is_retryable (classify_error f.message.error_message) ≡ true)
            × (f.emitted_content ≡ false)
            × (a < retry_max_attempts)
            × (a' ≡ suc a)
            × (r' ≡ r)
          → Retried w f a r a' r'
      plain p (c, e, k, u, v) = (omega (arith, u, ap bit v), omega (arith, u), e, p)

      not_true : {b : Bool} → not b ≡ true → b ≡ false
      not_true {b = true} x = absurd (false≢true x)
      not_true {b = false} x = refl

      freed :
          is_error f.message.stop_reason ≡ true
          → is_overflow (classify_error f.message.error_message) && not f.emitted_content && not r
            ≡ true
          → (a ≡ a') × (true ≡ r')
          → Retried w f a r a' r'
      freed p q (u, v) =
          let k : r ≡ false = not_true ((and_cases q).1) in
          (
            omega (arith, u, ap bit v, ap bit k),
            omega (arith, u),
            not_true ((and_cases ((and_cases q).0)).1),
            p,
          )

abbrev calls_of : Option Turned → ℕ
calls_of none = 0
calls_of (some t) = t.calls

module _ (w : World) where
  -- Enough fuel is what is left of the retries and the recovery.
  turn_loop_total :
      (fuel n a : ℕ) (r : Bool)
      → a ≤ retry_max_attempts
      → 6 < fuel + (a + bit r)
      → (t : Turned) × (turn_loop fuel w n a r ≡ some t)
  unfolding turn_loop
  turn_loop_total zero n a r l k = absurd (bit_le r (omega arith))
    where
      bit_le : (r : Bool) → 6 < a + bit r → ⊥
      bit_le true k = omega arith
      bit_le false k = omega arith
  turn_loop_total (suc fuel) n a r l k = elim (Next-cases (after_reply w (reply w n) a r)) [
    | inl (m, ok, q) ↦ (record { message = m; ok = ok; calls = suc n }, rw (turn_loop, q))
    | inr (a', r', q) ↦
        let (u, v, e, x) = after_reply_lem w (reply w n) a r a' r' l q in
        let (t, z) = turn_loop_total fuel (suc n) a' r' v (omega arith) in (t, rw (turn_loop, q) z)
  ]

  -- No reply but the last had shown any content, and the result is the last reply's.
  turn_loop_lem :
      (fuel n a : ℕ) (r : Bool) (t : Turned)
      → a ≤ retry_max_attempts
      → turn_loop fuel w n a r ≡ some t
      → (n < t.calls) × (t.calls ≤ n + fuel)
  unfolding turn_loop
  turn_loop_lem zero n a r t l h = absurd cc
  turn_loop_lem (suc fuel) n a r t l h = elim (Next-cases (after_reply w (reply w n) a r)) [
    | inl (m, ok, q) ↦
        let k : calls_of (some (record { message = m; ok = ok; calls = suc n }))
            ≡ calls_of (some t) =
          ap calls_of (rw (turn_loop, q) at h) in
        (omega (arith, k), omega (arith, k))
    | inr (a', r', q) ↦
        let (u, v, e, x) = after_reply_lem w (reply w n) a r a' r' l q in
        let (y, z) = turn_loop_lem fuel (suc n) a' r' t v (rw (turn_loop, q) at h) in
        (omega arith, omega arith)
  ]

  turn_loop-retried :
      (fuel n a : ℕ) (r : Bool) (t : Turned) (i : ℕ)
      → a ≤ retry_max_attempts
      → turn_loop fuel w n a r ≡ some t
      → n ≤ i
      → suc i < t.calls
      → ((reply w i).emitted_content ≡ false) × (is_error (reply w i).message.stop_reason ≡ true)
  unfolding turn_loop
  turn_loop-retried zero n a r t i l h b c = absurd cc
  turn_loop-retried (suc fuel) n a r t i l h b c =
      elim (Next-cases (after_reply w (reply w n) a r)) [
        | inl (m, ok, q) ↦
            let k : calls_of (some (record { message = m; ok = ok; calls = suc n }))
                ≡ calls_of (some t) =
              ap calls_of (rw (turn_loop, q) at h) in
            absurd (omega (arith, k))
        | inr (a', r', q) ↦
            let (u, v, e, x) = after_reply_lem w (reply w n) a r a' r' l q in
            elim (Bool-cases (ltb n i)) [
              | inl d ↦
                  turn_loop-retried fuel (suc n) a' r' t i v (rw (turn_loop, q) at h) (ltb→lt n i d)
                    c
              | inr d ↦
                  let same : n ≡ i = (let y : i ≤ n = ltb→le n i d in omega arith) in
                  subst
                    (λ j.
                      ((reply w j).emitted_content ≡ false)
                      × (is_error (reply w j).message.stop_reason ≡ true))
                    same (e, x)
            ]
      ]

  -- Whatever it meets, a turn has a result after at least one and at most seven calls of the
  -- provider.
  pub stream_turn_total : (t : Turned) × (stream_turn w ≡ some t) × (0 < t.calls) × (t.calls ≤ 7)
  unfolding stream_turn
  stream_turn_total =
      let (t, h) = turn_loop_total 7 0 0 false (omega arith) (omega arith) in
      let (l, u) = turn_loop_lem 7 0 0 false t (omega arith) h in (t, h, l, u)

  -- Every reply that a turn asks again after was an error and had shown no content.
  pub stream_turn-retried :
      (t : Turned) (i : ℕ)
      → stream_turn w ≡ some t
      → suc i < t.calls
      → ((reply w i).emitted_content ≡ false) × (is_error (reply w i).message.stop_reason ≡ true)
  unfolding stream_turn
  stream_turn-retried t i h c = turn_loop-retried 7 0 0 false t i (omega arith) h (omega arith) c
