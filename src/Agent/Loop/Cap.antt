-- ===== src/Agent/Loop/Cap.antt =====
-- internal/agent/loop.go: a run with a turn cap ends.
use mixi.Base.{
  ℕ, zero, suc, ◌+◌, ◌-◌, ◌*◌, ◌≤◌, ◌<◌, ◌≡◌, refl, sym, inl, inr, Bool, true, false, not, ◌||◌,
  none, some, List, [], ◌∷◌, append-nil, arith, leb, if◌then◌else◌, leb→le, leb→lt, lt→ltb,
  Bool-cases,
}
use mixi.Agent.Messages.{AgentMessage}
use mixi.Agent.Loop.{
  EndReason, LoopDeps, Run, Step, ended, next_turn, agent_start, is_empty, guarded, turn_body,
  advance, follow, round, loop, run_loop,
}
use mixi.Agent.Loop.Runs.{InRun, StepIn, Outcome, inject-InRun, turn_body-StepIn}

module _ {W : Type 0} (d : LoopDeps W) (history : List AgentMessage) where
  -- The turn that the cap stops ends the run.
  abbrev IsEnded : Step W → Type 0
  IsEnded (ended reason s) = Unit
  IsEnded (next_turn had s) = ⊥

  guarded_capped : (s : Run W) → 0 < d.max_turns → d.max_turns < s.turn → IsEnded (guarded d s)
  unfolding guarded
  guarded_capped s h k = rw (lt→ltb 0 d.max_turns h, lt→ltb d.max_turns s.turn k) tt

  turn_body_capped :
      (n : ℕ) (pending : List AgentMessage) (s : Run W)
      → InRun d history n s
      → 0 < d.max_turns
      → d.max_turns ≤ n
      → IsEnded (turn_body d pending s)
  unfolding turn_body
  turn_body_capped n pending s h m k =
      guarded_capped _ m
        (omega (arith, (inject-InRun d history n _ _ (inject-InRun d history n pending s h)).1))

  abbrev EndsBy : ℕ → Outcome d history → Type 0
  EndsBy n none = ⊥
  EndsBy n (some (ms, reason, s)) = s.turn ≤ n

  -- the rounds that are left: a turn and a poll for each turn that the cap allows
  abbrev rounds : ℕ → Bool → ℕ
  rounds n must = 2 * (d.max_turns - n) + (if must then 1 else 2)

  advance-EndsBy :
      (n fuel : ℕ) (more : Bool → Run W → Outcome d history) (x : Step W)
      → ((had : Bool) (s : Run W)
          → InRun d history n s
          → n ≤ d.max_turns
          → EndsBy (suc d.max_turns) (more had s))
      → StepIn d history n x
      → (d.max_turns < n → IsEnded x)
      → n ≤ suc d.max_turns
      → EndsBy (suc d.max_turns) (advance d more x)
  advance-EndsBy n fuel more (ended reason s) ih h e l = omega (arith, h.1)
  advance-EndsBy n fuel more (next_turn had s) ih h e l = elim (Bool-cases (leb n d.max_turns)) [
    | inl q ↦ ih had s h (leb→le n d.max_turns q)
    | inr q ↦ absurd (e (leb→lt n d.max_turns q))
  ]

  module _ (fuel : ℕ) (more : List AgentMessage → Bool → Run W → Outcome d history)
      (m : 0 < d.max_turns) where
    round_total :
        (n : ℕ) (pending : List AgentMessage) (had : Bool) (s : Run W)
        → ((n : ℕ) (ms : List AgentMessage) (had : Bool) (s : Run W)
            → InRun d history n s
            → n ≤ d.max_turns
            → rounds n (not (is_empty ms) || had) ≤ fuel
            → EndsBy (suc d.max_turns) (more ms had s))
        → InRun d history n s
        → n ≤ d.max_turns
        → rounds n (not (is_empty pending) || had) ≤ suc fuel
        → EndsBy (suc d.max_turns) (round d more pending had s)
    unfolding round
    round_total n pending had s ih h l f = elim (Bool-cases (not (is_empty pending) || had)) [
      | inl q ↦ rw q (body (rw q at f) s h)
      | inr q ↦
          let f' : 2 * (d.max_turns - n) + 2 ≤ suc fuel = rw q at f in
          elim (Bool-cases (d.steering_waits s.world).0) [
            | inl r ↦
                rw (q, r) (body (omega arith) (record s { world = (d.steering_waits s.world).1 }) h)
            | inr r ↦
                rw (q, r)
                  (polled (d.drain_follow_up (d.steering_waits s.world).1).0
                    (record s { world = (d.drain_follow_up (d.steering_waits s.world).1).1 }) f' h)
          ]
    ]
      where
        left :
            (had : Bool)
            → 2 * (d.max_turns - n) + 1 ≤ suc fuel
            → suc n ≤ d.max_turns
            → rounds (suc n) (not (is_empty {A = AgentMessage} []) || had) ≤ fuel
        left true f k = omega arith
        left false f k = omega arith

        body :
            2 * (d.max_turns - n) + 1 ≤ suc fuel
            → (s : Run W) → InRun d history n s
            → EndsBy (suc d.max_turns) (advance d (more []) (turn_body d pending s))
        body f s h =
            advance-EndsBy (suc n) fuel (more []) (turn_body d pending s)
              (λ had s h k. ih (suc n) [] had s h k (left had f k))
              (turn_body-StepIn d history n pending s h)
              (λ k. turn_body_capped n pending s h m (omega arith)) (omega arith)

        polled :
            (ms : List AgentMessage) (s : Run W)
            → 2 * (d.max_turns - n) + 2 ≤ suc fuel
            → InRun d history n s
            → EndsBy (suc d.max_turns) (follow d (λ ms. more ms false) ms s)
        polled [] s f h = omega (arith, h.1)
        polled (x ∷ ms) s f h = ih n (x ∷ ms) false s h l (omega arith)

  loop_total :
      (fuel n : ℕ) (pending : List AgentMessage) (had : Bool) (s : Run W)
      → 0 < d.max_turns
      → InRun d history n s
      → n ≤ d.max_turns
      → rounds n (not (is_empty pending) || had) ≤ fuel
      → EndsBy (suc d.max_turns) (loop d fuel pending had s)
  unfolding loop
  loop_total zero n pending had s m h l f = absurd (none_left (not (is_empty pending) || had) f)
    where
      none_left : (b : Bool) → rounds n b ≤ 0 → ⊥
      none_left true f = omega arith
      none_left false f = omega arith
  loop_total (suc fuel) n pending had s m h l f =
      round_total fuel (loop d fuel) m n pending had s
        (λ n ms had s h. loop_total fuel n ms had s m h) h l f

  -- A run with a turn cap ends, after as many rounds at most as twice the cap and two more, and no
  -- more turns have begun than the cap allows and the one that it stops.
  pub run_loop_total :
      (initial : List AgentMessage) (w : W)
      → 0 < d.max_turns
      → (out : List AgentMessage × EndReason × Run W) × (run_loop d
            (2 * d.max_turns + 2)
            history
            initial
            w
          ≡ some out)
        × ((out.2).turn ≤ suc d.max_turns)
  unfolding run_loop
  run_loop_total initial w m =
      returned (loop d (2 * d.max_turns + 2) initial (is_empty initial) start) (
        loop_total (2 * d.max_turns + 2) 0 initial (is_empty initial) start m
          (sym (append-nil history), refl) (omega arith)
          (enough (not (is_empty initial) || is_empty initial)))
    where
      start : Run W
      start = record { msgs = history; new_msgs = []; turn = 0; world = d.emit agent_start w }

      enough : (b : Bool) → rounds 0 b ≤ 2 * d.max_turns + 2
      enough true = omega arith
      enough false = omega arith

      returned :
          (o : Outcome d history)
          → EndsBy (suc d.max_turns) o
          → (out : List AgentMessage × EndReason × Run W) × (o ≡ some out)
            × ((out.2).turn ≤ suc d.max_turns)
      returned none h = absurd h
      returned (some out) h = (out, refl, h)
