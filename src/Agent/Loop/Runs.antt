-- ===== src/Agent/Loop/Runs.antt =====
-- internal/agent/loop.go: what a run promises.
use mixi.Base.{
  ℕ, zero, suc, ◌≡◌, refl, sym, ap, ◌∙◌, subst, inl, inr, Bool, true, false, not, ◌&&◌, ◌||◌,
  Option, none, some, List, [], ◌∷◌, ◌++◌, append-nil, append_assoc, ltb, Bool-cases,
}
use mixi.Ai.{AssistantMessage, ToolResultMessage, assistant_message, tool_result_message}
use mixi.Agent.Messages.{AgentMessage, model_message}
use mixi.Agent.ToolExec.{ToolCall}
use mixi.Agent.Loop.{
  EndReason, LoopDeps, Run, Step, ended, next_turn, end_done, end_aborted, turn_end, end_if,
  extract_tool_calls, is_empty, record_message, inject, record_results, close_turn, dispatch,
  turn_with, stream_step, guarded, turn_body, advance, follow, round, loop, run_loop,
}

module _ {W : Type 0} (d : LoopDeps W) (history : List AgentMessage) where
  -- The conversation is the history and what is new, and that many turns have begun.
  abbrev pub InRun : ℕ → Run W → Type 0
  InRun n s = (s.msgs ≡ history ++ s.new_msgs) × (s.turn ≡ n)

  abbrev pub StepIn : ℕ → Step W → Type 0
  StepIn n (ended reason s) = InRun n s
  StepIn n (next_turn had s) = InRun n s

  record_message-InRun :
      (n : ℕ) (m : AgentMessage) (s : Run W) → InRun n s → InRun n (record_message d m s)
  unfolding record_message
  record_message-InRun n m s (h, k) =
      (ap (λ xs. xs ++ m ∷ []) h ∙ append_assoc history s.new_msgs (m ∷ []), k)

  pub inject-InRun :
      (n : ℕ) (ms : List AgentMessage) (s : Run W) → InRun n s → InRun n (inject d ms s)
  unfolding inject
  inject-InRun n [] s h = h
  inject-InRun n (m ∷ ms) s h = inject-InRun n ms _ (record_message-InRun n m _ h)

  record_results-InRun :
      (n : ℕ) (rs : List ToolResultMessage) (s : Run W)
      → InRun n s
      → InRun n (record_results d rs s)
  unfolding record_results
  record_results-InRun n [] s h = h
  record_results-InRun n (r ∷ rs) s h =
      record_results-InRun n rs _
        (record_message-InRun n (model_message (tool_result_message r) false) s h)

  end_if-StepIn :
      (n : ℕ) (reason : EndReason) (t : Run W) (more : W → Step W) (r : Bool × W)
      → InRun n t
      → ((w : W) → StepIn n (more w))
      → StepIn n (end_if d reason t more r)
  unfolding end_if
  end_if-StepIn n reason t more (true, w) h k = h
  end_if-StepIn n reason t more (false, w) h k = k w

  close_turn-StepIn :
      (n : ℕ) (asst : AssistantMessage) (had : Bool) (rs : List ToolResultMessage) (s : Run W)
      → InRun n s
      → StepIn n (close_turn d asst had rs s)
  unfolding close_turn
  close_turn-StepIn n asst had rs s h =
      end_if-StepIn n end_aborted (record s { world = d.emit (turn_end s.turn asst rs) s.world }) _
        _ h
        (λ w.
          end_if-StepIn n end_done (record s { world = d.emit (turn_end s.turn asst rs) s.world }) _
            _ h (λ w'. h))

  dispatch-StepIn :
      (n : ℕ) (asst : AssistantMessage) (cs : List ToolCall) (s : Run W)
      → InRun n s
      → StepIn n (dispatch d asst cs s)
  unfolding dispatch
  dispatch-StepIn n asst [] s h = close_turn-StepIn n asst false [] s h
  dispatch-StepIn n asst (c ∷ cs) s h =
      close_turn-StepIn n asst true _ _ (record_results-InRun n _ _ h)

  turn_with-StepIn :
      (n : ℕ) (asst : AssistantMessage) (ok : Bool) (s : Run W)
      → InRun n s
      → StepIn n (turn_with d asst ok s)
  unfolding turn_with
  turn_with-StepIn n asst true s h =
      dispatch-StepIn n asst (extract_tool_calls asst) _
        (record_message-InRun n (model_message (assistant_message asst) false) s h)
  turn_with-StepIn n asst false s h =
      record_message-InRun n (model_message (assistant_message asst) false) s h

  guarded-StepIn : (n : ℕ) (s : Run W) → InRun n s → StepIn n (guarded d s)
  unfolding guarded stream_step
  guarded-StepIn n s h = elim (Bool-cases (ltb 0 d.max_turns && ltb d.max_turns s.turn)) [
    | inl q ↦ rw q h
    | inr q ↦ rw q (turn_with-StepIn n _ _ _ h)
  ]

  pub turn_body-StepIn :
      (n : ℕ) (pending : List AgentMessage) (s : Run W)
      → InRun n s
      → StepIn (suc n) (turn_body d pending s)
  unfolding turn_body
  turn_body-StepIn n pending s h = guarded-StepIn (suc n) _ (
      begun
        (inject d (d.drain_steering (inject d pending s).world).0
          (record (inject d pending s) { world = (d.drain_steering (inject d pending s).world).1 }))
        (inject-InRun n _ _ (inject-InRun n pending s h)))
    where
      begun : (u : Run W) → InRun n u → InRun (suc n) (record u { turn = suc u.turn })
      begun u (h, k) = (h, ap suc k)

  abbrev pub Outcome : Type 0
  Outcome = Option (List AgentMessage × EndReason × Run W)

  -- What is returned is what is new.
  abbrev OutIn : Outcome → Type 0
  OutIn none = Unit
  OutIn (some (ms, reason, s)) = s.msgs ≡ history ++ ms

  advance-OutIn :
      (n : ℕ) (more : Bool → Run W → Outcome) (x : Step W)
      → ((had : Bool) (s : Run W) → InRun n s → OutIn (more had s))
      → StepIn n x
      → OutIn (advance d more x)
  advance-OutIn n more (ended reason s) ih h = h.0
  advance-OutIn n more (next_turn had s) ih h = ih had s h

  follow-OutIn :
      (n : ℕ) (more : List AgentMessage → Run W → Outcome) (ms : List AgentMessage) (s : Run W)
      → ((ms : List AgentMessage) (s : Run W) → InRun n s → OutIn (more ms s))
      → InRun n s
      → OutIn (follow d more ms s)
  follow-OutIn n more [] s ih h = h.0
  follow-OutIn n more (m ∷ ms) s ih h = ih (m ∷ ms) s h

  module _ (more : List AgentMessage → Bool → Run W → Outcome) where
    round-OutIn :
        (n : ℕ) (pending : List AgentMessage) (had : Bool) (s : Run W)
        → ((n : ℕ) (ms : List AgentMessage) (had : Bool) (s : Run W)
            → InRun n s
            → OutIn (more ms had s))
        → InRun n s
        → OutIn (round d more pending had s)
    unfolding round
    round-OutIn n pending had s ih h = elim (Bool-cases (not (is_empty pending) || had)) [
      | inl q ↦ rw q (
          advance-OutIn (suc n) (more []) (turn_body d pending s) (ih (suc n) [])
            (turn_body-StepIn n pending s h))
      | inr q ↦ elim (Bool-cases (d.steering_waits s.world).0) [
        | inl r ↦
            rw (q, r)
              (advance-OutIn (suc n) (more [])
                (turn_body d pending (record s { world = (d.steering_waits s.world).1 }))
                (ih (suc n) [])
                (turn_body-StepIn n pending (record s { world = (d.steering_waits s.world).1 }) h))
        | inr r ↦
            rw (q, r)
              (follow-OutIn n (λ ms. more ms false)
                (d.drain_follow_up (d.steering_waits s.world).1).0
                (record s { world = (d.drain_follow_up (d.steering_waits s.world).1).1 })
                (λ ms. ih n ms false) h)
      ]
    ]

  loop-OutIn :
      (fuel n : ℕ) (pending : List AgentMessage) (had : Bool) (s : Run W)
      → InRun n s
      → OutIn (loop d fuel pending had s)
  unfolding loop
  loop-OutIn zero n pending had s h = tt
  loop-OutIn (suc fuel) n pending had s h =
      round-OutIn (loop d fuel) n pending had s (loop-OutIn fuel) h

  -- The messages that a run returns are what it has put after the history, in their order.
  pub run_loop-history :
      (fuel : ℕ) (initial ms : List AgentMessage) (reason : EndReason) (w : W) (s : Run W)
      → run_loop d fuel history initial w ≡ some (ms, reason, s)
      → s.msgs ≡ history ++ ms
  unfolding run_loop
  run_loop-history fuel initial ms reason w s h =
      subst OutIn h
        (loop-OutIn fuel 0 initial (is_empty initial) _ (sym (append-nil history), refl))
