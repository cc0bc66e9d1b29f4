-- ===== src/Agent/ToolExec/Pairing.antt =====
-- internal/agent/toolexec.go: the results of a batch stand for its calls, in source order.
use mixi.Base.{
  ℕ, zero, suc, ◌<◌, ◌≡◌, refl, sym, ap, ap₂, ◌∙◌, ◌⊎◌, inl, inr, Bool, true, false, ◌||◌, Option,
  none, some, List, [], ◌∷◌, map, arith, ◌==◌, if◌then◌else◌, Bool-cases, length,
}
use mixi.Base.Bytes.{Bytes, codes}
use mixi.Ai.{ToolResultMessage}
use mixi.Agent.ToolExec.{
  ToolCall, Tool, Deps, TimedCall, Slot, done, waiting, Filtered, passes, blocks, breaks,
  filter_call, filtered, prepared, checked, looked_up, slot_of, Validated, coerced, invalid_schema,
  invalid_args, error_result, invoke_tool, prepare_call, run_prepared, run_one_call,
  exec_sequential, slot, run_slot, finish_at, finish_all, exec_parallel,
}

-- What a result and a call are matched by
abbrev pub result_key : ToolResultMessage → Bytes × Bytes
result_key r = (r.tool_call_id, r.tool_name)

abbrev pub call_key : TimedCall → Bytes × Bytes
call_key t = (t.call.id, t.call.name)

abbrev pub occurs : ℕ → List ℕ → Bool
occurs i [] = false
occurs i (j ∷ js) = i == j || occurs i js

-- The result of a call by itself
pub settled : Deps → TimedCall → ToolResultMessage
settled d t =
    if t.ended_before
    then error_result d.now t.call (codes "Operation aborted")
    else run_one_call d t.call t.ended_after

-- A call that is let through is the one that came, but for its arguments.
abbrev IsSameCall : ToolCall → ToolCall → Type 0
IsSameCall c c' = (c'.id ≡ c.id) × (c'.name ≡ c.name)

abbrev LetsThrough : ToolCall → Bytes ⊎ ToolCall → Type 0
LetsThrough c (inl reason) = Unit
LetsThrough c (inr c') = IsSameCall c c'

abbrev Prepares : ToolCall → Bytes ⊎ (Tool × ToolCall) → Type 0
Prepares c (inl reason) = Unit
Prepares c (inr (tool, c')) = IsSameCall c c'

filtered-LetsThrough :
    (rest : ToolCall → Bytes ⊎ ToolCall) (c : ToolCall) (x : Filtered)
    → ((args : Bytes) → LetsThrough c (rest (record c { args = args })))
    → LetsThrough c (filtered rest c x)
filtered-LetsThrough rest c (breaks message) ih = tt
filtered-LetsThrough rest c (blocks reason) ih = tt
filtered-LetsThrough rest c (passes none) ih = ih c.args
filtered-LetsThrough rest c (passes (some args)) ih = ih args

filter_call-LetsThrough :
    (fs : List (ToolCall → Filtered)) (c : ToolCall) (args : Bytes)
    → LetsThrough c (filter_call fs (record c { args = args }))
unfolding filter_call
filter_call-LetsThrough [] c args = (refl, refl)
filter_call-LetsThrough (f ∷ fs) c args =
    filtered-LetsThrough (filter_call fs) (record c { args = args }) (f (record c { args = args }))
      (λ args'. filter_call-LetsThrough fs c args')

module _ (d : Deps) (c : ToolCall) where
  prepared-Prepares :
      (tool : Tool) (c' : ToolCall) (x : Validated)
      → IsSameCall c c'
      → Prepares c (prepared d tool c' x)
  prepared-Prepares tool c' (invalid_schema message) h = tt
  prepared-Prepares tool c' (invalid_args message) h = tt
  prepared-Prepares tool c' (coerced args) h = h

  checked-Prepares :
      (tool : Tool) (c' : ToolCall) (x : Option Bytes)
      → IsSameCall c c'
      → Prepares c (checked d tool c' x)
  checked-Prepares tool c' (some reason) h = tt
  checked-Prepares tool c' none h = prepared-Prepares tool c' (d.validate tool c') h

  looked_up-Prepares : (x : Option Tool) → Prepares c (looked_up d c x)
  looked_up-Prepares none = tt
  looked_up-Prepares (some tool) =
      pass (filter_call d.filters c) (filter_call-LetsThrough d.filters c c.args)
    where
      pass :
          (y : Bytes ⊎ ToolCall)
          → LetsThrough c y
          → Prepares c (elim y [
            | inl reason ↦ inl reason
            | inr c' ↦ checked d tool c' (d.before_tool_call c')
          ])
      pass (inl reason) h = tt
      pass (inr c') h = checked-Prepares tool c' (d.before_tool_call c') h

  run_prepared-key :
      (ended : Bool) (x : Bytes ⊎ (Tool × ToolCall))
      → Prepares c x
      → result_key (run_prepared d c ended x) ≡ (c.id, c.name)
  unfolding run_prepared error_result invoke_tool
  run_prepared-key ended (inl text) h = refl
  run_prepared-key true (inr (tool, c')) h = refl
  run_prepared-key false (inr (tool, c')) (h, k) = ap₂ (λ x y. (x, y)) h k

  run_one_call-key : (ended : Bool) → result_key (run_one_call d c ended) ≡ (c.id, c.name)
  unfolding run_one_call prepare_call
  run_one_call-key ended =
      run_prepared-key ended (looked_up d c (d.get c.name)) (looked_up-Prepares (d.get c.name))

-- One after the other, each call of a batch gets one result, with its id and its name, in the
-- order of the calls, aborted or not.
pub exec_sequential-key :
    (d : Deps) (aborted : Bool) (ts : List TimedCall)
    → map result_key (exec_sequential d aborted ts) ≡ map call_key ts
unfolding exec_sequential error_result
exec_sequential-key d aborted [] = refl
exec_sequential-key d aborted (t ∷ ts) = elim (Bool-cases (aborted || t.ended_before)) [
  | inl q ↦ rw q (ap (λ r. call_key t ∷ r) (exec_sequential-key d true ts))
  | inr q ↦ rw q (
      ap₂ (λ k r. k ∷ r) (run_one_call-key d t.call t.ended_after) (exec_sequential-key d false ts))
]

suc_not_zero : (i : ℕ) → (suc i == 0) ≡ false
suc_not_zero i = ground arith

zero_not_suc : (i : ℕ) → (0 == suc i) ≡ false
zero_not_suc i = ground arith

suc_eq : (i j : ℕ) → (suc i == suc j) ≡ (i == j)
suc_eq i j = ground arith

-- less one, of those that are not 0
below : List ℕ → List ℕ
below [] = []
below (zero ∷ js) = below js
below (suc j ∷ js) = j ∷ below js

occurs-below : (i : ℕ) (js : List ℕ) → occurs (suc i) js ≡ occurs i (below js)
unfolding below
occurs-below i [] = refl
occurs-below i (zero ∷ js) = rw (suc_not_zero i) (occurs-below i js)
occurs-below i (suc j ∷ js) = ap₂ (λ a b. a || b) (suc_eq i j) (occurs-below i js)

module _ (d : Deps) where
  run_slot_twice : (s : Slot) → run_slot d (run_slot d s) ≡ run_slot d s
  run_slot_twice (done r) = refl
  run_slot_twice (waiting tool call prepared ended) = refl

  -- The head's slot and the others' are filled apart.
  finish_all-cons :
      (js : List ℕ) (s : Slot) (ss : List Slot)
      → finish_all d js (s ∷ ss)
        ≡ (if occurs 0 js then run_slot d s else s) ∷ finish_all d (below js) ss
  unfolding finish_all finish_at below
  finish_all-cons [] s ss = refl
  finish_all-cons (zero ∷ js) s ss =
      finish_all-cons js (run_slot d s) ss
      ∙ ap (λ x. x ∷ finish_all d (below js) ss) (twice (occurs 0 js))
    where
      twice : (b : Bool) → (if b then run_slot d (run_slot d s) else run_slot d s) ≡ run_slot d s
      twice true = run_slot_twice s
      twice false = refl
  finish_all-cons (suc j ∷ js) s ss = rw (zero_not_suc j) (finish_all-cons js s (finish_at d j ss))

  run_slot-slot : (t : TimedCall) → run_slot d (slot d t) ≡ done (settled d t)
  unfolding slot settled run_one_call run_prepared
  run_slot-slot t = elim (Bool-cases t.ended_before) [
    | inl q ↦ rw q
    | inr q ↦ rw q (by_slot (prepare_call d t.call))
  ]
    where
      by_slot :
          (x : Bytes ⊎ (Tool × ToolCall))
          → run_slot d (slot_of d t x) ≡ done (run_prepared d t.call t.ended_after x)
      by_slot (inl text) = refl
      by_slot (inr (tool, ready)) = refl

  -- In whatever order the goroutines finish, once each has, the slots hold what each call gives by
  -- itself, in the order of the calls.
  pub exec_parallel-settled :
      (completed : List ℕ) (ts : List TimedCall)
      → ((i : ℕ) → i < length ts → occurs i completed ≡ true)
      → exec_parallel d completed ts ≡ map (λ t. done (settled d t)) ts
  unfolding exec_parallel finish_all finish_at
  exec_parallel-settled completed [] h = finish_none completed
    where
      finish_none : (js : List ℕ) → finish_all d js [] ≡ []
      finish_none [] = refl
      finish_none (j ∷ js) = finish_none js
  exec_parallel-settled completed (t ∷ ts) h =
      finish_all-cons completed (slot d t) (map (slot d) ts)
      ∙ ap₂ (λ x xs. x ∷ xs) (head (h 0 (omega arith)))
          (exec_parallel-settled (below completed) ts
            (λ i l. sym (occurs-below i completed) ∙ h (suc i) (omega arith)))
    where
      head :
          occurs 0 completed ≡ true
          → (if occurs 0 completed then run_slot d (slot d t) else slot d t) ≡ done (settled d t)
      head q = rw q (run_slot-slot t)
