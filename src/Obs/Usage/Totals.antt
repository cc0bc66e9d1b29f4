-- ===== src/Obs/Usage/Totals.antt =====
-- internal/obs/usage.go: the figures that the tracker keeps agree.
use mixi.Base.{
  ℕ, ◌+◌, ◌-◌, ◌≤◌, ◌≡◌, refl, ap, inl, inr, Option, none, some, List, [], ◌∷◌, ◌++◌, arith, ◌==◌,
  Bool-cases,
}
use mixi.Base.Bytes.{Bytes, bytes_eq}
use mixi.Ai.{Usage, assistant_message}
use mixi.Agent.Messages.{AgentMessage, model_message}
use mixi.Agent.Events.{Event, turn_start, turn_end, tool_start, message_end}
use mixi.Obs.Usage.{
  Tracker, TurnUsage, no_usage, add_usage, add_to_model, model_key, in_turn, observe_message,
  one_more_call, close_turn, observe, record_turn,
}

-- the sum over the models
unfoldable pub sum_models : (Usage → ℕ) → List (Bytes × Usage) → ℕ
sum_models f [] = 0
sum_models f ((k, u) ∷ rest) = f u + sum_models f rest

-- The figures of the models sum up to the totals.
pub record Agree (by_model : List (Bytes × Usage)) (sum : Usage) : Type 0 where
  pub input : sum_models (λ u. u.input) by_model ≡ sum.input
  pub output : sum_models (λ u. u.output) by_model ≡ sum.output
  pub cache_read : sum_models (λ u. u.cache_read) by_model ≡ sum.cache_read
  pub cache_write : sum_models (λ u. u.cache_write) by_model ≡ sum.cache_write
  pub total : sum_models (λ u. u.total) by_model ≡ sum.total

unfoldable pub sum_turns : List TurnUsage → ℕ
sum_turns [] = 0
sum_turns (t ∷ ts) = t.usage.total + sum_turns ts

abbrev pub current_total : Option TurnUsage → ℕ
current_total none = 0
current_total (some c) = c.usage.total

-- The figures agree, and the turns, the current one with them, count no token twice.
abbrev pub IsValid : Tracker → Type 0
IsValid t = Agree t.by_model t.total × (sum_turns t.turns + current_total t.current ≤ t.total.total)

module _ (f : Usage → ℕ) (zero_at : f no_usage ≡ 0)
    (adds : (a u : Usage) → f (add_usage a u) ≡ f a + f u) where
  sum-add :
      (key : Bytes) (u : Usage) (ms : List (Bytes × Usage))
      → sum_models f (add_to_model key u ms) ≡ sum_models f ms + f u
  unfolding sum_models add_to_model
  sum-add key u [] = omega (arith, adds no_usage u, zero_at)
  sum-add key u ((k, v) ∷ rest) = elim (Bool-cases (bytes_eq k key)) [
    | inl q ↦ rw q (omega (arith, adds v u))
    | inr q ↦ rw q (omega (arith, sum-add key u rest))
  ]

add-Agree :
    (key : Bytes) (u : Usage) (ms : List (Bytes × Usage)) (total : Usage)
    → Agree ms total
    → Agree (add_to_model key u ms) (add_usage total u)
add-Agree key u ms total v = record {
  input = omega (arith, sum-add (λ u. u.input) refl (λ a u. refl) key u ms, v.input);
  output = omega (arith, sum-add (λ u. u.output) refl (λ a u. refl) key u ms, v.output);
  cache_read = omega (arith, sum-add (λ u. u.cache_read) refl (λ a u. refl) key u ms, v.cache_read);
  cache_write =
      omega (arith, sum-add (λ u. u.cache_write) refl (λ a u. refl) key u ms, v.cache_write);
  total = omega (arith, sum-add (λ u. u.total) refl (λ a u. refl) key u ms, v.total);
}

sum_turns_snoc :
    (ts : List TurnUsage) (t : TurnUsage) → sum_turns (ts ++ t ∷ []) ≡ sum_turns ts + t.usage.total
unfolding sum_turns
sum_turns_snoc [] t = omega arith
sum_turns_snoc (x ∷ ts) t = omega (arith, sum_turns_snoc ts t)

in_turn-total :
    (key : Bytes) (u : Usage) (c : Option TurnUsage)
    → current_total (in_turn key u c) ≤ current_total c + u.total
in_turn-total key u none = omega arith
in_turn-total key u (some c) = omega arith

message-IsValid : (m : AgentMessage) (t : Tracker) → IsValid t → IsValid (observe_message m t)
unfolding observe_message
message-IsValid (model_message (assistant_message m) x) t (a, b) =
    elim (Bool-cases (m.usage.total == 0)) [
      | inl q ↦ simp q (a, b)
      | inr q ↦ simp q (
        add-Agree (model_key m) m.usage t.by_model t.total a,
        omega (arith, b, in_turn-total (model_key m) m.usage t.current),
      )
    ]
message-IsValid m t v = v

one_more_call-total : (c : Option TurnUsage) → current_total (one_more_call c) ≡ current_total c
one_more_call-total none = refl
one_more_call-total (some c) = refl

close_turn-IsValid :
    (now : ℕ) (c : Option TurnUsage) (t : Tracker)
    → t.current ≡ c
    → IsValid t
    → IsValid (close_turn now c t)
close_turn-IsValid now none t q v = v
close_turn-IsValid now (some c) t q (a, b) = (
  a,
  omega (
    arith,
    b,
    ap current_total q,
    sum_turns_snoc t.turns (record c { duration = now - t.started }),
  ),
)

observe-IsValid : (now : ℕ) (e : Event) (t : Tracker) → IsValid t → IsValid (observe now e t)
unfolding observe
observe-IsValid now (turn_start n) t (a, b) = (a, omega (arith, b))
observe-IsValid now (tool_start id) t (a, b) = (a, omega (arith, b, one_more_call-total t.current))
observe-IsValid now (message_end m) t v = message-IsValid m t v
observe-IsValid now (turn_end n m results) t v = close_turn-IsValid now t.current t refl v
observe-IsValid now e t v = v

-- What a tracker is told: an event at a time, or a turn's usage.
pub data Told : Type 0 where
  event_seen : (now : ℕ) → Event → Told
  turn_recorded : (turn : ℕ) → (model : Bytes) → Usage → Told

abbrev pub tell : Told → Tracker → Tracker
tell (event_seen now e) t = observe now e t
tell (turn_recorded n model u) t = record_turn n model u t

unfoldable pub tell_all : List Told → Tracker → Tracker
tell_all [] t = t
tell_all (x ∷ xs) t = tell_all xs (tell x t)

tell-IsValid : (x : Told) (t : Tracker) → IsValid t → IsValid (tell x t)
unfolding record_turn
tell-IsValid (event_seen now e) t v = observe-IsValid now e t v
tell-IsValid (turn_recorded n model u) t (a, b) = (
  add-Agree model u t.by_model t.total a,
  omega (
    arith,
    b,
    sum_turns_snoc t.turns
        (record { turn = n; model = model; usage = u; duration = 0; tool_calls = 0 }),
  ),
)

-- Whatever events and turns a tracker is told of, in whatever order, from one whose figures agree,
-- the figures of its models sum up to its totals, and the turns that it lists, with the current
-- one, have together no more tokens than the total.
pub tell_all-IsValid : (xs : List Told) (t : Tracker) → IsValid t → IsValid (tell_all xs t)
unfolding tell_all
tell_all-IsValid [] t v = v
tell_all-IsValid (x ∷ xs) t v = tell_all-IsValid xs (tell x t) (tell-IsValid x t v)
