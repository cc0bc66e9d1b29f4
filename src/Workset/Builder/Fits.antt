-- ===== src/Workset/Builder/Fits.antt =====
-- internal/workset/builder.go: what Build returns is within the budget.
use mixi.Base.{
  ℕ, zero, suc, ◌+◌, ◌≤◌, ◌≡◌, refl, sym, ap, ◌∙◌, subst, inl, inr, Bool, true, false, Option, none,
  some, List, [], ◌∷◌, ◌++◌, arith, if◌then◌else◌, leb→le, Bool-cases, take, drop, take-append-drop,
}
use mixi.Agent.Messages.{AgentMessage}
use mixi.Compact.Tokens.{sum_of}
use mixi.Workset.Builder.{
  Cost, charge, credit, int_leb, CompactionState, Builder, budget, credit_all, charge_all, kept,
  noticed, project, trim_at, trim_each, trim_tool_results, fitted, or_error, recompacted,
  compact_and_retry, build, Candidate, by_size, candidates, protected_from, survivors, cuts,
  stale_notice,
}

module _ (one : AgentMessage → ℕ) where
  sum-append : (xs ys : List AgentMessage) → sum_of one (xs ++ ys) ≡ sum_of one xs + sum_of one ys
  unfolding sum_of
  sum-append [] ys = omega arith
  sum-append (x ∷ xs) ys = omega (arith, sum-append xs ys)

  sum_split :
      (n : ℕ) (ms : List AgentMessage)
      → sum_of one (take n ms) + sum_of one (drop n ms) ≡ sum_of one ms
  sum_split n ms =
      sym (sum-append (take n ms) (drop n ms)) ∙ ap (sum_of one) (take-append-drop n ms)

  credited_all :
      (ms : List AgentMessage) (c : Cost)
      → ((credit_all one ms c).credited ≡ c.credited + sum_of one ms)
        × ((credit_all one ms c).charged ≡ c.charged)
  unfolding credit_all credit sum_of
  credited_all [] c = (omega arith, refl)
  credited_all (m ∷ ms) c = let (p, q) = credited_all ms (credit (one m) c) in (omega (arith, p), q)

  charged_all :
      (ms : List AgentMessage) (c : Cost)
      → ((charge_all one ms c).charged ≡ c.charged + sum_of one ms)
        × ((charge_all one ms c).credited ≡ c.credited)
  unfolding charge_all charge sum_of
  charged_all [] c = (omega arith, refl)
  charged_all (m ∷ ms) c = let (p, q) = charged_all ms (charge (one m) c) in (omega (arith, p), q)

  trim_at_cost :
      (i n : ℕ) (ms : List AgentMessage) (cost : Cost)
      → (trim_at one i n ms cost).1.charged + cost.credited + sum_of one ms
        ≡ (trim_at one i n ms cost).1.credited
          + cost.charged
          + sum_of one ((trim_at one i n ms cost).0)
  unfolding trim_at charge credit sum_of
  trim_at_cost i n [] cost = omega arith
  trim_at_cost zero n (m ∷ ms) cost = omega arith
  trim_at_cost (suc i) n (m ∷ ms) cost = omega (arith, trim_at_cost i n ms cost)

  -- The cost differs from the estimate of the whole by what the messages in and out differ by:
  -- `whole` is the estimate, `all` the sum over the messages that went in.
  abbrev pub Balanced : ℕ → ℕ → List AgentMessage × Cost → Type 0
  Balanced whole all p = p.1.charged + all ≡ p.1.credited + whole + sum_of one (p.0)

  module _ (whole all : ℕ) where
    noticed-Balanced :
        (now : ℕ) (notice : List ℕ) (p : List AgentMessage × Cost)
        → Balanced whole all p
        → Balanced whole all (noticed one now notice p)
    unfolding charge sum_of
    noticed-Balanced now [] (out, cost) h = h
    noticed-Balanced now (c ∷ notice) (out, cost) h =
        omega (arith, h, sum-append out (AgentMessage.custom_message (c ∷ notice) now ∷ []))

    trim_at-Balanced :
        (i n : ℕ) (ms : List AgentMessage) (cost : Cost)
        → Balanced whole all (ms, cost)
        → Balanced whole all (trim_at one i n ms cost)
    trim_at-Balanced i n ms cost h = omega (arith, h, trim_at_cost i n ms cost)

    trim_each-Balanced :
        (limit : Cost) (cs : List Candidate) (p : List AgentMessage × Cost)
        → Balanced whole all p
        → Balanced whole all (trim_each one limit cs p)
    unfolding trim_each
    trim_each-Balanced limit [] (out, cost) h = h
    trim_each-Balanced limit (c ∷ cs) (out, cost) h = elim (Bool-cases (int_leb cost limit)) [
      | inl q ↦ rw q h
      | inr q ↦ rw q (trim_each-Balanced limit cs _ (trim_at-Balanced c.idx c.size out cost h))
    ]

    fitted-Balanced :
        (limit : Cost) (p : List AgentMessage × Cost)
        → Balanced whole all p
        → Balanced whole all (fitted one limit p)
    unfolding trim_tool_results
    fitted-Balanced limit (out, cost) h = elim (Bool-cases (int_leb cost limit)) [
      | inl q ↦ rw q h
      | inr q ↦
          rw q (
            trim_each-Balanced limit (by_size (candidates 0 (protected_from out) out)) (out, cost)
              h)
    ]

  kept-Balanced :
      (now whole : ℕ) (s : CompactionState) (msgs : List AgentMessage)
      → Balanced whole
          (sum_of one msgs)
          (kept one now s msgs (record { charged = whole; credited = 0 }))
  kept-Balanced now whole s msgs = elim (Bool-cases (cuts s msgs)) [
    | inr q ↦ rw q (omega arith)
    | inl q ↦ rw q (
        let start : Cost = record { charged = whole; credited = 0 } in
        let (p, q) = credited_all (take s.kept_from msgs) start in
        let (r, t) = charged_all (survivors now s) (credit_all one (take s.kept_from msgs) start) in
        omega (
          arith,
          p,
          q,
          r,
          t,
          sum_split s.kept_from msgs,
          sum-append (survivors now s) (drop s.kept_from msgs),
        ))
  ]

-- the projection's own cost is balanced
project-Balanced :
    {W : Type 0} (b : Builder W) (w : W) (msgs : List AgentMessage)
    → Balanced b.estimate_one (b.estimate w msgs) (sum_of b.estimate_one msgs) (project b w msgs)
unfolding project
project-Balanced b w msgs =
    noticed-Balanced b.estimate_one (b.estimate w msgs) (sum_of b.estimate_one msgs) b.now
      (stale_notice (b.stale w)) _
      (kept-Balanced b.estimate_one b.now (b.estimate w msgs) (b.state w) msgs)

fitted-project :
    {W : Type 0} (b : Builder W) (w : W) (msgs : List AgentMessage)
    → Balanced b.estimate_one
        (b.estimate w msgs)
        (sum_of b.estimate_one msgs)
        (fitted b.estimate_one (budget b) (project b w msgs))
fitted-project b w msgs =
    fitted-Balanced b.estimate_one (b.estimate w msgs) (sum_of b.estimate_one msgs) (budget b)
      (project b w msgs) (project-Balanced b w msgs)

-- what a balanced cost within the budget says
abbrev pub WithinBudget :
    {W : Type 0} → Builder W → W → List AgentMessage → List AgentMessage → Type 0
WithinBudget b w msgs out =
    b.estimate w msgs + sum_of b.estimate_one out + (b.reserve + b.max_output)
    ≤ b.window + sum_of b.estimate_one msgs

within :
    {W : Type 0} (b : Builder W) (w : W) (msgs : List AgentMessage) (p : List AgentMessage × Cost)
    → Balanced b.estimate_one (b.estimate w msgs) (sum_of b.estimate_one msgs) p
    → int_leb (p.1) (budget b) ≡ true
    → WithinBudget b w msgs (p.0)
within b w msgs p h q = omega (arith, h, leb→le _ _ q)

or_error-within :
    {W : Type 0} (b : Builder W) (w w' : W) (msgs out : List AgentMessage)
    (p : List AgentMessage × Cost)
    → Balanced b.estimate_one (b.estimate w msgs) (sum_of b.estimate_one msgs) p
    → or_error (budget b) w p ≡ (inr out, w')
    → WithinBudget b w' msgs out
or_error-within b w w' msgs out p h q = elim (Bool-cases (int_leb (p.1) (budget b))) [
  | inr r ↦ absurd (cc (rw r at q))
  | inl r ↦
      let k = rw r at q in
      let same : p.0 ≡ out = cc k in
      let state : w ≡ w' = cc k in
      subst (λ o. WithinBudget b w' msgs o) same
        (subst (λ v. WithinBudget b v msgs (p.0)) state (within b w msgs p h r))
]

recompacted-within :
    {W : Type 0} (b : Builder W) (msgs : List AgentMessage) (p : List AgentMessage × Cost)
    (r : Bool × W) (out : List AgentMessage) (w' : W)
    → recompacted b msgs p r ≡ (inr out, w')
    → WithinBudget b w' msgs out
recompacted-within b msgs p (false, w) out w' q = absurd (cc q)
recompacted-within b msgs p (true, w) out w' q =
    or_error-within b w w' msgs out _ (fitted-project b w msgs) q

retry-within :
    {W : Type 0} (b : Builder W) (w : W) (msgs : List AgentMessage) (p : List AgentMessage × Cost)
    (o : Option (W → Bool × W)) (out : List AgentMessage) (w' : W)
    → compact_and_retry b w msgs p o ≡ (inr out, w')
    → WithinBudget b w' msgs out
retry-within b w msgs p none out w' q = absurd (cc q)
retry-within b w msgs p (some f) out w' q = recompacted-within b msgs p (f w) out w' q

build_at-within :
    {W : Type 0} (b : Builder W) (w : W) (msgs : List AgentMessage) (p : List AgentMessage × Cost)
    (fits : Bool) (out : List AgentMessage) (w' : W)
    → Balanced b.estimate_one (b.estimate w msgs) (sum_of b.estimate_one msgs) p
    → int_leb (p.1) (budget b) ≡ fits
    → (if fits then (inr (p.0), w) else compact_and_retry b w msgs p b.compact_now) ≡ (inr out, w')
    → WithinBudget b w' msgs out
build_at-within b w msgs p true out w' h r q = or_error-within b w w' msgs out p h (rw r q)
build_at-within b w msgs p false out w' h r q = retry-within b w msgs p b.compact_now out w' q

-- The messages that Build returns fit the request budget. In the state that it leaves, the estimate
-- of the conversation, less what the dropped messages cost and more what the projection's cost, is
-- at most the window less the reserve and the output; and Build returns no other projection.
pub build-within :
    {W : Type 0} (b : Builder W) (w : W) (msgs out : List AgentMessage) (w' : W)
    → build b w msgs ≡ (inr out, w')
    → b.estimate w' msgs + sum_of b.estimate_one out + (b.reserve + b.max_output)
      ≤ b.window + sum_of b.estimate_one msgs
unfolding build project
build-within b w msgs out w' q =
    build_at-within b w msgs (fitted b.estimate_one (budget b) (project b w msgs)) _ out w'
      (fitted-project b w msgs) refl q
