-- ===== src/Workset/Builder/Protected.antt =====
-- internal/workset/builder.go: what a trim leaves alone.
use mixi.Base.{
  ℕ, zero, suc, ◌+◌, ◌≤◌, ◌<◌, ◌≡◌, refl, sym, ap, ◌∙◌, subst, inl, inr, List, [], ◌∷◌, ◌++◌,
  reverse, arith, ltb, if◌then◌else◌, Bool-cases, Option-cases, length, drop, length-append,
  drop-append, All,
}
use mathlib.Core.List.{reverse-cons, reverse-append}
use mixi.Agent.Messages.{AgentMessage}
use mixi.Workset.Builder.{
  Cost, int_leb, Candidate, by_size, insert_candidate, candidates, protected_from, seek_protected,
  is_assistant, recent_turns_protected, trim_at, trim_each, trim_tool_results, fat_size,
}

-- how many of the messages are the model's
unfoldable pub assistants : List AgentMessage → ℕ
assistants [] = 0
assistants (m ∷ ms) = let rest = assistants ms in if is_assistant m then suc rest else rest

assistants-append :
    (xs ys : List AgentMessage) → assistants (xs ++ ys) ≡ assistants xs + assistants ys
unfolding assistants
assistants-append [] ys = omega arith
assistants-append (x ∷ xs) ys = ground (arith, assistants-append xs ys)

assistants-reverse : (xs : List AgentMessage) → assistants (reverse xs) ≡ assistants xs
unfolding assistants
assistants-reverse [] = refl
assistants-reverse (x ∷ xs) =
    ap assistants (reverse-cons x xs)
    ∙ (assistants-append (reverse xs) (x ∷ []) ∙ ground (arith, assistants-reverse xs))

length-reverse : (xs : List AgentMessage) → length (reverse xs) ≡ length xs
length-reverse [] = refl
length-reverse (x ∷ xs) =
    ap length (reverse-cons x xs)
    ∙ (length-append (reverse xs) (x ∷ []) ∙ omega (arith, length-reverse xs))

seek_protected-bound : (ms : List AgentMessage) (seen : ℕ) → seek_protected ms seen ≤ length ms
unfolding seek_protected
seek_protected-bound [] seen = omega arith
seek_protected-bound (m ∷ ms) seen =
    ground (arith, seek_protected-bound ms seen, seek_protected-bound ms (suc seen))

-- past messages among which are too few of the model's
seek_protected-append :
    (xs ys : List AgentMessage) (seen : ℕ)
    → seen + assistants xs < recent_turns_protected
    → seek_protected (xs ++ ys) seen ≤ length ys
unfolding seek_protected assistants
seek_protected-append [] ys seen h = seek_protected-bound ys seen
seek_protected-append (x ∷ xs) ys seen h = elim (Bool-cases (is_assistant x)) [
  | inl q ↦ rw q (
      let k = rw q at h in
      ground (arith, seek_protected-append xs ys (suc seen) (omega (arith, k)), k))
  | inr q ↦ rw q (seek_protected-append xs ys seen (rw q at h))
]

protected_from-append :
    (before recent : List AgentMessage)
    → assistants recent < recent_turns_protected
    → protected_from (before ++ recent) ≤ length before
unfolding protected_from
protected_from-append before recent h = omega (
  arith,
  subst (λ l. seek_protected l 0 ≤ length (reverse before)) (sym (reverse-append before recent))
      (seek_protected-append (reverse recent) (reverse before) 0
        (omega (arith, h, assistants-reverse recent))),
  length-reverse before,
)

trim_at-drop :
    (one : AgentMessage → ℕ) (i k n : ℕ) (ms : List AgentMessage) (cost : Cost)
    → i < k
    → drop k ((trim_at one i n ms cost).0) ≡ drop k ms
unfolding trim_at
trim_at-drop one i zero n ms cost h = absurd (omega (arith, h))
trim_at-drop one i (suc k) n [] cost h = refl
trim_at-drop one zero (suc k) n (m ∷ ms) cost h = refl
trim_at-drop one (suc i) (suc k) n (m ∷ ms) cost h =
    trim_at-drop one i k n ms cost (omega (arith, h))

module _ (k : ℕ) where
  abbrev IsBelow : Candidate → Type 0
  IsBelow c = c.idx < k

  insert-IsBelow :
      (c : Candidate) (cs : List Candidate)
      → IsBelow c
      → All IsBelow cs
      → All IsBelow (insert_candidate c cs)
  unfolding insert_candidate
  insert-IsBelow c [] p ps = (p, tt)
  insert-IsBelow c (d ∷ ds) p (q, qs) = elim (Bool-cases (ltb c.size d.size)) [
    | inl l ↦ rw l (q, insert-IsBelow c ds p qs)
    | inr l ↦ rw l (p, (q, qs))
  ]

  by_size-IsBelow : (cs : List Candidate) → All IsBelow cs → All IsBelow (by_size cs)
  unfolding by_size
  by_size-IsBelow [] ps = tt
  by_size-IsBelow (c ∷ cs) (p, ps) = insert-IsBelow c (by_size cs) p (by_size-IsBelow cs ps)

  candidates-IsBelow :
      (i n : ℕ) (ms : List AgentMessage) → i + n ≤ k → All IsBelow (candidates i n ms)
  unfolding candidates
  candidates-IsBelow i zero ms h = tt
  candidates-IsBelow i (suc n) [] h = tt
  candidates-IsBelow i (suc n) (m ∷ ms) h = elim (Option-cases (fat_size m)) [
    | inl q ↦ rw q (candidates-IsBelow (suc i) n ms (omega (arith, h)))
    | inr (size, q) ↦ rw q (omega (arith, h), candidates-IsBelow (suc i) n ms (omega (arith, h)))
  ]

  trim_each-drop :
      (one : AgentMessage → ℕ) (limit : Cost) (cs : List Candidate) (out : List AgentMessage)
      (cost : Cost)
      → All IsBelow cs
      → drop k ((trim_each one limit cs (out, cost)).0) ≡ drop k out
  unfolding trim_each
  trim_each-drop one limit [] out cost ps = refl
  trim_each-drop one limit (c ∷ cs) out cost (p, ps) = elim (Bool-cases (int_leb cost limit)) [
    | inl q ↦ rw q refl
    | inr q ↦ rw q (trim_each-drop one limit cs _ _ ps ∙ trim_at-drop one c.idx k c.size out cost p)
  ]

-- However far over budget a request is, trimming leaves the end of the conversation as it was: the
-- messages after any point are unchanged if fewer than two of them are the model's.
pub trim_tool_results-recent :
    (one : AgentMessage → ℕ) (limit cost : Cost) (before recent : List AgentMessage)
    → assistants recent < recent_turns_protected
    → drop (length before) ((trim_tool_results one limit (before ++ recent, cost)).0) ≡ recent
unfolding trim_tool_results
trim_tool_results-recent one limit cost before recent h =
    trim_each-drop (length before) one limit _ (before ++ recent) cost (
      by_size-IsBelow (length before) _ (
        candidates-IsBelow (length before) 0 (protected_from (before ++ recent)) (before ++ recent)
          (omega (arith, protected_from-append before recent h))))
    ∙ drop-append before recent
