-- ===== src/Workset/Builder.antt =====
-- internal/workset/builder.go: the messages that a request sends, kept within the token budget.
pub mod Fits
pub mod Protected
use mixi.Base.{
  ℕ, zero, suc, ◌+◌, ◌-◌, ◌⊎◌, inl, inr, Bool, true, false, not, ◌&&◌, Option, none, some, List, [],
  ◌∷◌, ◌++◌, map, reverse, ltb, leb, ◌==◌, if◌then◌else◌, length, take, drop,
}
use mixi.Base.Bytes.{Bytes, codes, bytes_eq, decimal}
use mixi.Ai.{
  Content, text_content, image_content, thinking_content, tool_call, assistant_message,
  tool_result_message,
}
use mixi.Agent.Messages.{AgentMessage, model_message, compaction_summary, custom_message}
use mixi.Workset.Files.{StaleFile, modified, deleted}

abbrev pub trim_min_bytes : ℕ
trim_min_bytes = 1024

abbrev pub recent_turns_protected : ℕ
recent_turns_protected = 2

abbrev pub stale_notice_max_files : ℕ
stale_notice_max_files = 20

-- A Go int as a difference: what was charged, and what was credited.
pub record Cost : Type 0 where
  pub charged : ℕ
  pub credited : ℕ

unfoldable pub charge : ℕ → Cost → Cost
charge n c = record c { charged = c.charged + n }

unfoldable pub credit : ℕ → Cost → Cost
credit n c = record c { credited = c.credited + n }

abbrev pub int_leb : Cost → Cost → Bool
int_leb a b = leb (a.charged + b.credited) (b.charged + a.credited)

-- what SetCompactionState sets
pub record CompactionState : Type 0 where
  pub summary : Bytes
  pub kept_from : ℕ
  pub pinned : List AgentMessage

-- The builder over the state `W` of what it is wired to: the estimates, the working set and the
-- compaction; a compaction answers whether it succeeded.
pub record Builder (W : Type 0) : Type 0 where
  pub window : ℕ
  pub reserve : ℕ
  pub max_output : ℕ
  pub now : ℕ
  pub estimate : W → List AgentMessage → ℕ
  pub estimate_one : AgentMessage → ℕ
  pub state : W → CompactionState
  pub stale : W → List StaleFile
  pub compact_now : Option (W → Bool × W)

abbrev pub budget : {W : Type 0} → Builder W → Cost
budget b = record { charged = b.window; credited = b.reserve + b.max_output }

-- staleNotice
abbrev stale_part : StaleFile → Bytes
stale_part s = elim s.reason [
  | deleted ↦ s.path ++ codes " (deleted)"
  | modified ↦ s.path ++ codes " (read turn " ++ decimal s.read_turn ++ codes ", modified)"
]

unfoldable pub join_parts : List Bytes → Bytes
join_parts [] = []
join_parts (p ∷ []) = p
join_parts (p ∷ q ∷ ps) = p ++ codes ", " ++ join_parts (q ∷ ps)

abbrev and_more : ℕ → Bytes
and_more more = if ltb 0 more then codes ", and " ++ decimal more ++ codes " more" else []

unfoldable pub stale_notice : List StaleFile → Bytes
stale_notice [] = []
stale_notice (s ∷ ss) =
    codes "[system] Files changed on disk since you last read them: "
    ++ join_parts (map stale_part (take stale_notice_max_files (s ∷ ss)))
    ++ and_more (length (s ∷ ss) - stale_notice_max_files)
    ++ codes ". Re-read before relying on their content."

unfoldable pub credit_all : (AgentMessage → ℕ) → List AgentMessage → Cost → Cost
credit_all one [] c = c
credit_all one (m ∷ ms) c = credit_all one ms (credit (one m) c)

unfoldable pub charge_all : (AgentMessage → ℕ) → List AgentMessage → Cost → Cost
charge_all one [] c = c
charge_all one (m ∷ ms) c = charge_all one ms (charge (one m) c)

abbrev cuts : CompactionState → List AgentMessage → Bool
cuts s msgs = not (bytes_eq s.summary []) && (ltb 0 s.kept_from && leb s.kept_from (length msgs))

-- the summary and the pinned messages
abbrev pub survivors : ℕ → CompactionState → List AgentMessage
survivors now s = compaction_summary s.summary now ∷ s.pinned

abbrev pub kept :
    (AgentMessage → ℕ) → ℕ → CompactionState → List AgentMessage → Cost → List AgentMessage × Cost
kept one now s msgs cost =
    if cuts s msgs
    then (
      survivors now s ++ drop s.kept_from msgs,
      charge_all one (survivors now s) (credit_all one (take s.kept_from msgs) cost),
    )
    else (msgs, cost)

abbrev pub noticed :
    (AgentMessage → ℕ) → ℕ → Bytes → List AgentMessage × Cost → List AgentMessage × Cost
noticed one now [] (out, cost) = (out, cost)
noticed one now (c ∷ notice) (out, cost) = (
  out ++ custom_message (c ∷ notice) now ∷ [],
  charge (one (custom_message (c ∷ notice) now)) cost,
)

-- project
unfoldable pub project : {W : Type 0} → Builder W → W → List AgentMessage → List AgentMessage × Cost
project b w msgs = noticed b.estimate_one b.now (stale_notice (b.stale w)) (
    kept b.estimate_one b.now (b.state w) msgs
      (record { charged = b.estimate w msgs; credited = 0 }))

-- protectedFrom, from the end: the messages are given newest first
abbrev pub is_assistant : AgentMessage → Bool
is_assistant (model_message (assistant_message m) excluded) = true
is_assistant _ = false

unfoldable pub seek_protected : List AgentMessage → ℕ → ℕ
seek_protected [] seen = 0
seek_protected (m ∷ older) seen =
    let same = seek_protected older seen in
    let more = seek_protected older (suc seen) in
    if is_assistant m
    then if suc seen == recent_turns_protected then length older else more
    else same

unfoldable pub protected_from : List AgentMessage → ℕ
protected_from msgs = seek_protected (reverse msgs) 0

abbrev content_bytes : Content → ℕ
content_bytes (text_content text sig) = length text
content_bytes (image_content encoded mime) = length encoded
content_bytes (thinking_content thinking sig redacted) = 0
content_bytes (tool_call id name args sig) = 0

-- toolResultBytes
unfoldable pub tool_result_bytes : List Content → ℕ
tool_result_bytes [] = 0
tool_result_bytes (c ∷ cs) = content_bytes c + tool_result_bytes cs

pub record Candidate : Type 0 where
  pub idx : ℕ
  pub size : ℕ

-- the size of a tool result that may be trimmed
unfoldable pub fat_size : AgentMessage → Option ℕ
fat_size (model_message (tool_result_message m) false) =
    if ltb trim_min_bytes (tool_result_bytes m.content)
    then some (tool_result_bytes m.content)
    else none
fat_size _ = none

abbrev add_candidate : ℕ → Option ℕ → List Candidate → List Candidate
add_candidate i none cs = cs
add_candidate i (some n) cs = record { idx = i; size = n } ∷ cs

-- the fat ones of the messages from index `i`, of which `n` are looked at
unfoldable pub candidates : ℕ → ℕ → List AgentMessage → List Candidate
candidates i zero ms = []
candidates i (suc n) [] = []
candidates i (suc n) (m ∷ ms) = add_candidate i (fat_size m) (candidates (suc i) n ms)

-- sort.Slice by size, the largest first; among equal sizes this is one of the orders it may give
unfoldable pub insert_candidate : Candidate → List Candidate → List Candidate
insert_candidate c [] = c ∷ []
insert_candidate c (d ∷ ds) =
    let rest = insert_candidate c ds in if ltb c.size d.size then d ∷ rest else c ∷ d ∷ ds

unfoldable pub by_size : List Candidate → List Candidate
by_size [] = []
by_size (c ∷ cs) = insert_candidate c (by_size cs)

abbrev pub placeholder : ℕ → Bytes
placeholder n =
    codes "[tool result trimmed after context pressure; originally "
    ++ decimal n
    ++ codes " bytes. Re-run the tool if needed.]"

abbrev pub trimmed : ℕ → AgentMessage → AgentMessage
trimmed n (model_message (tool_result_message m) excluded) =
    model_message
      (tool_result_message (record m { content = text_content (placeholder n) [] ∷ [] })) excluded
trimmed n m = m

-- out[i] = trimmed(out[i]), and the cost with it
unfoldable pub trim_at :
    (AgentMessage → ℕ) → ℕ → ℕ → List AgentMessage → Cost → List AgentMessage × Cost
trim_at one i n [] cost = ([], cost)
trim_at one zero n (m ∷ ms) cost =
    (trimmed n m ∷ ms, charge (one (trimmed n m)) (credit (one m) cost))
trim_at one (suc i) n (m ∷ ms) cost = let (out, cost') = trim_at one i n ms cost in (m ∷ out, cost')

unfoldable pub trim_each :
    (AgentMessage → ℕ) → Cost → List Candidate → List AgentMessage × Cost → List AgentMessage × Cost
trim_each one limit [] (out, cost) = (out, cost)
trim_each one limit (c ∷ cs) (out, cost) =
    let rest = trim_each one limit cs (trim_at one c.idx c.size out cost) in
    if int_leb cost limit then (out, cost) else rest

-- trimToolResults
unfoldable pub trim_tool_results :
    (AgentMessage → ℕ) → Cost → List AgentMessage × Cost → List AgentMessage × Cost
trim_tool_results one limit (out, cost) =
    trim_each one limit (by_size (candidates 0 (protected_from out) out)) (out, cost)

-- trimmed only when it does not fit
abbrev pub fitted : (AgentMessage → ℕ) → Cost → List AgentMessage × Cost → List AgentMessage × Cost
fitted one limit p = if int_leb (p.1) limit then p else trim_tool_results one limit p

-- What Build returns: the projection, or the error with the cost; and the state after it.
abbrev pub Built : Type 0 → Type 0
Built W = (Cost ⊎ List AgentMessage) × W

abbrev pub or_error : {W : Type 0} → Cost → W → List AgentMessage × Cost → Built W
or_error limit w (out, cost) = (if int_leb cost limit then inr out else inl cost, w)

abbrev pub recompacted :
    {W : Type 0} → Builder W → List AgentMessage → List AgentMessage × Cost → Bool × W → Built W
recompacted b msgs p (false, w) = (inl (p.1), w)
recompacted b msgs p (true, w) =
    or_error (budget b) w (fitted b.estimate_one (budget b) (project b w msgs))

abbrev pub compact_and_retry :
    {W : Type 0}
    → Builder W
    → W
    → List AgentMessage
    → List AgentMessage × Cost
    → Option (W → Bool × W)
    → Built W
compact_and_retry b w msgs p none = (inl (p.1), w)
compact_and_retry b w msgs p (some f) = recompacted b msgs p (f w)

-- Build
unfoldable pub build : {W : Type 0} → Builder W → W → List AgentMessage → Built W
build b w msgs =
    let p = fitted b.estimate_one (budget b) (project b w msgs) in
    if int_leb (p.1) (budget b) then (inr (p.0), w) else compact_and_retry b w msgs p b.compact_now
