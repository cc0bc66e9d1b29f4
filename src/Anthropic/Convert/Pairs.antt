-- ===== src/Anthropic/Convert/Pairs.antt =====
-- internal/ai/anthropic/convert.go: every call of a request has its result.
use mixi.Base.{
  ◌≡◌, refl, sym, ap, ap₂, ◌∙◌, subst, inl, inr, Bool, true, false, ◌&&◌, ◌||◌, false≢true, Option,
  none, some, List, [], ◌∷◌, ◌++◌, map, Bool-cases, and_cases,
}
use mixi.Base.Bytes.{Bytes, bytes_eq, bytes_eq_refl}
use mixi.Ai.{
  Content, Message, ToolResultMessage, text_content, image_content, thinking_content, tool_call,
  user_message, assistant_message, tool_result_message,
}
use mixi.Anthropic.Convert.{
  UserBlock, WireBlock, user_block, thinking_block, redacted_thinking_block, tool_use_block,
  tool_result_block, WireRole, user_role, assistant_role, WireMessage, text_if, blocks_of, ids_of,
  assistant_blocks, tool_ids, results_of, as_result, and_result, convert_tool_result, is_answered,
  missing, turn, user_turn, assistant_turn, convert_user_content, convert_messages,
}

-- The ids of the calls among some blocks
unfoldable pub uses : List WireBlock → List Bytes
uses [] = []
uses (tool_use_block id name input ∷ bs) = id ∷ uses bs
uses (b ∷ bs) = uses bs

-- Every one of these calls has a result among these blocks.
unfoldable pub answers_all : List Bytes → List WireBlock → Bool
answers_all [] bs = true
answers_all (id ∷ ids) bs = is_answered id bs && answers_all ids bs

-- The blocks of the user's message that comes next
unfoldable pub reply_of : List WireMessage → List WireBlock
reply_of [] = []
reply_of (m ∷ ms) = elim m.role [ user_role ↦ m.content | assistant_role ↦ [] ]

-- After each message comes a user's message with a result for each call in it.
unfoldable pub is_paired : List WireMessage → Bool
is_paired [] = true
is_paired (m ∷ ms) = answers_all (uses m.content) (reply_of ms) && is_paired ms

abbrev Paired : Option (List WireMessage) → Type 0
Paired none = Unit
Paired (some out) = is_paired out ≡ true

uses-append : (xs ys : List WireBlock) → uses (xs ++ ys) ≡ uses xs ++ uses ys
unfolding uses
uses-append [] ys = refl
uses-append (tool_use_block id name input ∷ xs) ys = ap (λ t. id ∷ t) (uses-append xs ys)
uses-append (user_block b ∷ xs) ys = uses-append xs ys
uses-append (thinking_block t g ∷ xs) ys = uses-append xs ys
uses-append (redacted_thinking_block e ∷ xs) ys = uses-append xs ys
uses-append (tool_result_block id c e ∷ xs) ys = uses-append xs ys

uses-user_block : (bs : List UserBlock) → uses (map user_block bs) ≡ []
unfolding uses
uses-user_block [] = refl
uses-user_block (b ∷ bs) = uses-user_block bs

uses-blocks_of : (c : Content) → uses (blocks_of c) ≡ ids_of c
unfolding uses
uses-blocks_of (text_content text sig) = uses-user_block (text_if text)
uses-blocks_of (image_content encoded mime) = refl
uses-blocks_of (thinking_content thinking sig true) = refl
uses-blocks_of (thinking_content thinking [] false) = uses-user_block (text_if thinking)
uses-blocks_of (thinking_content thinking (b ∷ sig) false) = refl
uses-blocks_of (tool_call id name args sig) = refl

uses-assistant_blocks : (cs : List Content) → uses (assistant_blocks cs) ≡ tool_ids cs
unfolding assistant_blocks tool_ids uses
uses-assistant_blocks [] = refl
uses-assistant_blocks (c ∷ cs) =
    uses-append (blocks_of c) (assistant_blocks cs)
    ∙ ap₂ (λ x y. x ++ y) (uses-blocks_of c) (uses-assistant_blocks cs)

is_answered-append :
    (id : Bytes) (xs ys : List WireBlock)
    → is_answered id (xs ++ ys) ≡ is_answered id xs || is_answered id ys
unfolding is_answered
is_answered-append id [] ys = refl
is_answered-append id (tool_result_block x c e ∷ xs) ys = elim (Bool-cases (bytes_eq x id)) [
  | inl q ↦ rw q
  | inr q ↦ rw q (is_answered-append id xs ys)
]
is_answered-append id (tool_use_block x n i ∷ xs) ys = is_answered-append id xs ys
is_answered-append id (user_block b ∷ xs) ys = is_answered-append id xs ys
is_answered-append id (thinking_block t g ∷ xs) ys = is_answered-append id xs ys
is_answered-append id (redacted_thinking_block e ∷ xs) ys = is_answered-append id xs ys

both_true : {a b : Bool} → a ≡ true → b ≡ true → a && b ≡ true
both_true {a} {b} p q = rw (p, q)

-- what more blocks do not undo
answers_all-skip :
    (id : Bytes) (ids : List Bytes) (rs ms : List WireBlock)
    → answers_all ids (rs ++ ms) ≡ true
    → answers_all ids (rs ++ tool_result_block id [] false ∷ ms) ≡ true
unfolding answers_all is_answered
answers_all-skip id [] rs ms h = refl
answers_all-skip id (x ∷ ids) rs ms h =
    let (p, q) = and_cases h in
    both_true
      (is_answered-append x rs (tool_result_block id [] false ∷ ms)
        ∙ wider (is_answered x rs) (bytes_eq id x) (is_answered x ms)
            (sym (is_answered-append x rs ms) ∙ p))
      (answers_all-skip id ids rs ms q)
  where
    wider : (a b c : Bool) → a || c ≡ true → a || (b || c) ≡ true
    wider true b c h = refl
    wider false true c h = refl
    wider false false c h = h

answers_all-missing :
    (ids : List Bytes) (rs : List WireBlock) → answers_all ids (rs ++ missing ids rs) ≡ true
unfolding answers_all missing is_answered
answers_all-missing [] rs = refl
answers_all-missing (id ∷ ids) rs = elim (Bool-cases (is_answered id rs)) [
  | inl q ↦
      rw q
        (both_true (is_answered-append id rs (missing ids rs) ∙ rw q) (answers_all-missing ids rs))
  | inr q ↦ rw q (
      both_true
        (is_answered-append id rs (tool_result_block id [] false ∷ missing ids rs)
          ∙ rw (q, bytes_eq_refl id))
        (answers_all-skip id ids rs (missing ids rs) (answers_all-missing ids rs)))
]

uses-missing : (ids : List Bytes) (rs : List WireBlock) → uses (missing ids rs) ≡ []
unfolding uses missing
uses-missing [] rs = refl
uses-missing (id ∷ ids) rs = elim (Bool-cases (is_answered id rs)) [
  | inl q ↦ rw q (uses-missing ids rs)
  | inr q ↦ rw q (uses-missing ids rs)
]

-- Results are no calls.
abbrev NoUses : Option (List WireBlock) → Type 0
NoUses none = Unit
NoUses (some bs) = uses bs ≡ []

and_result-NoUses :
    (m : ToolResultMessage) (x : Option (List UserBlock)) (o : Option (List WireBlock))
    → NoUses o
    → NoUses (and_result (as_result m x) o)
unfolding uses
and_result-NoUses m none o h = tt
and_result-NoUses m (some inner) none h = tt
and_result-NoUses m (some inner) (some bs) h = h

results_of-NoUses : (ms : List Message) → NoUses (results_of ms)
unfolding results_of uses convert_tool_result
results_of-NoUses [] = refl
results_of-NoUses (user_message m ∷ ms) = refl
results_of-NoUses (assistant_message m ∷ ms) = refl
results_of-NoUses (tool_result_message m ∷ ms) =
    and_result-NoUses m (convert_user_content m.content) (results_of ms) (results_of-NoUses ms)

turn-Paired :
    (role : WireRole) (bs : List WireBlock) (out : Option (List WireMessage))
    → uses bs ≡ []
    → Paired out
    → Paired (turn role bs out)
unfolding is_paired answers_all
turn-Paired role bs none h p = tt
turn-Paired role [] (some out) h p = p
turn-Paired role (b ∷ bs) (some out) h p = rw h p

user_turn-Paired :
    (o : Option (List UserBlock)) (out : Option (List WireMessage))
    → Paired out
    → Paired (user_turn o out)
user_turn-Paired none out p = tt
user_turn-Paired (some bs) out p =
    turn-Paired user_role (map user_block bs) out (uses-user_block bs) p

called :
    (b : WireBlock) (bs L : List WireBlock) (out : List WireMessage)
    → answers_all (uses (b ∷ bs)) L ≡ true
    → uses L ≡ []
    → is_paired out ≡ true
    → Paired (turn assistant_role (b ∷ bs) (turn user_role L (some out)))
unfolding is_paired reply_of answers_all is_answered
called b bs [] out a u p = both_true (no_calls (uses (b ∷ bs)) a) p
  where
    no_calls :
        (ids : List Bytes) → answers_all ids [] ≡ true → answers_all ids (reply_of out) ≡ true
    no_calls [] h = refl
    no_calls (id ∷ ids) h = absurd (false≢true h)
called b bs (c ∷ cs) out a u p = both_true a (turn-Paired user_role (c ∷ cs) (some out) u p)

assistant_turn-Paired :
    (bs : List WireBlock) (ids : List Bytes) (r : Option (List WireBlock))
    (out : Option (List WireMessage))
    → uses bs ≡ ids
    → NoUses r
    → Paired out
    → Paired (assistant_turn bs ids r out)
assistant_turn-Paired [] ids r out e n p = p
assistant_turn-Paired (b ∷ bs) ids none out e n p = tt
assistant_turn-Paired (b ∷ bs) ids (some rs) none e n p = tt
assistant_turn-Paired (b ∷ bs) ids (some rs) (some out) e n p =
    called b bs (rs ++ missing ids rs) out
      (ap (λ x. answers_all x (rs ++ missing ids rs)) e ∙ answers_all-missing ids rs)
      (uses-append rs (missing ids rs) ∙ ap₂ (λ x y. x ++ y) n (uses-missing ids rs)) p

convert_messages-Paired : (ms : List Message) → Paired (convert_messages ms)
unfolding convert_messages is_paired
convert_messages-Paired [] = refl
convert_messages-Paired (user_message m ∷ ms) =
    user_turn-Paired (convert_user_content m.content) (convert_messages ms)
      (convert_messages-Paired ms)
convert_messages-Paired (assistant_message m ∷ ms) =
    assistant_turn-Paired (assistant_blocks m.content) (tool_ids m.content) (results_of ms)
      (convert_messages ms) (uses-assistant_blocks m.content) (results_of-NoUses ms)
      (convert_messages-Paired ms)
convert_messages-Paired (tool_result_message m ∷ ms) = convert_messages-Paired ms

-- Whatever the history, in the request made of it each message is followed, if it holds calls, by a
-- user's message with a result for every one of them.
pub convert_messages-is_paired :
    (ms : List Message) (out : List WireMessage)
    → convert_messages ms ≡ some out
    → is_paired out ≡ true
convert_messages-is_paired ms out h = subst Paired h (convert_messages-Paired ms)
