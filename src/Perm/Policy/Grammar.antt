-- ===== src/Perm/Policy/Grammar.antt =====
-- internal/perm/policy.go: the rule grammar, read back.
use mathlib.Core.Path.{subst₂}
use mathlib.Core.List.{Memᴰ}
use mathlib.Core.Option
use mixi.Base.{
  ◌+◌, ◌≡◌, refl, sym, ap, ◌∙◌, subst, ◌≢◌, ◌⊎◌, inl, inr, Bool, true, false, not, ◌&&◌, Option,
  none, some, List, [], ◌∷◌, ◌++◌, append_assoc, arith, ◌==◌, if◌then◌else◌, Bool-cases,
  Option-cases, length, drop, length-append,
}
use mixi.Base.Bytes.{Bytes, codes, bytes_eq, has_prefix, bytes_eq_iff, append-of_has_prefix}
use mixi.Perm.Rule.{Rule}
use mixi.Perm.Policy.{ok, err, closed, not_empty, rule_syntax, rule_tools, parse_rule, bad_glob}

unfoldable pub NoNewline : Bytes → Type 0
NoNewline [] = Unit
NoNewline (c ∷ s) = ((c == 10) ≡ false) × NoNewline s

closed-append : (s : Bytes) → NoNewline s → closed (s ++ b')' ∷ []) ≡ some s
unfolding closed NoNewline
closed-append [] n = refl
closed-append (c ∷ []) (h, n) = rw h
closed-append (c ∷ d ∷ s) (h, n) = rw h (rw (closed-append (d ∷ s) n))

closed_sound : (s t : Bytes) → closed s ≡ some t → s ≡ t ++ b')' ∷ []
unfolding closed
closed_sound [] t h = cc
closed_sound (c ∷ []) t h = ground arith
closed_sound (c ∷ d ∷ s) t h = elim (Bool-cases (c == 10)) [
  | inl n ↦ cc (rw n at h)
  | inr n ↦ elim (Option-cases (closed (d ∷ s))) [
    | inl e ↦ cc (rw e at (rw n at h))
    | inr (u, e) ↦
        let q : some (c ∷ u) ≡ some t = rw e at (rw n at h) in
        let r : c ∷ u ≡ t = cc q in
        subst (λ x. c ∷ d ∷ s ≡ x ++ b')' ∷ []) r (ap (λ x. c ∷ x) (closed_sound (d ∷ s) u e))
  ]
]

not_empty_some : (s : Bytes) → s ≢ [] → not_empty (some s) ≡ some s
unfolding not_empty
not_empty_some [] n = absurd (n refl)
not_empty_some (c ∷ s) n = refl

rule_syntax-append :
    (tool spec : Bytes)
    → Memᴰ tool rule_tools
    → spec ≢ []
    → NoNewline spec
    → rule_syntax rule_tools (tool ++ (b'(' ∷ (spec ++ b')' ∷ []))) ≡ some (tool, spec)
unfolding rule_syntax
rule_syntax-append tool spec (Memᴰ.head e) n l =
    simp (e, closed-append spec l, not_empty_some spec n)
rule_syntax-append tool spec (Memᴰ.tail (Memᴰ.head e)) n l =
    simp (e, closed-append spec l, not_empty_some spec n)
rule_syntax-append tool spec (Memᴰ.tail (Memᴰ.tail (Memᴰ.head e))) n l =
    simp (e, closed-append spec l, not_empty_some spec n)
rule_syntax-append tool spec (Memᴰ.tail (Memᴰ.tail (Memᴰ.tail (Memᴰ.head e)))) n l =
    simp (e, closed-append spec l, not_empty_some spec n)
rule_syntax-append tool spec (Memᴰ.tail (Memᴰ.tail (Memᴰ.tail (Memᴰ.tail m)))) n l = elim m [ ]

not_mcp : (tool s : Bytes) → Memᴰ tool rule_tools → has_prefix (tool ++ s) (codes "mcp__") ≡ false
unfolding has_prefix
not_mcp tool s (Memᴰ.head e) = rw e
not_mcp tool s (Memᴰ.tail (Memᴰ.head e)) = rw e
not_mcp tool s (Memᴰ.tail (Memᴰ.tail (Memᴰ.head e))) = rw e
not_mcp tool s (Memᴰ.tail (Memᴰ.tail (Memᴰ.tail (Memᴰ.head e)))) = rw e
not_mcp tool s (Memᴰ.tail (Memᴰ.tail (Memᴰ.tail (Memᴰ.tail m)))) = elim m [ ]

-- The text `tool(spec)` of one of the four tools, with a spec that is not empty, has no newline
-- and, for a path tool, is a valid glob, parses to the rule of that tool and spec.
pub parse_rule-wrap :
    (validate : Bytes → Bool) (tool spec source : Bytes)
    → Memᴰ tool rule_tools
    → spec ≢ []
    → NoNewline spec
    → (tool ≡ codes "bash") ⊎ (validate spec ≡ true)
    → let raw = tool ++ (b'(' ∷ (spec ++ b')' ∷ [])) in
      parse_rule validate raw source ≡ ok (record { tool = tool; spec = spec; raw = raw })
unfolding parse_rule
parse_rule-wrap validate tool spec source m n l v =
    rw (not_mcp tool _ m) (rw (rule_syntax-append tool spec m n l, parse_rule) (rw (passes v)))
  where
    passes :
        (tool ≡ codes "bash") ⊎ (validate spec ≡ true)
        → (not (bytes_eq tool (codes "bash")) && not (validate spec)) ≡ false
    passes (inl e) = rw ((bytes_eq_iff tool (codes "bash")).1 e)
    passes (inr e) = ground arith

append-drop_syntax :
    (tool raw t : Bytes)
    → has_prefix raw (tool ++ b'(' ∷ []) ≡ true
    → closed (drop (length tool + 1) raw) ≡ some t
    → raw ≡ tool ++ (b'(' ∷ (t ++ b')' ∷ []))
append-drop_syntax tool raw t p h =
    append-of_has_prefix raw (tool ++ b'(' ∷ []) p
    ∙ (append_assoc tool (b'(' ∷ []) _
        ∙ ap (λ x. tool ++ b'(' ∷ x)
            (ap (λ n. drop n raw) (length-append tool (b'(' ∷ [])) ∙ closed_sound _ t h))

syntax_head :
    (tool raw spec : Bytes) (t : Bytes) (o : Option Bytes)
    → closed (drop (length t + 1) raw) ≡ o
    → has_prefix raw (t ++ b'(' ∷ []) ≡ true
    → Option.map {B = Bytes × Bytes} (λ s. (t, s)) (not_empty o) ≡ some (tool, spec)
    → (tool ≡ t) × (spec ≢ []) × (raw ≡ tool ++ (b'(' ∷ (spec ++ b')' ∷ [])))
unfolding not_empty
syntax_head tool raw spec t none c p h = cc
syntax_head tool raw spec t (some []) c p h = cc
syntax_head tool raw spec t (some (x ∷ s)) c p h =
    let e : t ≡ tool = cc h in
    let f : x ∷ s ≡ spec = cc h in
    (
      sym e,
      rw (← f) (λ q. cc),
      subst₂ (λ a b. raw ≡ a ++ (b'(' ∷ (b ++ b')' ∷ []))) e f
          (append-drop_syntax t raw (x ∷ s) p c),
    )

-- The two shapes of a rule's text.
pub data Denotes (raw : Bytes) (r : Rule) : Type 0 where
  mcp_glob : r.tool ≡ [] → r.spec ≡ raw → has_prefix raw (codes "mcp__") ≡ true → Denotes raw r
  tool_spec :
      Memᴰ r.tool rule_tools
      → r.spec ≢ []
      → raw ≡ r.tool ++ (b'(' ∷ (r.spec ++ b')' ∷ []))
      → Denotes raw r

ok_inj : {a b : Rule} → ok a ≡ ok b → a ≡ b
ok_inj e = cc

rule_syntax_sound :
    (tools : List Bytes) (raw tool spec : Bytes)
    → rule_syntax tools raw ≡ some (tool, spec)
    → Memᴰ tool tools × (spec ≢ []) × (raw ≡ tool ++ (b'(' ∷ (spec ++ b')' ∷ [])))
unfolding rule_syntax
rule_syntax_sound [] raw tool spec h = cc
rule_syntax_sound (t ∷ ts) raw tool spec h = elim (Bool-cases (has_prefix raw (t ++ b'(' ∷ []))) [
  | inl p ↦
      let (e, n, q) =
        syntax_head tool raw spec t (closed (drop (length t + 1) raw)) refl p (rw p at h) in
      (Memᴰ.head e, n, q)
  | inr p ↦ let (m, n, q) = rule_syntax_sound ts raw tool spec (rw p at h) in (Memᴰ.tail m, n, q)
]

-- A text that parses is kept as the rule's text, and either it begins with mcp__ and is the spec of
-- a rule with no tool, or it is one of the four tools with a spec in parentheses that is not empty.
pub parse_rule_sound :
    (validate : Bytes → Bool) (raw source : Bytes) (r : Rule)
    → parse_rule validate raw source ≡ ok r
    → (r.raw ≡ raw) × Denotes raw r
unfolding parse_rule
parse_rule_sound validate raw source r h = elim (Bool-cases (has_prefix raw (codes "mcp__"))) [
  | inl m ↦
      subst (λ (x : Rule). (x.raw ≡ raw) × Denotes raw x) (ok_inj (rw m at h))
        (refl, mcp_glob refl refl m)
  | inr m ↦ elim (Option-cases (rule_syntax rule_tools raw)) [
    | inl e ↦ cc (rw (e, parse_rule) at (rw m at h))
    | inr (ts, e) ↦ parsed ts e (rw (e, parse_rule) at (rw m at h))
  ]
]
  where
    parsed :
        (ts : Bytes × Bytes)
        → rule_syntax rule_tools raw ≡ some ts
        → (if not (bytes_eq ts.0 (codes "bash")) && not (validate ts.1)
            then err (bad_glob source raw)
            else ok (record { tool = ts.0; spec = ts.1; raw = raw }))
          ≡ ok r
        → (r.raw ≡ raw) × Denotes raw r
    parsed ts e k =
        let (m, n, q) = rule_syntax_sound rule_tools raw ts.0 ts.1 e in
        elim (Bool-cases (not (bytes_eq ts.0 (codes "bash")) && not (validate ts.1))) [
          | inl b ↦ cc (rw b at k)
          | inr b ↦
              subst (λ (x : Rule). (x.raw ≡ raw) × Denotes raw x) (ok_inj (rw b at k))
                (refl, tool_spec m n q)
        ]
