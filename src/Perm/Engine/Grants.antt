-- ===== src/Perm/Engine/Grants.antt =====
-- internal/perm/grants.go: what an "always" answer leaves behind.
use mixi.Base.{
  ◌≡◌, refl, sym, ◌∙◌, ◌≢◌, inl, inr, false, ◌||◌, false≢true, Option, none, some, List, [], ◌∷◌,
  ◌++◌, arith, ◌==◌, Bool-cases, Option-cases,
}
use mixi.Base.Bytes.{Bytes, bytes_eq, eq_of_bytes_eq, bytes_eq_iff}
use mixi.Perm.Glob.{star}
use mixi.Perm.Rule.{CallInfo, Rule, first_match}
use mixi.Perm.Engine.{
  ask_allow, ask_deny, dec_allow, dec_deny, dec_ask, Why, AskDecision, ask_always, World, Engine,
  ask, by_default, settle, screen, decide_call, Decision, is_yolo, is_some, is_dangerous,
  default_for, forced_ask,
}
use mixi.Perm.Call.{ToolCall}
use mixi.Perm.Grant.{has_raw, add_grant, generalize}

-- No two grants have the same text.
unfoldable pub Distinct : List Rule → Type 0
Distinct [] = Unit
Distinct (r ∷ rs) = (has_raw rs r.raw ≡ false) × Distinct rs

has_raw-append :
    (rs : List Rule) (r : Rule) (raw : Bytes)
    → has_raw (rs ++ r ∷ []) raw ≡ (has_raw rs raw || bytes_eq r.raw raw)
unfolding has_raw
has_raw-append [] r raw = ground arith
has_raw-append (s ∷ rs) r raw = ground (arith, has_raw-append rs r raw)

bytes_eq_ne : (s t : Bytes) → s ≢ t → bytes_eq s t ≡ false
bytes_eq_ne s t n = elim (Bool-cases (bytes_eq s t)) [
  | inl e ↦ absurd (n (eq_of_bytes_eq s t e))
  | inr e ↦ e
]

Distinct-append :
    (rs : List Rule) (r : Rule) → has_raw rs r.raw ≡ false → Distinct rs → Distinct (rs ++ r ∷ [])
unfolding Distinct has_raw
Distinct-append [] r h d = (refl, tt)
Distinct-append (s ∷ rs) r h d = (
  rw (has_raw-append rs r s.raw) (ground (arith, bytes_eq_sym s.raw r.raw)),
  Distinct-append rs r (ground arith) d.1,
)
  where
    bytes_eq_sym : (a b : Bytes) → bytes_eq a b ≡ bytes_eq b a
    bytes_eq_sym a b = elim (Bool-cases (bytes_eq a b)) [
      | inl e ↦ rw (eq_of_bytes_eq a b e)
      | inr e ↦
          rw e (sym (bytes_eq_ne b a (λ q. false≢true (sym e ∙ (bytes_eq_iff a b).1 (sym q)))))
    ]

Distinct-add_grant : (rs : List Rule) (r : Rule) → Distinct rs → Distinct (add_grant rs r)
unfolding add_grant
Distinct-add_grant rs r d = elim (Bool-cases (has_raw rs r.raw)) [
  | inl h ↦ rw h d
  | inr h ↦ rw h (Distinct-append rs r h d)
]

module _ (w : World) (e : Engine) (call : ToolCall) (info : CallInfo) where
  -- The engine is as it was, or it has one more grant, which the user gave for good.
  pub data Kept (e' : Engine) : Type 0 where
    same : e' ≡ e → Kept e'
    granted :
        (why : Why)
        → w.ask call why ≡ some ask_always
        → e' ≡ record e { grants = add_grant e.grants (generalize info) }
        → Kept e'

  ask-Kept : (why : Why) → Kept (ask w e call info why).1
  unfolding ask
  ask-Kept why = go (w.ask call why) refl
    where
      go : (o : Option AskDecision) → w.ask call why ≡ o → Kept (ask w e call info why).1
      go none q = rw (q, ask) (same refl)
      go (some ask_always) q = granted why q (rw (q, ask))
      go (some ask_allow) q = rw (q, ask) (same refl)
      go (some ask_deny) q = rw (q, ask) (same refl)

  by_default-Kept : (d : Decision) → Kept (by_default w e call info d).1
  unfolding by_default
  by_default-Kept dec_allow = same refl
  by_default-Kept dec_deny = same refl
  by_default-Kept dec_ask = ask-Kept _

  settle-Kept : (o : Option Why) → Kept (settle w e call info o).1
  unfolding settle
  settle-Kept (some why) = ask-Kept why
  settle-Kept none =
      elim (Bool-cases (
        is_some (first_match w.glob e.policy.allow info)
        || is_some (first_match w.glob e.grants info))) [
          | inl h ↦ rw h (same refl)
          | inr h ↦ rw h (by_default-Kept (default_for e.policy.mode info.category))
        ]

  screen-Kept : Kept (screen w e call info).1
  unfolding screen
  screen-Kept = elim (Bool-cases (is_yolo e.policy.mode)) [
    | inl y ↦ rw y (settle-Kept none)
    | inr y ↦ elim (Bool-cases (is_dangerous e info)) [
      | inl d ↦ rw (y, d) (same refl)
      | inr d ↦ rw (y, d) (settle-Kept (forced_ask w e info))
    ]
  ]

  -- Decide leaves the policy and the working directory alone, and touches the grants only after
  -- an "always" answer, to which it adds the generalized call unless a grant has its text already.
  pub decide_call-Kept : Kept (decide_call w e call info).1
  unfolding decide_call
  decide_call-Kept = elim (Option-cases (first_match w.glob e.policy.flag_deny info)) [
    | inr (r, fd) ↦ rw fd (same refl)
    | inl fd ↦ elim (Option-cases (first_match w.glob e.policy.flag_allow info)) [
      | inr (r, fa) ↦ rw (fd, fa) (same refl)
      | inl fa ↦ elim (Option-cases (first_match w.glob e.policy.deny info)) [
        | inr (r, d) ↦ rw (fd, fa, d) (same refl)
        | inl d ↦ rw (fd, fa, d) screen-Kept
      ]
    ]
  ]

  -- The texts of the session grants stay distinct, whatever is decided.
  pub decide_call-Distinct : Distinct e.grants → Distinct (decide_call w e call info).1.grants
  decide_call-Distinct d = go _ decide_call-Kept
    where
      go : (e' : Engine) → Kept e' → Distinct e'.grants
      go e' (same q) = rw q d
      go e' (granted why a q) = rw q (Distinct-add_grant e.grants (generalize info) d)

unfoldable pub NoStar : Bytes → Type 0
NoStar [] = Unit
NoStar (c ∷ p) = ((c == star) ≡ false) × NoStar p
