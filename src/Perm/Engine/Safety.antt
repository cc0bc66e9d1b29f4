-- ===== src/Perm/Engine/Safety.antt =====
-- internal/perm/engine.go: on what authority `Decide` allows a call.
use mathlib.Core.List.{Memᴰ}
use mixi.Base.{
  ◌≡◌, refl, sym, subst, ◌≢◌, ◌⊎◌, inl, inr, Bool, true, false, false≢true, Option, none, some,
  List, [], ◌∷◌, arith, if◌then◌else◌, Bool-cases, Option-cases,
}
use mixi.Base.Bytes.{Bytes, bytes_eq}
use mixi.Perm.Rule.{plan, yolo, write, CallInfo, Rule, matches, first_match}
use mixi.Perm.Engine.{
  Why, outside_cwd, Reason, not_allowed_in_mode, allowed, denied, ask_allow, ask_always, World,
  Engine, is_some, is_yolo, is_dangerous, forced_ask, Decision, dec_ask, dec_allow, dec_deny,
  default_for, ask, by_default, settle, screen, decide_call, is_secret_read,
}
use mixi.Perm.Call.{ToolCall, outside_cwd?}

-- Some rule of the list covers the call.
unfoldable pub Covered : (Bytes → Bytes → Bool) → List Rule → CallInfo → Type 0
Covered glob rules info = (r : Rule) × Memᴰ r rules × (matches glob r info ≡ true)

Covered-first_match :
    (glob : Bytes → Bytes → Bool) (rules : List Rule) (info : CallInfo) (r : Rule)
    → first_match glob rules info ≡ some r
    → Memᴰ r rules × (matches glob r info ≡ true)
unfolding first_match
Covered-first_match glob [] info r h = cc
Covered-first_match glob (r' ∷ rules) info r h = elim (Bool-cases (matches glob r' info)) [
  | inl m ↦
      let e : some r' ≡ some r = rw (m, first_match) at h in
      (Memᴰ.head (sym (some_inj e)), subst (λ x. matches glob x info ≡ true) (some_inj e) m)
  | inr m ↦ let (mem, q) = Covered-first_match glob rules info r (rw m at h) in (Memᴰ.tail mem, q)
]
  where
    some_inj : {a b : Rule} → some a ≡ some b → a ≡ b
    some_inj e = cc

not_Covered-first_match :
    (glob : Bytes → Bytes → Bool) (rules : List Rule) (info : CallInfo)
    → first_match glob rules info ≡ none
    → ¬ Covered glob rules info
unfolding first_match Covered
not_Covered-first_match glob [] info h (r, m, q) = elim m [ ]
not_Covered-first_match glob (r' ∷ rules) info h (r, Memᴰ.head e, q) =
    absurd_by (rw (subst (λ x. matches glob x info ≡ true) e q) at h)
  where
    absurd_by : some r' ≡ none → ⊥
    absurd_by x = cc
not_Covered-first_match glob (r' ∷ rules) info h (r, Memᴰ.tail m, q) =
    elim (Bool-cases (matches glob r' info)) [
      | inl k ↦ cc (rw k at h)
      | inr k ↦ not_Covered-first_match glob rules info (rw k at h) (r, m, q)
    ]

first_match-Covered :
    (glob : Bytes → Bytes → Bool) (rules : List Rule) (info : CallInfo)
    → Covered glob rules info
    → (r : Rule) × (first_match glob rules info ≡ some r)
first_match-Covered glob rules info c = elim (Option-cases (first_match glob rules info)) [
  | inl e ↦ absurd (not_Covered-first_match glob rules info e c)
  | inr (r, e) ↦ (r, e)
]

Covered-some :
    (glob : Bytes → Bytes → Bool) (rules : List Rule) (info : CallInfo) (r : Rule)
    → first_match glob rules info ≡ some r
    → Covered glob rules info
unfolding Covered
Covered-some glob rules info r e = let (m, q) = Covered-first_match glob rules info r e in (r, m, q)

Covered-is_some :
    (glob : Bytes → Bytes → Bool) (rules : List Rule) (info : CallInfo)
    → is_some (first_match glob rules info) ≡ true
    → Covered glob rules info
unfolding is_some Covered
Covered-is_some glob rules info h = elim (Option-cases (first_match glob rules info)) [
  | inl e ↦ absurd (false≢true (rw e at h))
  | inr (r, e) ↦ let (m, q) = Covered-first_match glob rules info r e in (r, m, q)
]

first_match-none :
    (glob : Bytes → Bytes → Bool) (rules : List Rule) (info : CallInfo)
    → ¬ Covered glob rules info
    → first_match glob rules info ≡ none
unfolding Covered
first_match-none glob rules info n = elim (Option-cases (first_match glob rules info)) [
  | inl e ↦ e
  | inr (r, e) ↦ let (m, q) = Covered-first_match glob rules info r e in absurd (n (r, m, q))
]

-- The user was asked about this call and approved it.
pub Approved : World → ToolCall → Type 0
Approved w call =
    (why : Why) × ((w.ask call why ≡ some ask_allow) ⊎ (w.ask call why ≡ some ask_always))

-- A rule, a session grant or the mode settles the call.
pub data Settled (w : World) (e : Engine) (info : CallInfo) : Type 0 where
  by_rule : Covered w.glob e.policy.allow info → Settled w e info
  by_grant : Covered w.glob e.grants info → Settled w e info
  by_mode : default_for e.policy.mode info.category ≡ dec_allow → Settled w e info

-- The ways in which a call may be allowed.
pub data Authority (w : World) (e : Engine) (call : ToolCall) (info : CallInfo) : Type 0 where
  by_flag : Covered w.glob e.policy.flag_allow info → Authority w e call info
  in_yolo :
      ¬ Covered w.glob e.policy.deny info
      → e.policy.mode ≡ yolo
      → Settled w e info ⊎ Approved w call
      → Authority w e call info
  past_screens :
      ¬ Covered w.glob e.policy.deny info
      → is_dangerous e info ≡ false
      → forced_ask w e info ≡ none
      → Settled w e info
      → Authority w e call info
  by_user :
      ¬ Covered w.glob e.policy.deny info
      → is_dangerous e info ≡ false
      → Approved w call
      → Authority w e call info

is_some-first_match :
    (glob : Bytes → Bytes → Bool) (rules : List Rule) (info : CallInfo)
    → ¬ Covered glob rules info
    → is_some (first_match glob rules info) ≡ false
unfolding is_some
is_some-first_match glob rules info n = rw (first_match-none glob rules info n)

bytes_eq-nil : (s : Bytes) → s ≢ [] → bytes_eq s [] ≡ false
unfolding bytes_eq
bytes_eq-nil [] n = absurd (n refl)
bytes_eq-nil (c ∷ s) n = refl

forced_ask-write :
    (w : World) (e : Engine) (info : CallInfo) (b : Bool)
    → info.category ≡ write
    → info.path ≢ []
    → is_secret_read w e info ≡ false
    → outside_cwd? w.eval_symlinks info.path e.cwd ≡ b
    → forced_ask w e info ≡ (if b then some (outside_cwd info.tool e.cwd) else none)
unfolding forced_ask
forced_ask-write w e info b c p s o = ground (arith, bytes_eq-nil info.path p)

module _ (w : World) (e : Engine) (call : ToolCall) (info : CallInfo) where
  ask-Approved : (why : Why) → (ask w e call info why).0 ≡ allowed → Approved w call
  unfolding ask Approved
  ask-Approved why h = (why, ground arith)

  by_default_lem :
      (d : Decision) → (by_default w e call info d).0 ≡ allowed → (d ≡ dec_allow) ⊎ Approved w call
  unfolding by_default
  by_default_lem dec_allow h = inl refl
  by_default_lem dec_deny h = cc
  by_default_lem dec_ask h = inr (ask-Approved _ h)

  settle-none : (settle w e call info none).0 ≡ allowed → Settled w e info ⊎ Approved w call
  unfolding settle
  settle-none h = elim (Bool-cases (is_some (first_match w.glob e.policy.allow info))) [
    | inl a ↦ inl (by_rule (Covered-is_some w.glob e.policy.allow info a))
    | inr a ↦ elim (Bool-cases (is_some (first_match w.glob e.grants info))) [
      | inl g ↦ inl (by_grant (Covered-is_some w.glob e.grants info g))
      | inr g ↦ elim (by_default_lem _ (rw (a, g) at h)) [ inl m ↦ inl (by_mode m) | inr u ↦ inr u ]
    ]
  ]

  settle-Authority :
      ¬ Covered w.glob e.policy.deny info
      → is_dangerous e info ≡ false
      → (o : Option Why) → forced_ask w e info ≡ o
      → (settle w e call info o).0 ≡ allowed
      → Authority w e call info
  unfolding settle
  settle-Authority nd safe none f h = elim (settle-none h) [
    | inl s ↦ past_screens nd safe f s
    | inr u ↦ by_user nd safe u
  ]
  settle-Authority nd safe (some why) f h = by_user nd safe (ask-Approved why h)

  screen-Authority :
      ¬ Covered w.glob e.policy.deny info
      → (screen w e call info).0 ≡ allowed
      → Authority w e call info
  unfolding screen
  screen-Authority nd h = elim (Bool-cases (is_yolo e.policy.mode)) [
    | inl y ↦ in_yolo nd (ground arith) (settle-none (rw y at h))
    | inr y ↦ elim (Bool-cases (is_dangerous e info)) [
      | inl d ↦ absurd (denied_ne (rw (y, d) at h))
      | inr d ↦ settle-Authority nd d (forced_ask w e info) refl (rw (y, d) at h)
    ]
  ]
    where
      denied_ne : {r : Reason} → denied r ≡ allowed → ⊥
      denied_ne q = cc

  -- A call that Decide allows is covered by no --deny rule, and either a --allow rule covers it,
  -- or no deny rule does and: in yolo mode, an allow rule, a grant, the mode or the user lets it
  -- through; in another mode, the call is not a dangerous command, and either no screen forces an
  -- ask and an allow rule, a grant or the mode lets it through, or the user approved it.
  pub decide_call-Authority :
      (decide_call w e call info).0 ≡ allowed
      → (¬ Covered w.glob e.policy.flag_deny info) × Authority w e call info
  unfolding decide_call
  decide_call-Authority h = elim (Option-cases (first_match w.glob e.policy.flag_deny info)) [
    | inr (r, fd) ↦ cc (rw fd at h)
    | inl fd ↦ (
      not_Covered-first_match w.glob _ info fd,
      elim (Option-cases (first_match w.glob e.policy.flag_allow info)) [
        | inr (r, fa) ↦ by_flag (Covered-some w.glob _ info r fa)
        | inl fa ↦ elim (Option-cases (first_match w.glob e.policy.deny info)) [
          | inr (r, d) ↦ cc (rw (fd, fa, d) at h)
          | inl d ↦ screen-Authority (not_Covered-first_match w.glob _ info d) (rw (fd, fa, d) at h)
        ]
      ],
    )
  ]

  -- A call that no --deny rule and some --allow rule covers is allowed in every mode, past the deny
  -- rules of the settings and the screens, with nobody asked and the engine left as it was.
  pub decide_call_flag_allow :
      ¬ Covered w.glob e.policy.flag_deny info
      → Covered w.glob e.policy.flag_allow info
      → decide_call w e call info ≡ (allowed, e)
  unfolding decide_call
  decide_call_flag_allow n c =
      let (r, q) = first_match-Covered w.glob _ info c in rw (first_match-none w.glob _ info n, q)

  -- In plan mode, a write that no rule and no grant covers is put to the user when its path lies
  -- outside the working directory, and is denied unasked when it lies inside.
  pub decide_call_plan_write :
      e.policy.mode ≡ plan
      → info.category ≡ write
      → info.path ≢ []
      → ¬ Covered w.glob e.policy.flag_deny info
      → ¬ Covered w.glob e.policy.flag_allow info
      → ¬ Covered w.glob e.policy.deny info
      → ¬ Covered w.glob e.policy.allow info
      → ¬ Covered w.glob e.grants info
      → is_dangerous e info ≡ false
      → is_secret_read w e info ≡ false
      → decide_call w e call info ≡ (
          if outside_cwd? w.eval_symlinks info.path e.cwd
          then ask w e call info (outside_cwd info.tool e.cwd)
          else (denied (not_allowed_in_mode write plan), e))
  unfolding decide_call screen settle by_default default_for
  decide_call_plan_write m c p fd fa d a g k s = ground (
    arith,
    first_match-none w.glob _ info fd,
    first_match-none w.glob _ info fa,
    first_match-none w.glob _ info d,
    forced_ask-write w e info (outside_cwd? w.eval_symlinks info.path e.cwd) c p s refl,
    is_some-first_match w.glob _ info a,
    is_some-first_match w.glob _ info g,
  )
