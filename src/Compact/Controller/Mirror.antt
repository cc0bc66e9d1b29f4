-- ===== src/Compact/Controller/Mirror.antt =====
-- internal/compact/controller.go: the mirror of the conversation, and where its kept part begins.
use mixi.Base.{
  ℕ, zero, suc, ◌≤◌, ◌<◌, ◌≡◌, refl, sym, ap, ◌∙◌, subst, ◌≢◌, ◌⊎◌, inl, inr, Bool, true, false,
  some, List, [], ◌∷◌, arith, Bool-cases, Option-cases, length, get_elem?,
}
use mixi.Base.Bytes.{Bytes, bytes_eq, eq_of_bytes_eq}
use mixi.Agent.Messages.{AgentMessage, model_message}
use mixi.Session.Entry as Session
use mixi.Session.Tree.{find, path_to_root}
use mixi.Session.MemStore.{MemStore}
use mixi.Compact.Controller.{
  Controller, seek_string, index_of_string, first_known, kept_from, or_length,
}

-- the entry holds the message
abbrev pub Shows : Session.Body → AgentMessage → Type 0
Shows b (model_message m excluded) = (pin : Bool) × (b ≡ Session.message m pin)
Shows b m = Unit

-- Each message has an id, which is empty or names the entry that holds the message.
abbrev pub Mirrors : List Session.Entry → List AgentMessage → List Bytes → Type 0
Mirrors es [] [] = Unit
Mirrors es (m ∷ ms) (i ∷ is) =
    ((i ≡ []) ⊎ ((e : Session.Entry) × (find i es ≡ some e) × Shows e.body m)) × Mirrors es ms is
Mirrors es ms is = ⊥

abbrev IsMirror : Controller → Type 0
IsMirror c = Mirrors c.store.index.entries c.msgs c.ids

seek_string-found :
    (vs : List Bytes) (s : Bytes) (i : ℕ) → seek_string vs s ≡ some i → get_elem? vs i ≡ some s
unfolding seek_string
seek_string-found [] s i h = absurd (cc h)
seek_string-found (v ∷ vs) s i h = elim (Bool-cases (bytes_eq v s)) [
  | inl q ↦ head_found (cc (rw q at h)) (eq_of_bytes_eq v s q)
  | inr q ↦ elim (Option-cases (seek_string vs s)) [
    | inl n ↦ absurd (cc (rw (q, n) at h))
    | inr (j, n) ↦ later_found j (cc (rw (q, n) at h)) (seek_string-found vs s j n)
  ]
]
  where
    head_found : 0 ≡ i → v ≡ s → get_elem? (v ∷ vs) i ≡ some s
    head_found z e = rw (← z) (ap some e)

    later_found : (j : ℕ) → suc j ≡ i → get_elem? vs j ≡ some s → get_elem? (v ∷ vs) i ≡ some s
    later_found j z e = rw (← z) e

get_elem?-bound : (vs : List Bytes) (i : ℕ) (s : Bytes) → get_elem? vs i ≡ some s → i < length vs
get_elem?-bound [] i s h = absurd (cc h)
get_elem?-bound (v ∷ vs) zero s h = omega arith
get_elem?-bound (v ∷ vs) (suc i) s h = omega (arith, get_elem?-bound vs i s h)

index_of_string-found :
    (vs : List Bytes) (s : Bytes) (i : ℕ)
    → index_of_string vs s ≡ some i
    → (get_elem? vs i ≡ some s) × (s ≢ [])
unfolding index_of_string bytes_eq
index_of_string-found vs [] i h = absurd (cc h)
index_of_string-found vs (c ∷ s) i h = (seek_string-found vs (c ∷ s) i h, λ q. cc q)

Mirrors-lengths :
    (es : List Session.Entry) (ms : List AgentMessage) (is : List Bytes)
    → Mirrors es ms is
    → length is ≡ length ms
Mirrors-lengths es [] [] h = refl
Mirrors-lengths es [] (i ∷ is) h = absurd h
Mirrors-lengths es (m ∷ ms) [] h = absurd h
Mirrors-lengths es (m ∷ ms) (i ∷ is) (q, h) = ap suc (Mirrors-lengths es ms is h)

-- the message at an index has an entry
abbrev pub IsNamed : List Bytes → ℕ → Type 0
IsNamed ids i = (v : Bytes) × (get_elem? ids i ≡ some v) × (v ≢ [])

first_known-found :
    (ids : List Bytes) (fk : Bytes) (seen : Bool) (path : List Session.Entry) (i : ℕ)
    → first_known ids fk seen path ≡ some i
    → IsNamed ids i
unfolding first_known
first_known-found ids fk seen [] i h = absurd (cc h)
first_known-found ids fk seen (e ∷ es) i h = elim (Bool-cases (bytes_eq e.id fk)) [
  | inl q ↦ first_known-found ids fk true es i (rw q at h)
  | inr q ↦ elim (Bool-cases seen) [
    | inr y ↦ first_known-found ids fk false es i (rw (q, y) at h)
    | inl y ↦ elim (Option-cases (index_of_string ids e.id)) [
      | inl n ↦ first_known-found ids fk true es i (rw (q, y, n) at h)
      | inr (j, n) ↦
          let k : j ≡ i = cc (rw (q, y, n) at h) in
          let (a, b) = index_of_string-found ids e.id i (n ∙ ap some k) in (e.id, a, b)
    ]
  ]
]

kept-IsNamed :
    (c : Controller) (fk : Bytes) (path : List Session.Entry) (n : ℕ)
    → or_length c (first_known c.ids fk false path) ≡ n
    → (n ≡ length c.msgs) ⊎ IsNamed c.ids n
kept-IsNamed c fk path n h = elim (Option-cases (first_known c.ids fk false path)) [
  | inl q ↦ inl (sym (rw q at h))
  | inr (i, q) ↦ inr (subst (IsNamed c.ids) (rw q at h) (first_known-found c.ids fk false path i q))
]

kept_from-IsNamed :
    (c : Controller) (fk : Bytes) (n : ℕ)
    → kept_from c fk ≡ some n
    → (n ≡ length c.msgs) ⊎ IsNamed c.ids n
unfolding kept_from
kept_from-IsNamed c fk n h = elim (Option-cases (index_of_string c.ids fk)) [
  | inr (i, q) ↦
      let k : i ≡ n = cc (rw (kept_from, q) at h) in
      (let (a, b) = index_of_string-found c.ids fk n (q ∙ ap some k) in inr (fk, a, b))
  | inl q ↦ elim (Option-cases (path_to_root c.store.index c.store.index.leaf_id)) [
    | inl p ↦ absurd (cc (rw (kept_from, q, p) at h))
    | inr (path, p) ↦ kept-IsNamed c fk path n (cc (rw (kept_from, q, p) at h))
  ]
]

-- In a mirror that is true, keptFrom resolves a compaction's first kept entry, where the walk to the
-- root ends, to the end of the conversation or to a message inside it that has an entry.
pub kept_from_lem :
    (c : Controller) (first_kept : Bytes) (n : ℕ)
    → Mirrors c.store.index.entries c.msgs c.ids
    → kept_from c first_kept ≡ some n
    → (n ≤ length c.msgs)
      × ((n ≡ length c.msgs) ⊎ ((v : Bytes) × (get_elem? c.ids n ≡ some v) × (v ≢ [])))
kept_from_lem c fk n m h = elim (kept_from-IsNamed c fk n h) [
  | inl q ↦ (omega (arith, q), inl q)
  | inr (v, f, e) ↦ (
    omega
        (arith, get_elem?-bound c.ids n v f, Mirrors-lengths c.store.index.entries c.msgs c.ids m),
    inr (v, f, e),
  )
]
