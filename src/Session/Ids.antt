-- ===== src/Session/Ids.antt =====
-- internal/session/ids.go: short entry ids, checked against the ids that are taken.
use mixi.Base.{
  ℕ, zero, suc, ◌-◌, ◌≡◌, inl, inr, Bool, false, Option, none, some, List, [], ◌∷◌, if◌then◌else◌,
  Bool-cases, length, drop, All,
}
use mixi.Base.Bytes.{Bytes}

-- s[len(s)-8:]; a uuid has 36 characters
abbrev pub last_8 : Bytes → Bytes
last_8 s = drop (length s - 8) s

-- uuid.NewString() for want of a uuid, else the last one whole
abbrev pub or_last : Option Bytes → Bytes → Bytes
or_last none v4 = v4
or_last (some u) v4 = u

-- The loop over the attempts left. `draws` is what uuid.NewV7 answers in turn, `none` for its error.
draw_id : ℕ → (Bytes → Bool) → Bytes → Option Bytes → List (Option Bytes) → Bytes
draw_id zero taken v4 last draws = or_last last v4
draw_id (suc n) taken v4 last [] = or_last last v4
draw_id (suc n) taken v4 last (none ∷ draws) = draw_id n taken v4 last draws
draw_id (suc n) taken v4 last (some u ∷ draws) =
    let again = draw_id n taken v4 (some u) draws in if taken (last_8 u) then again else last_8 u

unfoldable pub new_entry_id : (Bytes → Bool) → Bytes → List (Option Bytes) → Bytes
unfolding draw_id
new_entry_id taken v4 draws = draw_id 100 taken v4 none draws

draw_id_fresh :
    (n : ℕ) (taken : Bytes → Bool) (v4 : Bytes) (last : Option Bytes) (draws : List (Option Bytes))
    → taken (or_last last v4) ≡ false
    → All (λ o. taken (or_last o v4) ≡ false) draws
    → taken (draw_id n taken v4 last draws) ≡ false
unfolding draw_id
draw_id_fresh zero taken v4 last draws h a = h
draw_id_fresh (suc n) taken v4 last [] h a = h
draw_id_fresh (suc n) taken v4 last (none ∷ draws) h (b, a) =
    draw_id_fresh n taken v4 last draws h a
draw_id_fresh (suc n) taken v4 last (some u ∷ draws) h (b, a) =
    elim (Bool-cases (taken (last_8 u))) [
      | inl t ↦ rw t (draw_id_fresh n taken v4 (some u) draws b a)
      | inr t ↦ rw t t
    ]

-- However many short ids are taken, and however often the uuid source fails, the id that newEntryID
-- returns is not taken, provided that the whole uuids are not: those it draws and the version 4 one.
pub new_entry_id_fresh :
    (taken : Bytes → Bool) (v4 : Bytes) (draws : List (Option Bytes))
    → taken v4 ≡ false
    → All (λ o. taken (or_last o v4) ≡ false) draws
    → taken (new_entry_id taken v4 draws) ≡ false
unfolding new_entry_id
new_entry_id_fresh taken v4 draws h a = draw_id_fresh 100 taken v4 none draws h a
