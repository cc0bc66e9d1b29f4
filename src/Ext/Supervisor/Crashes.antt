-- ===== src/Ext/Supervisor/Crashes.antt =====
-- internal/ext/supervisor.go: which extensions are disabled, and what a dead process leaves.
use mixi.Base.{
  ℕ, suc, ◌+◌, ◌≤◌, ◌<◌, ◌≡◌, refl, sym, ◌∙◌, Bool, true, false, List, [], ◌∷◌, arith, ltb,
  if◌then◌else◌, ltb→le, length, All,
}
use mixi.Ext.Extension.{settle}
use mixi.Ext.Supervisor.{
  Host, Incarnation, supervise, crashed_times, is_disabled, disable, on_ext, judged, incarnated,
  crashes_after,
}

abbrev IsOff : Host → Type 0
IsOff h = is_disabled h.ext.state ≡ true

crashed-disabled :
    (backoffs n : ℕ) (h : Host)
    → is_disabled (crashed_times backoffs n h).ext.state ≡ ltb backoffs n
unfolding disable
crashed-disabled backoffs n h = ground arith

-- one of three states
one_of :
    (P : Host → Type 0) (a b : Bool) (x y z : Host)
    → (a ≡ true → P x)
    → (b ≡ true → P y)
    → (b ≡ false → P z)
    → P (if a then x else if b then y else z)
one_of P true b x y z f g h = f refl
one_of P false true x y z f g h = g refl
one_of P false false x y z f g h = h refl

-- the end of the loop, or of what comes after it
judged-disabled :
    (backoffs n : ℕ) (rest : Host → Host) (ran : Host)
    → (ltb backoffs n ≡ false → IsOff (rest (crashed_times backoffs n ran)))
    → IsOff (judged backoffs n rest ran)
judged-disabled backoffs n rest ran h =
    one_of IsOff (is_disabled ran.ext.state) (is_disabled (crashed_times backoffs n ran).ext.state)
      (on_ext settle ran) (crashed_times backoffs n ran) (rest (crashed_times backoffs n ran))
      (λ q. q) (λ q. q) (λ q. h (sym (crashed-disabled backoffs n ran) ∙ q))

-- no request waits, and the first handshake is settled
abbrev IsReleased : Host → Type 0
IsReleased h = (h.ext.pending ≡ []) × (h.ext.settled ≡ true)

-- An extension whose process keeps dying before it was stable is disabled in the end: after as many
-- crashes as there are backoffs, and one more.
pub supervise_disables :
    (window backoffs : ℕ) (is : List Incarnation) (crashes : ℕ) (h : Host)
    → All (λ i. i.stable ≡ false) is
    → crashes ≤ backoffs
    → backoffs < crashes + length is
    → is_disabled (supervise window backoffs is crashes h).ext.state ≡ true
unfolding supervise
supervise_disables window backoffs [] crashes h s l m = absurd (omega (arith, l, m))
supervise_disables window backoffs (i ∷ is) crashes h (s, ss) l m =
    judged-disabled backoffs (crashes_after i crashes)
      (supervise window backoffs is (crashes_after i crashes)) (incarnated window i h)
      (λ q.
        supervise_disables window backoffs is (crashes_after i crashes) _ ss
          (ltb→le backoffs (crashes_after i crashes) q) (omega (arith, m, counted)))
  where
    counted : crashes_after i crashes ≡ suc crashes
    counted = simp s
