-- ===== src/Mcp/Supervisor/Lifecycle.antt =====
-- internal/mcp/supervisor.go: what holds in every state that a server can be in.
use mixi.Base.{
  ℕ, suc, ◌+◌, ◌≤◌, ◌<◌, ◌≡◌, refl, sym, ap, ◌∙◌, subst, inl, inr, Bool, true, false, not, ◌||◌,
  false≢true, List, [], ◌∷◌, arith, ltb, leb, if◌then◌else◌, ltb→le, Bool-cases, length, All,
}
use mixi.Mcp.Supervisor.{
  State, configured, initializing, ready, restarting, failed, Server, set_state, fail, struck,
  handshake_failed, connection_lost, became_ready, strike_handshake, strike_lost, max_strikes,
  Attempt, handshake_fails, serves, attempted, supervise, is_failed,
}

abbrev pub is_ready : State → Bool
is_ready ready = true
is_ready _ = false

abbrev pub waits : State → Bool
waits configured = true
waits initializing = true
waits _ = false

-- A server that runs has at most the strikes allowed, a client just while it is ready, and has let
-- those go that wait for its first handshake once it was ready, restarted or disabled.
pub record IsValid (s : Server) : Type 0 where
  pub strikes : is_failed s.state || leb s.strikes max_strikes ≡ true
  pub client : s.has_client || not (is_ready s.state) ≡ true
  pub released : s.settled || waits s.state ≡ true

-- attempts of which none was stable
abbrev pub is_unstable : Attempt → Bool
is_unstable handshake_fails = true
is_unstable (serves stable) = not stable

struck_state :
    (s : Server) → (struck s).state ≡ (if ltb max_strikes s.strikes then failed else restarting)
unfolding struck fail
struck_state s = ground arith

struck_strikes : (s : Server) → (struck s).strikes ≡ s.strikes
unfolding struck fail
struck_strikes s = ground arith

abbrev after_strikes : ℕ → State
after_strikes n = if ltb max_strikes n then failed else restarting

attempt_unstable :
    (a : Attempt) (s : Server)
    → is_unstable a ≡ true
    → ((attempted a s).state ≡ after_strikes (suc s.strikes))
      × ((attempted a s).strikes ≡ suc s.strikes)
unfolding handshake_failed connection_lost became_ready
attempt_unstable handshake_fails s h =
    let t = strike_handshake (set_state initializing s) in (struck_state t, struck_strikes t)
attempt_unstable (serves false) s h =
    let t = strike_lost false (became_ready (set_state initializing s)) in
    (struck_state t, struck_strikes t)
attempt_unstable (serves true) s h = absurd (false≢true h)

-- the loop goes on after a restart
not_left :
    (t after : Server) → t.state ≡ restarting → (if is_failed t.state then t else after) ≡ after
not_left t after f = simp (ap is_failed f)

-- A server whose attempts keep failing, in the handshake or by a loss before it was stable, is
-- disabled in the end: after any number of such attempts that takes its strikes above three.
pub supervise_disables :
    (attempts : List Attempt) (s : Server)
    → All (λ a. is_unstable a ≡ true) attempts
    → s.strikes ≤ max_strikes
    → max_strikes < s.strikes + length attempts
    → (supervise attempts s).state ≡ failed
unfolding supervise
supervise_disables [] s h l m = absurd (omega (arith, l, m))
supervise_disables (a ∷ rest) s (h, hs) l m =
    let (state, count) = attempt_unstable a s h in
    elim (Bool-cases (ltb max_strikes (suc s.strikes))) [
      | inl q ↦
          let f : (attempted a s).state ≡ failed = state ∙ rw q refl in stops (attempted a s) f
      | inr q ↦
          let f : (attempted a s).state ≡ restarting = state ∙ rw q refl in
          subst (λ u. u.state ≡ failed)
            (sym (not_left (attempted a s) (supervise rest (attempted a s)) f))
            (supervise_disables rest (attempted a s) hs
              (omega (arith, count, ltb→le max_strikes (suc s.strikes) q))
              (omega (arith, count, m)))
    ]
  where
    stops :
        (t : Server)
        → t.state ≡ failed
        → (if is_failed t.state then t else supervise rest t).state ≡ failed
    stops t f = simp (ap is_failed f) f

-- However often it is lost, a server that was stable each time is never disabled.
pub supervise_keeps :
    (attempts : List Attempt) (s : Server)
    → All (λ a. is_unstable a ≡ false) attempts
    → is_failed s.state ≡ false
    → is_failed (supervise attempts s).state ≡ false
unfolding supervise connection_lost struck
supervise_keeps [] s h n = n
supervise_keeps (handshake_fails ∷ rest) s (h, hs) n = absurd (false≢true (sym h))
supervise_keeps (serves false ∷ rest) s (h, hs) n = absurd (false≢true (sym h))
supervise_keeps (serves true ∷ rest) s (h, hs) n =
    let t = connection_lost true (became_ready (set_state initializing s)) in
    let f : t.state ≡ restarting =
      struck_state (strike_lost true (became_ready (set_state initializing s))) in
    subst (λ u. is_failed u.state ≡ false) (sym (not_left t (supervise rest t) f))
      (supervise_keeps rest t hs (ap is_failed f))
