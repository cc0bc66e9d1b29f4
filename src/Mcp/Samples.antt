-- ===== src/Mcp/Samples.antt =====
-- internal/mcp: a server that fails, and one that is lost.
use mixi.Base.{◌≡◌, refl, false, List, [], ◌∷◌, arith}
use mixi.Mcp.Supervisor.{Server, configured, failed, Attempt, handshake_fails, serves, supervise}
use mixi.Mcp.Supervisor.Lifecycle.{supervise_disables}

abbrev server : Server
server = record { state = configured; strikes = 0; settled = false; has_client = false }

abbrev attempts : List Attempt
attempts = handshake_fails ∷ serves false ∷ handshake_fails ∷ serves false ∷ []

supervise_disables_example : (supervise attempts server).state ≡ failed
supervise_disables_example =
    supervise_disables attempts server (refl, (refl, (refl, (refl, tt)))) (omega arith)
      (omega arith)
