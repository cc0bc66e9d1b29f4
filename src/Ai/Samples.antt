-- ===== src/Ai/Samples.antt =====
-- internal/ai/sse: a stream of two events.
use mixi.Base.{List, [], ◌∷◌}
use mixi.Base.Bytes.{codes}
use mixi.Ai.Sse.RoundTrip.{Sent}

abbrev sent : List Sent
sent =
    record { name = codes "start"; first = codes "{}"; more = [] }
    ∷ record { name = codes "delta"; first = codes "a"; more = [] ∷ codes "b" ∷ [] }
    ∷ []
