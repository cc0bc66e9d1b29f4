-- ===== src/Agent/Events/Samples.antt =====
-- internal/agent/events.go: a run's first events.
use mixi.Base.{◌≡◌, refl, true, false, List, [], ◌∷◌}
use mixi.Base.Bytes.{codes}
use mixi.Agent.Events.{agent_start, message_update, turn_start, new_subscriber, deliver, receive}
use mixi.Agent.Events.Delivery.{
  Happening, published, taken, run, lifecycle, all_published, take_out, lifecycle_received,
}

abbrev happenings : List Happening
happenings =
    published true agent_start
    ∷ published false (message_update (codes "a"))
    ∷ taken
    ∷ published true (turn_start 1)
    ∷ []

stays_open : (run happenings new_subscriber).closed ≡ false
unfolding run deliver receive
stays_open = refl

lifecycle_received_example :
    lifecycle (take_out 256 (run happenings new_subscriber)).received
    ≡ lifecycle (all_published happenings)
lifecycle_received_example = lifecycle_received happenings stays_open
