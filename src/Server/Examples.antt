-- ===== src/Server/Examples.antt =====
-- Two connections, an error, and a third connection that nobody takes.
use local_messenger.Common.{◌≡◌, true, false, List, [], ◌∷◌, some, codes}
use local_messenger.Server.{Accept, failed, connected, accepted, new_server, start}
use local_messenger.Server.Serving.{serve, serve-start}

abbrev arrivals : List Accept
arrivals =
    connected (some (codes "26.0.0.1"))
    ∷ (connected (some (codes "26.0.0.2")) ∷ (failed ∷ (connected (some (codes "26.0.0.3")) ∷ [])))

serve-start_example :
    ((serve arrivals (start (new_server 7777))).1
      ≡ accepted (codes "26.0.0.1") ∷ (accepted (codes "26.0.0.2") ∷ []))
    × ((serve arrivals (start (new_server 7777))).0.running ≡ true)
    × ((serve arrivals (start (new_server 7777))).0.accepting ≡ false)
serve-start_example = serve-start 7777 arrivals
