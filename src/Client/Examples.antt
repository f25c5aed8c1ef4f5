-- ===== src/Client/Examples.antt =====
-- A peer that does not answer.
use local_messenger.Common.{◌≡◌, [], ◌∷◌, codes}
use local_messenger.Client.{ended, failed, succeeded, on_error, connect}
use local_messenger.Client.Outcomes.{connect_run, connect_run-connect}

connect_run-connect_example :
    connect_run (succeeded ∷ (failed (codes "refused") ∷ [])) connect
    ≡ (ended, on_error (codes "refused") ∷ [])
connect_run-connect_example = connect_run-connect succeeded (failed (codes "refused")) []
