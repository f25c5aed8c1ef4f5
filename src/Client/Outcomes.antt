-- ===== src/Client/Outcomes.antt =====
-- A connect ends, and calls back just once.
use local_messenger.Common.{◌≡◌, refl, List, [], ◌∷◌, ◌++◌, arith}
use local_messenger.Client.{
  Phase, ended, Completion, failed, succeeded, Event, on_connect, on_error, connect, on_completion,
}

-- The completions of a connect, one after the other.
unfoldable pub connect_run : List Completion → Phase → Phase × List Event
connect_run [] p = (p, [])
connect_run (c ∷ cs) p =
    let (p', es) = on_completion p c in let (p'', fs) = connect_run cs p' in (p'', es ++ fs)

-- What a caller learns of a host that resolves or not, and of a peer that answers or not.
abbrev pub answer : Completion → Completion → Event
answer (failed message) second = on_error message
answer succeeded (failed message) = on_error message
answer succeeded succeeded = on_connect

ended_stays : (cs : List Completion) → connect_run cs ended ≡ (ended, [])
unfolding connect_run on_completion
ended_stays [] = refl
ended_stays (c ∷ cs) = ground (arith, ended_stays cs)

-- Two completions end a connect, whatever they are and whatever follows, with a single call: of
-- on_connect where both succeed, and else of on_error with the message of the first that fails.
pub connect_run-connect :
    (first second : Completion) (more : List Completion)
    → connect_run (first ∷ (second ∷ more)) connect ≡ (ended, answer first second ∷ [])
unfolding connect_run connect on_completion
connect_run-connect (failed message) second more = ground (arith, ended_stays more)
connect_run-connect succeeded (failed message) more = ground (arith, ended_stays more)
connect_run-connect succeeded succeeded more = ground (arith, ended_stays more)
