-- ===== src/Main/Console.antt =====
-- The loop of the console, and the signals.
pub mod Signals
use local_messenger.Common.{Bool, true, false, if◌then◌else◌, List, [], ◌∷◌, ◌++◌, Bytes}
use local_messenger.Network.{stop}
use local_messenger.Main.{App, End, returned, blocked, thrown}
use local_messenger.Main.Commands.{Command, quit, Output, parse_line}

-- What comes while the loop waits for a line: the line, or SIGINT or SIGTERM. The end of the list is
-- the end of the input. A signal does not end the wait: `std::getline` goes on after the handler.
pub data Input : Type 0 where
  line : Bytes → Input
  signal : Input

abbrev pub is_quit : Command → Bool
is_quit quit = true
is_quit _ = false

-- The loop, with what a command does as a parameter: `run` is `execute` at the time of the line. The
-- Boolean is `g_running`, which is read only between two lines.
module _ (run : Command → App → App × End × List Output) where
  abbrev pub then_more :
      (App → App × End × List Output) → App × End × List Output → App × End × List Output
  then_more more (app, returned, out) = let (app', end, out') = more app in (app', end, out ++ out')
  then_more more (app, blocked, out) = (app, blocked, out)
  then_more more (app, thrown, out) = (app, thrown, out)

  unfoldable pub console : List Input → Bool → App → App × End × List Output
  console [] running app = (app, returned, [])
  console (signal ∷ rest) running app = console rest false app
  console (line l ∷ rest) running app =
      if is_quit (parse_line l)
      then (app, returned, [])
      else then_more
          (λ app'. elim running [ true ↦ console rest true app' | false ↦ (app', returned, []) ])
          (run (parse_line l) app)

  -- `net_mgr.stop()` after the loop.
  unfoldable pub finish : App × End × List Output → App × End × List Output
  finish (app, returned, out) = (record app { network = stop app.network }, returned, out)
  finish (app, blocked, out) = (app, blocked, out)
  finish (app, thrown, out) = (app, thrown, out)
