-- ===== src/Main/Console/Signals.antt =====
-- How the loop ends: by a command, or by a signal and one more line.
use mathlib.Core.List.{append-nil}
use mathlib.Core.Path.{fun_ext}
use local_messenger.Common.{
  ◌≡◌, refl, ap, Bool, true, false, if◌then◌else◌, List, [], ◌∷◌, ◌++◌, Bytes,
}
use local_messenger.Main.{App, End, returned, blocked, thrown}
use local_messenger.Main.Commands.{Command, Output, parse_line}
use local_messenger.Main.Console.{Input, line, signal, is_quit, then_more, console}

module _ (run : Command → App → App × End × List Output) where
  last_line : (r : App × End × List Output) → then_more run (λ app. (app, returned, [])) r ≡ r
  last_line (app, returned, out) = ap (λ l. (app, returned, l)) (append-nil out)
  last_line (app, blocked, out) = refl
  last_line (app, thrown, out) = refl

  -- A signal does not end the loop by itself: the next line, unless it is /quit or /exit, is carried
  -- out as ever, and no line after it is read.
  pub console_signal :
      (l : Bytes) (rest : List Input) (running : Bool) (app : App)
      → is_quit (parse_line l) ≡ false
      → console run (signal ∷ (line l ∷ rest)) running app ≡ run (parse_line l) app
  unfolding console
  console_signal l rest running app e = rw e (last_line (run (parse_line l) app))

  -- Nothing after a line that is /quit or /exit is read.
  pub console_quit :
      (before : List Input) (l : Bytes) (rest : List Input) (running : Bool) (app : App)
      → is_quit (parse_line l) ≡ true
      → console run (before ++ (line l ∷ rest)) running app ≡ console run before running app
  unfolding console
  console_quit [] l rest running app e = rw e
  console_quit (signal ∷ before) l rest running app e = console_quit before l rest false app e
  console_quit (line k ∷ before) l rest true app e =
      ap
        (λ (more : App → App × End × List Output).
          if is_quit (parse_line k)
          then (app, returned, [])
          else then_more run more (run (parse_line k) app))
        (fun_ext (λ app'. console_quit before l rest true app' e))
  console_quit (line k ∷ before) l rest false app e = refl
