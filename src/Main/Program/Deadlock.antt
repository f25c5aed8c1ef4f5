-- ===== src/Main/Program/Deadlock.antt =====
-- The end of main, where the mutex of the sessions is held for good.
use local_messenger.Common.{
  ℕ, ◌<◌, ◌≡◌, ◌≢◌, refl, sym, ap, subst, Bool, true, false, ltb, List, [], ◌∷◌, ◌++◌,
  if◌then◌else◌, some, Bytes, arith,
}
use local_messenger.Common.Map.{find}
use local_messenger.Session.{new_session, is_open}
use local_messenger.Discovery.{PeerInfo}
use local_messenger.Storage.{Stamp}
use local_messenger.Main.{App, End, returned, blocked, thrown}
use local_messenger.Main.Callbacks.{handshake_json}
use local_messenger.Main.Callbacks.Greeting.{on_peer_connected-register_session}
use local_messenger.Main.Commands.{Command, Output, parse_line}
use local_messenger.Main.Console.{is_quit}
use local_messenger.Main.Program.{
  Context, Console, waiting, ended, stuck, crashed, Program, Happening, connects, finds, loses,
  reads, types, signals, closes, handler, after_handler, leave, execute_held, after_command, typed,
  if_waiting, step, run,
}

-- The mutex of the sessions is held for good, and main has not come to its end.
pub record IsStuck (p : Program) : Type 0 where
  pub held : p.held ≡ true
  pub on : p.console ≢ ended

after_handler-IsStuck : (p : Program) (r : App × End) → IsStuck p → IsStuck (after_handler p r)
unfolding after_handler
after_handler-IsStuck p (app, returned) v = record { held = v.held; on = v.on }
after_handler-IsStuck p (app, blocked) v = record { held = refl; on = v.on }
after_handler-IsStuck p (app, thrown) v = record { held = v.held; on = v.on }

blocked-IsStuck :
    (p : Program) (r : App × End) → p.console ≢ ended → r.1 ≡ blocked → IsStuck (after_handler p r)
unfolding after_handler
blocked-IsStuck p (app, returned) on e = cc
blocked-IsStuck p (app, blocked) on e = record { held = refl; on = on }
blocked-IsStuck p (app, thrown) on e = cc

leave-IsStuck : (p : Program) → p.held ≡ true → IsStuck (leave p)
unfolding leave
leave-IsStuck p h = record { held = ground (arith, h); on = λ e. ground (arith, h, e) }

after_command-IsStuck :
    (p : Program) (r : App × End × List Output) → IsStuck p → IsStuck (after_command p r)
unfolding after_command
after_command-IsStuck p (app, returned, out) v =
    let p' : Program = record p { app = app; printed = p.printed ++ out } in
    elim p.running as (λ b. IsStuck (if b then p' else leave p')) [
      | true ↦ record { held = v.held; on = v.on }
      | false ↦ leave-IsStuck p' v.held
    ]
after_command-IsStuck p (app, blocked, out) v = record { held = refl; on = λ e. cc }
after_command-IsStuck p (app, thrown, out) v = record { held = v.held; on = λ e. cc }

if_waiting-IsStuck :
    (c : Console) (f : Program → Program) (p : Program)
    → IsStuck p
    → IsStuck (f p)
    → IsStuck (if_waiting c f p)
if_waiting-IsStuck waiting f p v w = w
if_waiting-IsStuck ended f p v w = v
if_waiting-IsStuck stuck f p v w = v
if_waiting-IsStuck crashed f p v w = v

module _ (c : Context) where
  typed-IsStuck :
      (t : Stamp) (discovered : List PeerInfo) (command : Command) (p : Program)
      → IsStuck p
      → IsStuck (typed c t discovered command p)
  unfolding typed
  typed-IsStuck t discovered command p v =
      let r : App × End × List Output = execute_held c p.held t discovered command p.app in
      elim (is_quit command) as (λ b. IsStuck (if b then leave p else after_command p r)) [
        | true ↦ leave-IsStuck p v.held
        | false ↦ after_command-IsStuck p r v
      ]

  handled-IsStuck :
      (h : Happening) (p : Program)
      → IsStuck p
      → IsStuck (if ltb 0 p.threads then after_handler p (handler c p.held h p.app) else p)
  handled-IsStuck h p v =
      let r : App × End = handler c p.held h p.app in
      elim (ltb 0 p.threads) as (λ b. IsStuck (if b then after_handler p r else p)) [
        | true ↦ after_handler-IsStuck p r v
        | false ↦ v
      ]

  step-IsStuck : (h : Happening) (p : Program) → IsStuck p → IsStuck (step c h p)
  unfolding step
  step-IsStuck signals p v = record { held = v.held; on = v.on }
  step-IsStuck closes p v = if_waiting-IsStuck p.console leave p v (leave-IsStuck p v.held)
  step-IsStuck (types t discovered l) p v =
      if_waiting-IsStuck p.console _ p v (typed-IsStuck t discovered (parse_line l) p v)
  step-IsStuck (connects ip i) p v = handled-IsStuck (connects ip i) p v
  step-IsStuck (finds t info) p v = handled-IsStuck (finds t info) p v
  step-IsStuck (loses ip) p v = handled-IsStuck (loses ip) p v
  step-IsStuck (reads t ip i done) p v = handled-IsStuck (reads t ip i done) p v

  run-IsStuck : (hs : List Happening) (p : Program) → IsStuck p → IsStuck (run c hs p)
  unfolding run
  run-IsStuck [] p v = v
  run-IsStuck (h ∷ hs) p v = run-IsStuck hs (step c h p) (step-IsStuck h p v)

  -- Whether the mutex is held already or not, the handler of a new connection waits for it.
  pub connects-blocked :
      (held : Bool) (ip text : Bytes) (i : ℕ) (app : App)
      → c.lib.dump (handshake_json c.lib c.username c.pub_key_hex) ≡ some text
      → find ip app.network.sessions ≢ some i
      → app.network.store i ≡ new_session
      → (handler c held (connects ip i) app).1 ≡ blocked
  unfolding handler is_open new_session
  connects-blocked true ip text i app dumped fresh new = refl
  connects-blocked false ip text i app dumped fresh new =
      on_peer_connected-register_session c.lib c.username c.pub_key_hex ip text i app dumped fresh
        (ap is_open new) (ap (λ s. s.writing) new)

  greeted-IsStuck :
      (p : Program) (ip text : Bytes) (i : ℕ)
      → c.lib.dump (handshake_json c.lib c.username c.pub_key_hex) ≡ some text
      → 0 < p.threads
      → p.console ≢ ended
      → find ip p.app.network.sessions ≢ some i
      → p.app.network.store i ≡ new_session
      → IsStuck (step c (connects ip i) p)
  unfolding step
  greeted-IsStuck p ip text i dumped busy on fresh new =
      let r : App × End = handler c p.held (connects ip i) p.app in
      let runs : ltb 0 p.threads ≡ true = ground (arith, busy) in
      subst (λ b. IsStuck (if b then after_handler p r else p)) (sym runs)
        (blocked-IsStuck p r on (connects-blocked p.held ip text i p.app dumped fresh new))

  -- A program that has a thread for handlers, and that has not come to its end: once a new session is
  -- registered for an address that does not have it, and the handshake can be dumped, the mutex of
  -- the sessions is held for good, and whatever happens after that, lines, signals, the end of the
  -- input, other connections, packets, peers found or lost, main does not come to its end.
  pub run-connects :
      (p : Program) (ip text : Bytes) (i : ℕ) (hs : List Happening)
      → c.lib.dump (handshake_json c.lib c.username c.pub_key_hex) ≡ some text
      → 0 < p.threads
      → p.console ≢ ended
      → find ip p.app.network.sessions ≢ some i
      → p.app.network.store i ≡ new_session
      → IsStuck (run c (connects ip i ∷ hs) p)
  unfolding run
  run-connects p ip text i hs dumped busy on fresh new =
      run-IsStuck hs (step c (connects ip i) p)
        (greeted-IsStuck p ip text i dumped busy on fresh new)
