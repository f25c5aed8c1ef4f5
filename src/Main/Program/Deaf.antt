-- ===== src/Main/Program/Deaf.antt =====
-- A program whose threads all wait for the mutex of the sessions.
use local_messenger.Common.{
  ℕ, ◌+◌, ◌<◌, ◌≤◌, ◌≡◌, ◌≢◌, refl, ◌∙◌, Bool, true, false, ltb, List, [], ◌∷◌, ◌++◌, if◌then◌else◌,
  some, Bytes, All, length, Bool-cases, inl, inr, arith,
}
use local_messenger.Common.Map.{find}
use local_messenger.Session.{new_session}
use local_messenger.Discovery.{PeerInfo}
use local_messenger.Storage.{Stamp}
use local_messenger.Main.{App, End, returned, blocked, thrown}
use local_messenger.Main.Callbacks.{handshake_json}
use local_messenger.Main.Commands.{Command, peers, send, Output, parse_line, execute}
use local_messenger.Main.Console.{is_quit}
use local_messenger.Main.Program.{
  Context, Console, waiting, ended, stuck, crashed, Program, Happening, connects, finds, loses,
  reads, types, signals, closes, handler, after_handler, leave, execute_held, after_command, typed,
  if_waiting, step, run,
}
use local_messenger.Main.Program.Deadlock.{connects-blocked}

-- A connection, or a peer that is found or lost: its handler takes the mutex of the sessions.
abbrev pub waits : Happening → Bool
waits (connects ip i) = true
waits (finds t info) = true
waits (loses ip) = true
waits _ = false

-- No thread is left for the handlers, and the mutex is held.
pub record IsDeaf (app : App) (p : Program) : Type 0 where
  pub held : p.held ≡ true
  pub no_thread : p.threads ≡ 0
  pub kept : p.app ≡ app

-- The mutex is held, and at most `n` threads are left.
abbrev pub HasThreads : ℕ → Program → Type 0
HasThreads n p = (p.held ≡ true) × (p.threads ≤ n)

after_handler-blocked :
    (n : ℕ) (p : Program) (r : App × End)
    → r.1 ≡ blocked
    → p.threads ≤ n + 1
    → HasThreads n (after_handler p r)
unfolding after_handler
after_handler-blocked n p (app, returned) e few = cc
after_handler-blocked n p (app, blocked) e few = (refl, omega (arith, few))
after_handler-blocked n p (app, thrown) e few = cc

leave-IsDeaf : (app : App) (p : Program) → IsDeaf app p → IsDeaf app (leave p)
unfolding leave
leave-IsDeaf app p v = ground (arith, v)

after_command-IsDeaf :
    (app : App) (p : Program) (r : App × End × List Output)
    → r.0 ≡ p.app
    → IsDeaf app p
    → IsDeaf app (after_command p r)
unfolding after_command
after_command-IsDeaf app p (app', returned, out) same v =
    let p' : Program = record p { app = app'; printed = p.printed ++ out } in
    let w : IsDeaf app p' = record {
      held = v.held;
      no_thread = v.no_thread;
      kept = same ∙ v.kept;
    } in
    elim p.running as (λ b. IsDeaf app (if b then p' else leave p')) [
      | true ↦ w
      | false ↦ leave-IsDeaf app p' w
    ]
after_command-IsDeaf app p (app', blocked, out) same v = record {
  held = refl;
  no_thread = v.no_thread;
  kept = same ∙ v.kept;
}
after_command-IsDeaf app p (app', thrown, out) same v = record {
  held = v.held;
  no_thread = refl;
  kept = same ∙ v.kept;
}

if_waiting-IsDeaf :
    (app : App) (c : Console) (f : Program → Program) (p : Program)
    → IsDeaf app p
    → IsDeaf app (f p)
    → IsDeaf app (if_waiting c f p)
if_waiting-IsDeaf app waiting f p v w = w
if_waiting-IsDeaf app ended f p v w = v
if_waiting-IsDeaf app stuck f p v w = v
if_waiting-IsDeaf app crashed f p v w = v

module _ (c : Context) where
  waits-blocked : (h : Happening) (app : App) → waits h ≡ true → (handler c true h app).1 ≡ blocked
  unfolding handler
  waits-blocked (connects ip i) app e = refl
  waits-blocked (finds t info) app e = refl
  waits-blocked (loses ip) app e = refl
  waits-blocked (reads t ip i done) app e = cc
  waits-blocked (types t discovered l) app e = cc
  waits-blocked signals app e = cc
  waits-blocked closes app e = cc

  -- Only `/send` changes anything, and it takes the mutex.
  execute_held-app :
      (t : Stamp) (discovered : List PeerInfo) (command : Command) (app : App)
      → (execute_held c true t discovered command app).0 ≡ app
  unfolding execute_held execute
  execute_held-app t discovered (send ip text) app = refl
  execute_held-app t [] peers app = refl
  execute_held-app t (q ∷ qs) peers app = refl
  execute_held-app t discovered _ app = refl

  typed-IsDeaf :
      (app : App) (t : Stamp) (discovered : List PeerInfo) (command : Command) (p : Program)
      → IsDeaf app p
      → IsDeaf app (typed c t discovered command p)
  unfolding typed
  typed-IsDeaf app t discovered command p v =
      let r : App × End × List Output = execute_held c p.held t discovered command p.app in
      let same : r.0 ≡ p.app = rw v.held (execute_held-app t discovered command p.app) in
      elim (is_quit command) as (λ b. IsDeaf app (if b then leave p else after_command p r)) [
        | true ↦ leave-IsDeaf app p v
        | false ↦ after_command-IsDeaf app p r same v
      ]

  no_handler :
      (app : App) (h : Happening) (p : Program)
      → IsDeaf app p
      → IsDeaf app (if ltb 0 p.threads then after_handler p (handler c p.held h p.app) else p)
  no_handler app h p v =
      let idle : ltb 0 p.threads ≡ false = ground (arith, v.no_thread) in rw idle v

  step-IsDeaf : (app : App) (h : Happening) (p : Program) → IsDeaf app p → IsDeaf app (step c h p)
  unfolding step
  step-IsDeaf app signals p v = record { held = v.held; no_thread = v.no_thread; kept = v.kept }
  step-IsDeaf app closes p v = if_waiting-IsDeaf app p.console leave p v (leave-IsDeaf app p v)
  step-IsDeaf app (types t discovered l) p v =
      if_waiting-IsDeaf app p.console _ p v (typed-IsDeaf app t discovered (parse_line l) p v)
  step-IsDeaf app (connects ip i) p v = no_handler app (connects ip i) p v
  step-IsDeaf app (finds t info) p v = no_handler app (finds t info) p v
  step-IsDeaf app (loses ip) p v = no_handler app (loses ip) p v
  step-IsDeaf app (reads t ip i done) p v = no_handler app (reads t ip i done) p v

  run-IsDeaf :
      (app : App) (hs : List Happening) (p : Program) → IsDeaf app p → IsDeaf app (run c hs p)
  unfolding run
  run-IsDeaf app [] p v = v
  run-IsDeaf app (h ∷ hs) p v = run-IsDeaf app hs (step c h p) (step-IsDeaf app h p v)

  waits-HasThreads :
      (n : ℕ) (h : Happening) (p : Program)
      → waits h ≡ true
      → HasThreads (n + 1) p
      → HasThreads n (if ltb 0 p.threads then after_handler p (handler c p.held h p.app) else p)
  waits-HasThreads n h p w (held, few) =
      let r : App × End = handler c p.held h p.app in
      let e : r.1 ≡ blocked = rw held (waits-blocked h p.app w) in
      elim (Bool-cases (ltb 0 p.threads)) [
        | inl busy ↦ rw busy (after_handler-blocked n p r e few)
        | inr idle ↦ rw idle (held, ground (arith, idle))
      ]

  step-HasThreads :
      (n : ℕ) (h : Happening) (p : Program)
      → waits h ≡ true
      → HasThreads (n + 1) p
      → HasThreads n (step c h p)
  unfolding step
  step-HasThreads n (connects ip i) p w v = waits-HasThreads n (connects ip i) p w v
  step-HasThreads n (finds t info) p w v = waits-HasThreads n (finds t info) p w v
  step-HasThreads n (loses ip) p w v = waits-HasThreads n (loses ip) p w v
  step-HasThreads n (reads t ip i done) p w v = cc
  step-HasThreads n (types t discovered l) p w v = cc
  step-HasThreads n signals p w v = cc
  step-HasThreads n closes p w v = cc

  run-silent :
      (early late : List Happening) (p : Program)
      → All (λ h. waits h ≡ true) early
      → HasThreads (length early) p
      → (run c (early ++ late) p).app ≡ (run c early p).app
  unfolding run
  run-silent [] late p all v =
      (run-IsDeaf p.app late p
        (record { held = v.0; no_thread = omega (arith, v.1); kept = refl })).kept
  run-silent (h ∷ early) late p all v =
      run-silent early late (step c h p) all.1
        (step-HasThreads (length early) h p all.0 (ground (arith, v)))

  greeted-HasThreads :
      (n : ℕ) (p : Program) (ip text : Bytes) (i : ℕ)
      → c.lib.dump (handshake_json c.lib c.username c.pub_key_hex) ≡ some text
      → 0 < p.threads
      → p.threads ≤ n + 1
      → find ip p.app.network.sessions ≢ some i
      → p.app.network.store i ≡ new_session
      → HasThreads n (step c (connects ip i) p)
  unfolding step
  greeted-HasThreads n p ip text i dumped busy few fresh new =
      let runs : ltb 0 p.threads ≡ true = ground (arith, busy) in
      rw runs (
        after_handler-blocked n p (handler c p.held (connects ip i) p.app)
          (connects-blocked c p.held ip text i p.app dumped fresh new) few)

  -- A program that has threads for handlers, and whose handshake can be dumped: once a new session is
  -- registered for an address that does not have it, and then, for each further thread, a connection
  -- is registered or a peer is found or lost, whatever happens after that, lines, packets,
  -- connections, peers found or lost, the database and the sessions never change again.
  pub run-connects_deaf :
      (p : Program) (ip text : Bytes) (i : ℕ) (early late : List Happening)
      → c.lib.dump (handshake_json c.lib c.username c.pub_key_hex) ≡ some text
      → 0 < p.threads
      → find ip p.app.network.sessions ≢ some i
      → p.app.network.store i ≡ new_session
      → All (λ h. waits h ≡ true) early
      → p.threads ≤ length early + 1
      → (run c (connects ip i ∷ (early ++ late)) p).app ≡ (run c (connects ip i ∷ early) p).app
  unfolding run
  run-connects_deaf p ip text i early late dumped busy fresh new all few =
      run-silent early late (step c (connects ip i) p) all
        (greeted-HasThreads (length early) p ip text i dumped busy few fresh new)
