-- ===== src/Main/Program/Valid.antt =====
-- The schema of the program's database, over whatever happens.
use local_messenger.Common.{
  sym, subst, Bool, true, false, ltb, if◌then◌else◌, List, [], ◌∷◌, ◌++◌, Bytes, arith,
}
use local_messenger.Protocol.Types.{msg_text}
use local_messenger.Protocol.{make_packet}
use local_messenger.Discovery.{PeerInfo}
use local_messenger.Storage.{Database, Stamp, new_database}
use local_messenger.Storage.Integrity.{IsValid, IsFreshMessage, Run, Run-IsValid}
use local_messenger.Storage.Messages.{outgoing}
use local_messenger.Main.{App, End, returned, blocked, thrown, then_step, send_packet, store_text}
use local_messenger.Main.Commands.{Command, peers, send, Output, parse_line, run_send, execute}
use local_messenger.Main.Console.{is_quit}
use local_messenger.Main.Program.{
  Context, Console, waiting, ended, stuck, crashed, Program, Happening, connects, finds, loses,
  reads, types, signals, closes, takes_mutex, after_handler, leave, after_command, if_waiting,
  handler, execute_held, typed, step, run,
}
use local_messenger.Main.Program.Statements.{Leads, send_packet-db, store_text-Leads}
use local_messenger.Main.Program.Handlers.{IsFresh, handler-Leads}

module _ (d : Database) where
  after_handler-Leads :
      (p : Program) (r : App × End) → Leads d r.0 → Leads d (after_handler p r).app
  unfolding after_handler
  after_handler-Leads p (app, returned) l = l
  after_handler-Leads p (app, blocked) l = l
  after_handler-Leads p (app, thrown) l = l

  leave-Leads : (p : Program) → Leads d p.app → Leads d (leave p).app
  unfolding leave
  leave-Leads p l = subst (Run d) (ground arith) l

  after_command-Leads :
      (p : Program) (r : App × End × List Output) → Leads d r.0 → Leads d (after_command p r).app
  unfolding after_command
  after_command-Leads p (app, returned, out) l =
      let p' : Program = record p { app = app; printed = p.printed ++ out } in
      elim p.running as (λ b. Leads d (if b then p' else leave p').app) [
        | true ↦ l
        | false ↦ leave-Leads p' l
      ]
  after_command-Leads p (app, blocked, out) l = l
  after_command-Leads p (app, thrown, out) l = l

  if_waiting-Leads :
      (c : Console) (f : Program → Program) (p : Program)
      → Leads d p.app
      → Leads d (f p).app
      → Leads d (if_waiting c f p).app
  if_waiting-Leads waiting f p l k = k
  if_waiting-Leads ended f p l k = l
  if_waiting-Leads stuck f p l k = l
  if_waiting-Leads crashed f p l k = l

  module _ (c : Context) where
    -- The message is stored once the packet is sent, which leaves the database as it is.
    send-Leads :
        (t : Stamp) (ip text : Bytes) (app : App)
        → IsFreshMessage t app.db
        → Leads d app
        → Leads d (run_send c.by_update t ip text app).0
    unfolding run_send
    send-Leads t ip text app fresh l =
        let same = send_packet-db ip (make_packet msg_text text) app in
        stores (send_packet ip (make_packet msg_text text) app)
          (subst (IsFreshMessage t) (sym same) fresh) (subst (Run d) (sym same) l)
      where
        stores :
            (r : App × End)
            → IsFreshMessage t r.0.db
            → Leads d r.0
            → Leads d (then_step (store_text c.by_update t outgoing ip text) r).0
        stores (app', returned) fresh' l' =
            store_text-Leads d c.by_update t ip outgoing text app' fresh' l'
        stores (app', blocked) fresh' l' = l'
        stores (app', thrown) fresh' l' = l'

    execute-Leads :
        (t : Stamp) (discovered : List PeerInfo) (command : Command) (app : App)
        → IsFreshMessage t app.db
        → Leads d app
        → Leads d (execute c.by_update c.newest c.like t discovered command app).0
    unfolding execute
    execute-Leads t discovered (send ip text) app fresh l = send-Leads t ip text app fresh l
    execute-Leads t discovered peers app fresh l = l
    execute-Leads t discovered _ app fresh l = l

    execute_held-Leads :
        (held : Bool) (t : Stamp) (discovered : List PeerInfo) (command : Command) (app : App)
        → IsFreshMessage t app.db
        → Leads d app
        → Leads d (execute_held c held t discovered command app).0
    unfolding execute_held
    execute_held-Leads false t discovered command app fresh l =
        execute-Leads t discovered command app fresh l
    execute_held-Leads true t discovered command app fresh l =
        let r : App × End × List Output =
          execute c.by_update c.newest c.like t discovered command app in
        let waits : App × End × List Output = (app, blocked, []) in
        elim (takes_mutex command discovered) as (λ b. Leads d (if b then waits else r).0) [
          | true ↦ l
          | false ↦ execute-Leads t discovered command app fresh l
        ]

    typed-Leads :
        (t : Stamp) (discovered : List PeerInfo) (command : Command) (p : Program)
        → IsFreshMessage t p.app.db
        → Leads d p.app
        → Leads d (typed c t discovered command p).app
    unfolding typed
    typed-Leads t discovered command p fresh l =
        let r : App × End × List Output = execute_held c p.held t discovered command p.app in
        elim (is_quit command) as (λ b. Leads d (if b then leave p else after_command p r).app) [
          | true ↦ leave-Leads p l
          | false ↦
              after_command-Leads p r (execute_held-Leads p.held t discovered command p.app fresh l)
        ]

    handled-Leads :
        (h : Happening) (p : Program)
        → IsFresh h p.app.db
        → Leads d p.app
        → Leads d (if ltb 0 p.threads then after_handler p (handler c p.held h p.app) else p).app
    handled-Leads h p fresh l =
        let r : App × End = handler c p.held h p.app in
        elim (ltb 0 p.threads) as (λ b. Leads d (if b then after_handler p r else p).app) [
          | true ↦ after_handler-Leads p r (handler-Leads d c p.held h p.app fresh l)
          | false ↦ l
        ]

    step-Leads :
        (h : Happening) (p : Program)
        → IsFresh h p.app.db
        → Leads d p.app
        → Leads d (step c h p).app
    unfolding step
    step-Leads signals p fresh l = l
    step-Leads closes p fresh l = if_waiting-Leads p.console leave p l (leave-Leads p l)
    step-Leads (types t discovered line) p fresh l =
        if_waiting-Leads p.console _ p l (typed-Leads t discovered (parse_line line) p fresh l)
    step-Leads (connects ip i) p fresh l = handled-Leads (connects ip i) p fresh l
    step-Leads (finds t info) p fresh l = handled-Leads (finds t info) p fresh l
    step-Leads (loses ip) p fresh l = handled-Leads (loses ip) p fresh l
    step-Leads (reads t ip i done) p fresh l = handled-Leads (reads t ip i done) p fresh l

-- Each happening is fresh where it comes.
abbrev pub AllFresh : Context → List Happening → Program → Type 0
AllFresh c [] p = Unit {0}
AllFresh c (h ∷ hs) p = IsFresh h p.app.db × AllFresh c hs (step c h p)

pub run-Leads :
    (d : Database) (c : Context) (hs : List Happening) (p : Program)
    → AllFresh c hs p
    → Leads d p.app
    → Leads d (run c hs p).app
unfolding run
run-Leads d c [] p fresh l = l
run-Leads d c (h ∷ hs) p fresh l =
    run-Leads d c hs (step c h p) fresh.1 (step-Leads d c h p fresh.0 l)

-- A program whose database came out of statements on a new one, over any number of starts: whatever
-- happens, lines, signals, connections, packets, peers found or lost, where row ids are fresh and
-- ports below 2 ^ 16, the ids of both tables ascend and are bounded by the largest id ever given, no
-- two contacts share a public key, and the contact of each message is there, also where a handler
-- has thrown or waits forever.
pub run-IsValid :
    (c : Context) (hs : List Happening) (p : Program)
    → Run new_database p.app.db
    → AllFresh c hs p
    → IsValid (run c hs p).app.db
run-IsValid c hs p l fresh = Run-IsValid (run-Leads new_database c hs p fresh l)
