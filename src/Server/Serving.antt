-- ===== src/Server/Serving.antt =====
-- The connections that a server takes.
use local_messenger.Common.{
  ℕ, ◌≤◌, length, ◌≡◌, refl, ap, Bool, true, false, List, [], ◌∷◌, ◌++◌, none, some, arith,
}
use local_messenger.Server.{
  TcpServer, Accept, failed, connected, Event, accepted, thrown, new_server, start, stop, do_accept,
  on_accepted,
}

-- Connections and errors in the order in which they come; one that comes while no accept is
-- outstanding is never taken.
unfoldable pub serve : List Accept → TcpServer → TcpServer × List Event
serve [] s = (s, [])
serve (a ∷ rest) s = elim s.accepting [
  | true ↦ let (s', es) = on_accepted a s in let (s'', fs) = serve rest s' in (s'', es ++ fs)
  | false ↦ (s, [])
]

-- The calls of `on_accept_` up to the first accept that fails or whose peer has gone.
abbrev pub before_failure : List Accept → List Event
before_failure [] = []
before_failure (connected (some address) ∷ rest) = accepted address ∷ before_failure rest
before_failure (connected none ∷ rest) = thrown ∷ []
before_failure (failed ∷ rest) = []

abbrev pub never_fails : List Accept → Bool
never_fails [] = true
never_fails (connected (some address) ∷ rest) = never_fails rest
never_fails (connected none ∷ rest) = false
never_fails (failed ∷ rest) = false

serve_deaf : (l : List Accept) (s : TcpServer) → s.accepting ≡ false → serve l s ≡ (s, [])
unfolding serve
serve_deaf [] s e = refl
serve_deaf (a ∷ rest) s e = ground arith

serve_lem :
    (l : List Accept) (s : TcpServer)
    → s.running ≡ true
    → s.accepting ≡ true
    → ((serve l s).1 ≡ before_failure l) × ((serve l s).0 ≡ record s { accepting = never_fails l })
unfolding serve on_accepted
serve_lem [] s r a = (refl, ground arith)
serve_lem (connected (some address) ∷ rest) s r a =
    ground (arith, serve_lem rest (do_accept (record s { accepting = false })))
serve_lem (connected none ∷ rest) s r a =
    ground (arith, serve_deaf rest (record s { accepting = false }))
serve_lem (failed ∷ rest) s r a = ground (arith, serve_deaf rest (record s { accepting = false }))

-- A started server takes the connections in the order in which they come, up to the first accept
-- that fails or whose peer has gone before its address is read; from then on it takes none, though
-- it still counts as running.
pub serve-start :
    (port : ℕ) (l : List Accept)
    → ((serve l (start (new_server port))).1 ≡ before_failure l)
      × ((serve l (start (new_server port))).0.running ≡ true)
      × ((serve l (start (new_server port))).0.accepting ≡ never_fails l)
unfolding start new_server
serve-start port l =
    let (calls, last) = serve_lem l (start (new_server port)) refl refl in
    (calls, ap (λ s. s.running) last, ap (λ s. s.accepting) last)

-- After stop at most one more connection is taken: the one whose accept had completed already.
pub serve-stop : (l : List Accept) (s : TcpServer) → length (serve l (stop s)).1 ≤ 1
unfolding serve stop on_accepted
serve-stop [] s = omega arith
serve-stop (failed ∷ rest) s =
    ground
      (arith, serve_deaf rest (record s { running = false; listening = false; accepting = false }))
serve-stop (connected none ∷ rest) s =
    ground
      (arith, serve_deaf rest (record s { running = false; listening = false; accepting = false }))
serve-stop (connected (some address) ∷ rest) s =
    ground
      (arith, serve_deaf rest (record s { running = false; listening = false; accepting = false }))
