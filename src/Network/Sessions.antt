-- ===== src/Network/Sessions.antt =====
-- Which session an address has, and which sessions are open.
use local_messenger.Common.{
  ℕ, ◌≡◌, ◌≢◌, refl, ite, true, false, Option, none, some, Bytes, Bytes-discrete, arith,
}
use local_messenger.Common.Map.{find, assign, find-assign, find-erase}
use local_messenger.Session.{Session, start, close, is_open, header_read, do_read_header}
use local_messenger.Network.{
  NetworkManager, close_session, close_found, register_session, on_session_closed, on_peer_lost,
  open_found, is_connected,
}

pub is_open-close : (s : Session) → is_open (close s) ≡ false
unfolding is_open close
is_open-close s = ground arith

pub is_open-start : (s : Session) → is_open (start s) ≡ is_open s
unfolding is_open start do_read_header
is_open-start s = ground arith

pub close_found-sessions :
    (o : Option ℕ) (m : NetworkManager) → (close_found o m).sessions ≡ m.sessions
unfolding close_found close_session
close_found-sessions none m = refl
close_found-sessions (some i) m = refl

close_found_other :
    (o : Option ℕ) (i : ℕ) (m : NetworkManager) → o ≢ some i → (close_found o m).store i ≡ m.store i
unfolding close_found close_session
close_found_other none i m n = refl
close_found_other (some j) i m n = ground (arith, n)

close_found_shut :
    (o : Option ℕ) (j : ℕ) (m : NetworkManager)
    → o ≡ some j
    → is_open ((close_found o m).store j) ≡ false
unfolding close_found close_session
close_found_shut none j m e = cc
close_found_shut (some i) j m e = ground (arith, e, is_open-close (m.store i))

start-reading : (s : Session) → (start s).reading ≡ header_read
unfolding start do_read_header
start-reading s = refl

pub register_session-store :
    (ip : Bytes) (i : ℕ) (m : NetworkManager)
    → find ip m.sessions ≢ some i
    → (register_session ip i m).0.store i ≡ start (m.store i)
unfolding register_session
register_session-store ip i m fresh =
    ground (arith, close_found_other (find ip m.sessions) i m fresh)

pub register_session_other :
    (ip : Bytes) (i k : ℕ) (m : NetworkManager)
    → i ≢ k
    → find ip m.sessions ≢ some k
    → (register_session ip i m).0.store k ≡ m.store k
unfolding register_session
register_session_other ip i k m differ free =
    ground (arith, differ, close_found_other (find ip m.sessions) k m free)

close_found_closed :
    (o : Option ℕ) (j : ℕ) (m : NetworkManager)
    → o ≡ some j
    → ((close_found o m).store j).closed ≡ true
unfolding close_found close_session close
close_found_closed none j m e = cc
close_found_closed (some i) j m e = ground (arith, e)

-- The session that the address had marks itself closed.
pub register_session-closed :
    (ip : Bytes) (i j : ℕ) (m : NetworkManager)
    → i ≢ j
    → find ip m.sessions ≡ some j
    → ((register_session ip i m).0.store j).closed ≡ true
unfolding register_session
register_session-closed ip i j m differ e =
    ground (arith, differ, close_found_closed (find ip m.sessions) j m e)

-- After register_session of a session that the address does not have yet, the address has it, it is
-- open if it was, and it reads a header; every other address has the session that it had; and the
-- session that the address had before, if any, is closed.
pub find-register_session :
    (ip other : Bytes) (i : ℕ) (m : NetworkManager)
    → find ip m.sessions ≢ some i
    → (find other (register_session ip i m).0.sessions
        ≡ ite (Bytes-discrete ip other) (some i) (find other m.sessions))
      × (is_connected ip (register_session ip i m).0 ≡ is_open (m.store i))
      × (((register_session ip i m).0.store i).reading ≡ header_read)
      × ((j : ℕ)
          → find ip m.sessions ≡ some j
          → is_open ((register_session ip i m).0.store j) ≡ false)
unfolding register_session is_connected open_found
find-register_session ip other i m fresh =
    let m' : NetworkManager = close_found (find ip m.sessions) m in
    let kept : m'.sessions ≡ m.sessions = close_found-sessions (find ip m.sessions) m in
    let same : m'.store i ≡ m.store i = close_found_other (find ip m.sessions) i m fresh in
    (
      ground (arith, find-assign ip other i m'.sessions, kept),
      ground (arith, find-assign ip ip i m'.sessions, is_open-start (m'.store i), same),
      ground (arith, start-reading (m'.store i)),
      λ j e. ground (arith, fresh, e, close_found_shut (find ip m.sessions) j m e),
    )

-- A session that fails marks itself closed, and calls on_session_closed later. If a new session of
-- the address is registered in between, the new one is taken out of the map: it stays open and goes
-- on reading, but the address counts as not connected.
pub on_session_closed-register_session :
    (ip : Bytes) (i : ℕ) (m : NetworkManager)
    → find ip m.sessions ≢ some i
    → is_open (m.store i) ≡ true
    → (is_connected ip (on_session_closed ip (register_session ip i m).0).0 ≡ false)
      × (is_open ((on_session_closed ip (register_session ip i m).0).0.store i) ≡ true)
      × (((on_session_closed ip (register_session ip i m).0).0.store i).reading ≡ header_read)
unfolding register_session on_session_closed is_connected open_found
on_session_closed-register_session ip i m fresh opened =
    let m' : NetworkManager = close_found (find ip m.sessions) m in
    let same : m'.store i ≡ m.store i = close_found_other (find ip m.sessions) i m fresh in
    (
      ground (arith, find-erase ip ip (assign ip i m'.sessions)),
      ground (arith, is_open-start (m'.store i), same, opened),
      ground (arith, start-reading (m'.store i)),
    )

-- When the discovery loses a peer, its address has no session, the session that it had is closed,
-- and the other addresses have theirs.
pub find-on_peer_lost :
    (ip other : Bytes) (m : NetworkManager)
    → (find other (on_peer_lost ip m).0.sessions
        ≡ ite (Bytes-discrete ip other) none (find other m.sessions))
      × ((j : ℕ) → find ip m.sessions ≡ some j → is_open ((on_peer_lost ip m).0.store j) ≡ false)
unfolding on_peer_lost
find-on_peer_lost ip other m =
    let m' : NetworkManager = close_found (find ip m.sessions) m in
    let kept : m'.sessions ≡ m.sessions = close_found-sessions (find ip m.sessions) m in
    (
      ground (arith, find-erase ip other m'.sessions, kept),
      λ j e. close_found_shut (find ip m.sessions) j m e,
    )
