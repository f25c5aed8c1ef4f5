-- ===== src/Network/Shutdown.antt =====
-- stop: every session of the map is closed.
use local_messenger.Common.{
  ℕ, ◌≡◌, refl, ap, subst, false, [], ◌∷◌, some, Bytes, Bytes-discrete, arith,
}
use local_messenger.Common.Map.{Map, find}
use local_messenger.Session.{is_open}
use local_messenger.Network.{
  NetworkManager, close_session, close_all, stop, is_connected, open_found,
}
use local_messenger.Network.Sessions.{is_open-close}

pub close_session_shut :
    (i j : ℕ) (m : NetworkManager)
    → is_open (m.store j) ≡ false
    → is_open ((close_session i m).store j) ≡ false
unfolding close_session
close_session_shut i j m e = ground (arith, e, is_open-close (m.store i), ap (λ k. m.store k))

close_all_shut :
    (l : Map ℕ) (j : ℕ) (m : NetworkManager)
    → is_open (m.store j) ≡ false
    → is_open ((close_all l m).store j) ≡ false
unfolding close_all
close_all_shut [] j m e = e
close_all_shut ((ip, i) ∷ l) j m e =
    close_all_shut l j (close_session i m) (close_session_shut i j m e)

close_all_found :
    (ip : Bytes) (l : Map ℕ) (j : ℕ) (m : NetworkManager)
    → find ip l ≡ some j
    → is_open ((close_all l m).store j) ≡ false
unfolding close_all find
close_all_found ip [] j m e = cc
close_all_found ip ((k, i) ∷ l) j m e = elim (Bytes-discrete k ip) [
  | yes h ↦
      let same : i ≡ j = ground (arith, h, e) in
      subst (λ x. is_open ((close_all l (close_session i m)).store x) ≡ false) same
        (close_all_shut l i (close_session i m)
          (unfold close_session in ground (arith, is_open-close (m.store i))))
  | no n ↦ close_all_found ip l j (close_session i m) (ground (arith, n, e))
]

-- After stop no address is connected, and the session that an address had is closed.
pub is_connected-stop :
    (ip : Bytes) (m : NetworkManager)
    → (is_connected ip (stop m) ≡ false)
      × ((j : ℕ) → find ip m.sessions ≡ some j → is_open ((stop m).store j) ≡ false)
unfolding is_connected stop open_found find
is_connected-stop ip m = (refl, λ j e. close_all_found ip m.sessions j m e)
