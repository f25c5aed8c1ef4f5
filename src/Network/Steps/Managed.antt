-- ===== src/Network/Steps/Managed.antt =====
-- What holds of the sessions in every state that a manager can reach.
use local_messenger.Common.{
  ℕ, ◌≡◌, ◌≢◌, refl, sym, subst, ◌∙◌, if◌then◌else◌, [], ◌++◌, some, Bytes, Bytes-discrete, arith,
}
use local_messenger.Common.Map.{Map, find, assign, erase, find-assign, find-erase}
use local_messenger.Protocol.{Packet}
use local_messenger.Session.{done, relocked, start}
use local_messenger.Session.Run.{here, next}
use local_messenger.Network.{
  NetworkManager, close_found, register_session, on_session_closed, on_peer_lost, is_connected,
  send_to, broadcast, stop,
}
use local_messenger.Network.Sessions.{close_found-sessions}
use local_messenger.Network.Steps.{
  Step, registers, handles, closed, loses, sends, broadcasts, answers, stops, new_manager, Trace,
}
use local_messenger.Network.Steps.Reached.{
  IsReached, AllReached, start-IsReached, set_session-AllReached, close_found-AllReached,
  close_all-AllReached, send_to_stuck, same_of_done, broadcast_over_same, on_session_packet_same,
}

-- Each session is in such a state, and no two addresses share one.
pub record IsManaged (m : NetworkManager) : Type 0 where
  pub reached : (i : ℕ) → IsReached (m.store i)
  pub alone :
      (a b : Bytes) (i : ℕ) → find a m.sessions ≡ some i → find b m.sessions ≡ some i → a ≡ b

IsAlone : Map ℕ → Type 0
IsAlone l = (a b : Bytes) (i : ℕ) → find a l ≡ some i → find b l ≡ some i → a ≡ b

erase-IsAlone : (ip : Bytes) (l : Map ℕ) → IsAlone l → IsAlone (erase ip l)
unfolding IsAlone
erase-IsAlone ip l alone a b i ha hb =
    alone a b i (ground (arith, find-erase ip a l, ha)) (ground (arith, find-erase ip b l, hb))

assign-IsAlone :
    (ip : Bytes) (j : ℕ) (l : Map ℕ)
    → ((k : Bytes) → find k l ≢ some j)
    → IsAlone l
    → IsAlone (assign ip j l)
unfolding IsAlone
assign-IsAlone ip j l fresh alone a b i ha hb = elim (Bytes-discrete ip a) [
  | yes ea ↦ elim (Bytes-discrete ip b) [
    | yes eb ↦ sym ea ∙ eb
    | no nb ↦ ground (arith, find-assign ip a j l, find-assign ip b j l, ea, nb, ha, hb, fresh b)
  ]
  | no na ↦ elim (Bytes-discrete ip b) [
    | yes eb ↦ ground (arith, find-assign ip a j l, find-assign ip b j l, eb, na, ha, hb, fresh a)
    | no nb ↦
        alone a b i (ground (arith, find-assign ip a j l, na, ha))
          (ground (arith, find-assign ip b j l, nb, hb))
  ]
]

new_manager-IsManaged : IsManaged new_manager
unfolding find
new_manager-IsManaged = record { reached = λ i. ([], here); alone = λ a b i h k. cc }

unchanged : {m n : NetworkManager} → m ≡ n → IsManaged m → IsManaged n
unchanged e v = subst IsManaged e v

Step-IsManaged : {m n : NetworkManager} → Step m n → IsManaged m → IsManaged n
unfolding register_session on_session_closed on_peer_lost stop broadcast IsAlone find
Step-IsManaged {m} {n} (registers ip i fresh e) v =
    let m' : NetworkManager = close_found (find ip m.sessions) m in
    let all : AllReached m'.store = close_found-AllReached (find ip m.sessions) m v.reached in
    subst IsManaged (sym e) (record {
      reached =
          set_session-AllReached i (start (m'.store i)) m'.store
            (start-IsReached (m'.store i) (all i)) all;
      alone =
          subst (λ l. IsAlone (assign ip i l)) (sym (close_found-sessions (find ip m.sessions) m))
            (assign-IsAlone ip i m.sessions fresh v.alone);
    })
Step-IsManaged {m} {n} (handles i t es x e) v = subst IsManaged (sym e) (record {
  reached =
      set_session-AllReached i t m.store
        (let (before, r) = v.reached i in (before ++ es, next r x refl)) v.reached;
  alone = v.alone;
})
Step-IsManaged {m} {n} (closed ip e) v =
    subst IsManaged (sym e)
      (record { reached = v.reached; alone = erase-IsAlone ip m.sessions v.alone })
Step-IsManaged {m} {n} (loses ip e) v = subst IsManaged (sym e) (record {
  reached = close_found-AllReached (find ip m.sessions) m v.reached;
  alone =
      subst (λ l. IsAlone (erase ip l)) (sym (close_found-sessions (find ip m.sessions) m))
        (erase-IsAlone ip m.sessions v.alone);
})
Step-IsManaged {m} {n} (sends ip p e) v =
    unchanged (same_of_done (is_connected ip m) m n (sym (send_to_stuck ip p m v.reached) ∙ e)) v
Step-IsManaged {m} {n} (broadcasts p e) v =
    unchanged (broadcast_over_same p m.sessions m n v.reached e) v
Step-IsManaged {m} {n} (answers ip p es e) v =
    unchanged (on_session_packet_same ip p m n es v.reached e) v
Step-IsManaged {m} {n} (stops e) v =
    subst IsManaged (sym e)
      (record { reached = close_all-AllReached m.sessions m v.reached; alone = λ a b i h k. cc })

Trace-IsManaged : {m : NetworkManager} → Trace new_manager m → IsManaged m
Trace-IsManaged Trace.here = new_manager-IsManaged
Trace-IsManaged (Trace.next run step) = Step-IsManaged step (Trace-IsManaged run)

-- In every state that a new manager comes to by operations that return and by the steps of its
-- sessions: no two addresses share a session, every session is in a state that a new session can
-- reach, and a send of any packet to an address does nothing if the address is not connected, and
-- locks a mutex that it holds if it is.
pub Trace-send_to :
    (m : NetworkManager) (ip : Bytes) (p : Packet)
    → Trace new_manager m
    → (send_to ip p m ≡ (if is_connected ip m then relocked else done m)) × IsManaged m
Trace-send_to m ip p run = let v = Trace-IsManaged run in (send_to_stuck ip p m v.reached, v)
