-- ===== src/Network/Crossing/Agreement.antt =====
-- Two peers that connect to one another at the same time: whether a connection is left.
use local_messenger.Common.{
  ℕ, ◌≡◌, ◌≢◌, refl, sym, ap, ◌∙◌, Bool, true, false, not, some, Bytes, arith,
}
use local_messenger.Common.Map.{find}
use local_messenger.Session.{done, ErrorCode, start, is_open}
use local_messenger.Network.Sessions.{
  find-register_session, register_session-store, register_session_other, register_session-closed,
}
use local_messenger.Network.{NetworkManager, register_session, is_connected, open_found}
use local_messenger.Network.Crossing.{register_both, register_in, cut_both, agree, crossed, AreNew}
use local_messenger.Network.Crossing.Left.{IsLeft, cut-first, cut-second}

AreNew-swap : {ip : Bytes} {i k : ℕ} {m : NetworkManager} → AreNew ip i k m → AreNew ip k i m
AreNew-swap v = record {
  differ = λ e. v.differ (sym e);
  other_i = v.other_k;
  other_k = v.other_i;
  open_i = v.open_k;
  open_k = v.open_i;
}

register_both-IsLeft :
    (ip : Bytes) (first second : ℕ) (m : NetworkManager)
    → AreNew ip first second m
    → IsLeft ip first second true (register_both ip first second m)
unfolding start is_open
register_both-IsLeft ip first second m v =
    let m' : NetworkManager = (register_session ip first m).0 in
    let known : find ip m'.sessions ≡ some first =
      ground (arith, (find-register_session ip ip first m v.other_i).0) in
    let free : find ip m'.sessions ≢ some second = ground (arith, known, v.differ) in
    let kept : m'.store second ≡ m.store second =
      register_session_other ip first second m v.differ v.other_k in
    let begun : (register_session ip second m').0.store second ≡ start (m'.store second) =
      register_session-store ip second m' free in
    record {
      first_closed = register_session-closed ip second first m' (λ e. v.differ (sym e)) known;
      second_closed = ap (λ s. s.closed) begun ∙ ap (λ s. s.closed) kept ∙ ground (arith, v.open_k);
      second_socket =
          ap (λ s. s.socket_open) begun ∙ ap (λ s. s.socket_open) kept ∙ ground (arith, v.open_k);
      known = ground (arith, (find-register_session ip ip second m' free).0);
    }

register_in-open :
    (order : Bool) (ip : Bytes) (i k : ℕ) (m : NetworkManager)
    → AreNew ip i k m
    → (is_open ((register_in order ip i k m).store i) ≡ not order)
      × (is_open ((register_in order ip i k m).store k) ≡ order)
unfolding is_open
register_in-open true ip i k m v =
    let l = register_both-IsLeft ip i k m v in (ground (arith, l), ground (arith, l))
register_in-open false ip i k m v =
    let l = register_both-IsLeft ip k i m (AreNew-swap v) in (ground (arith, l), ground (arith, l))

is_connected-IsLeft :
    (ip : Bytes) (first second : ℕ) (alive : Bool) (m : NetworkManager)
    → IsLeft ip first second alive m
    → is_connected ip m ≡ alive
unfolding is_connected open_found is_open
is_connected-IsLeft ip first second true m v = ground (arith, v)
is_connected-IsLeft ip first second false m v = ground (arith, v)

one_side :
    (ec : ErrorCode) (order there : Bool) (ip : Bytes) (i k : ℕ) (m : NetworkManager)
    → AreNew ip i k m
    → (m' : NetworkManager) × (cut_both ec (not there) there ip i k (register_in order ip i k m)
        ≡ done m')
      × (is_connected ip m' ≡ agree order there)
one_side ec true there ip i k m v =
    let (m', e, l) =
      cut-first ec ip i k v.differ (not there) true (register_both ip i k m)
        (register_both-IsLeft ip i k m v) in
    let (m'', e', l') = cut-second ec ip i k v.differ there true m' l in
    (m'', rw (e, e'), is_connected-IsLeft ip i k there m'' l')
one_side ec false there ip i k m v =
    let w = AreNew-swap v in
    let (m', e, l) =
      cut-second ec ip k i w.differ (not there) true (register_both ip k i m)
        (register_both-IsLeft ip k i m w) in
    let (m'', e', l') = cut-first ec ip k i w.differ there (not there) m' l in
    (m'', rw (e, e'), is_connected-IsLeft ip k i (not there) m'' l')

agree_comm : (b c : Bool) → agree b c ≡ agree c b
agree_comm true true = refl
agree_comm true false = refl
agree_comm false true = refl
agree_comm false false = refl

-- Two peers that connect to one another at the same time, each over a session that the other's
-- address does not have, on open connections: whatever the orders in which the two connections are
-- registered on either side, the failed reads are handled, and both peers count as connected if the
-- orders agree, and neither does if they do not.
pub is_connected-crossed :
    (ec : ErrorCode) (order_a order_b : Bool) (ip_a ip_b : Bytes) (i k j l : ℕ)
    (a b : NetworkManager)
    → AreNew ip_b i k a
    → AreNew ip_a j l b
    → (r : NetworkManager × NetworkManager) × (crossed ec order_a order_b ip_a ip_b i k j l a b
        ≡ done r)
      × (is_connected ip_b r.0 ≡ agree order_a order_b)
      × (is_connected ip_a r.1 ≡ agree order_a order_b)
is_connected-crossed ec order_a order_b ip_a ip_b i k j l a b new_a new_b =
    let (at_i, at_k) = register_in-open order_a ip_b i k a new_a in
    let (at_j, at_l) = register_in-open order_b ip_a j l b new_b in
    let (a', ea, ca) = one_side ec order_a order_b ip_b i k a new_a in
    let (b', eb, cb) = one_side ec order_b order_a ip_a j l b new_b in
    ((a', b'), rw (at_i, at_k, at_j, at_l, ea, eb), ca, cb ∙ agree_comm order_b order_a)
