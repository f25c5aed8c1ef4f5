-- ===== src/Network/Crossing.antt =====
-- Two peers that connect to one another at the same time: each has two connections to the other, and
-- keeps the one that it registers last.
pub mod Left
pub mod Agreement
use local_messenger.Common.{ℕ, ◌≡◌, ◌≢◌, Bool, true, false, not, if◌then◌else◌, some, Bytes}
use local_messenger.Common.Map.{find}
use local_messenger.Session.{Outcome, done, ◌>>=◌, ErrorCode, failed, is_open}
use local_messenger.Network.{NetworkManager, register_session, header_read_done}

-- The two connections of an address are registered, the second after the first.
abbrev pub register_both : Bytes → ℕ → ℕ → NetworkManager → NetworkManager
register_both ip first second m = (register_session ip second (register_session ip first m).0).0

-- Where the other end of its connection was closed, the session's read fails.
abbrev pub cut : ErrorCode → Bool → Bytes → ℕ → NetworkManager → Outcome NetworkManager
cut ec open_there ip i m =
    if open_there then done m else (do (m', out) ← header_read_done ip i (failed ec) m; done m')

-- The address's own connection is registered first, or the other's.
abbrev pub register_in : Bool → Bytes → ℕ → ℕ → NetworkManager → NetworkManager
register_in true ip i k m = register_both ip i k m
register_in false ip i k m = register_both ip k i m

abbrev pub cut_both :
    ErrorCode → Bool → Bool → Bytes → ℕ → ℕ → NetworkManager → Outcome NetworkManager
cut_both ec i_open_there k_open_there ip i k m = do
  m' ← cut ec i_open_there ip i m
  cut ec k_open_there ip k m'

abbrev pub agree : Bool → Bool → Bool
agree true b = b
agree false b = not b

-- Peer a has the sessions i and k of its address ip_b, and peer b the sessions j and l of ip_a: i and j
-- are the ends of one connection, k and l those of the other. `order_a` and `order_b` say whether the
-- first of the two connections is registered first. Then the reads fail on each connection whose
-- other end was closed.
abbrev pub crossed :
    ErrorCode
    → Bool
    → Bool
    → Bytes
    → Bytes
    → ℕ
    → ℕ
    → ℕ
    → ℕ
    → NetworkManager
    → NetworkManager
    → Outcome (NetworkManager × NetworkManager)
crossed ec order_a order_b ip_a ip_b i k j l a b =
    let at_a = register_in order_a ip_b i k a in
    let at_b = register_in order_b ip_a j l b in
    do
      a' ← cut_both ec (is_open (at_b.store j)) (is_open (at_b.store l)) ip_b i k at_a
      b' ← cut_both ec (is_open (at_a.store i)) (is_open (at_a.store k)) ip_a j l at_b
      done (a', b')

-- Two sessions that the address does not have, on open connections.
pub record AreNew (ip : Bytes) (i k : ℕ) (m : NetworkManager) : Type 0 where
  pub differ : i ≢ k
  pub other_i : find ip m.sessions ≢ some i
  pub other_k : find ip m.sessions ≢ some k
  pub open_i : is_open (m.store i) ≡ true
  pub open_k : is_open (m.store k) ≡ true
