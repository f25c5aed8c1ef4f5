-- ===== src/Session/Write.antt =====
-- The writing side: send, and the mutex that it holds.
use local_messenger.Common.{◌≡◌, false, arith}
use local_messenger.Protocol.{Packet}
use local_messenger.Session.{Session, relocked, send}

-- The first packet of an idle writer: send calls do_write with the mutex held, which locks it again.
pub send_relocks : (p : Packet) (s : Session) → s.writing ≡ false → send p s ≡ relocked
unfolding send
send_relocks p s w = ground arith
