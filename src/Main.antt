-- ===== src/Main.antt =====
-- src/main.cpp: the settings at the start, the callbacks on packets and peers, the console, and all of
-- them together as one running program.
--
-- A callback or a command changes the database and the network manager, step by step, and may not
-- come to its end: a statement or a dump may throw, and a send may lock a mutex that its own thread
-- holds. `App` is what the parts share, and `End` says how far the steps came. What is printed is a
-- list of `Output`, one for each line, without its wording; the log lines are left out.
pub mod Startup
mod Storing
pub mod Commands
pub mod Callbacks
pub mod Console
pub mod Launch
pub mod Program
pub mod Begin
mod Examples
use mathlib.Core.Option
use local_messenger.Common.{ℕ, Option, none, some, Bytes}
use local_messenger.Protocol.{Packet}
use local_messenger.Session.{Outcome, done, relocked}
use local_messenger.Network.{NetworkManager, send_to}
use local_messenger.Storage.{Database, Stamp, Result, ok, sql_error}
use local_messenger.Storage.Sql.{OrderBy}
use local_messenger.Storage.Contacts.{Contact, updated, find_by_ip}
use local_messenger.Storage.Messages.{Message, MessageDirection, default_message, insert}

pub record App : Type 0 where
  pub db : Database
  pub network : NetworkManager

pub data End : Type 0 where
  returned blocked thrown : End

infixl 5 ◌>>◌
abbrev pub then_step : (App → App × End) → App × End → App × End
then_step next (app, returned) = next app
then_step next (app, blocked) = (app, blocked)
then_step next (app, thrown) = (app, thrown)

-- One step after the other, while they return.
abbrev pub ◌>>◌ : (App → App × End) → (App → App × End) → App → App × End
◌>>◌ first next app = then_step next (first app)

abbrev pub skip : App → App × End
skip app = (app, returned)

unfoldable pub sent_packet : App → Outcome NetworkManager → App × End
sent_packet app (done m) = (record app { network = m }, returned)
sent_packet app relocked = (app, blocked)

-- `net_mgr.send_to(ip, packet)`
unfoldable pub send_packet : Bytes → Packet → App → App × End
unfolding sent_packet
send_packet ip packet app = sent_packet app (send_to ip packet app.network)

unfoldable pub stored_message : App → Result (Database × ℕ) → App × End
stored_message app (ok (db, id)) = (record app { db = db }, returned)
stored_message app sql_error = (app, thrown)

-- The message that both directions store: to or from the contact, with no UUID.
unfoldable pub text_message : MessageDirection → Bytes → Contact → Message
text_message direction text c = record default_message {
  contact_id = c.id;
  direction = direction;
  content = text;
}

unfoldable pub store_for : Stamp → MessageDirection → Bytes → Option Contact → App → App × End
unfolding stored_message text_message
store_for t direction text none app = skip app
store_for t direction text (some c) app =
    stored_message app (insert t (text_message direction text c) app.db)

-- A message is stored only if the address has a contact.
unfoldable pub store_text :
    OrderBy updated → Stamp → MessageDirection → Bytes → Bytes → App → App × End
unfolding store_for
store_text by_update t direction ip text app =
    store_for t direction text (find_by_ip by_update ip app.db) app
