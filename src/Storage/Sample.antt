-- ===== src/Storage/Sample.antt =====
-- Two contacts and three messages, for the examples.
use local_messenger.Common.{[], ◌∷◌, none, codes}
use local_messenger.Storage.{ContactRow, MessageRow, Database, Stamp}
use local_messenger.Storage.Contacts.{Contact, default_contact}
use local_messenger.Storage.Messages.{Message, default_message}

abbrev pub alice : ContactRow
alice = record {
  id = 1;
  username = codes "Alice";
  ip = codes "26.0.0.1";
  port = 7777;
  public_key = codes "aa";
  fingerprint = [];
  avatar_path = [];
  is_blocked = 1;
  created_at = 10;
  updated_at = 10;
}

abbrev pub bob : ContactRow
bob = record alice { id = 2; username = codes "Bob"; public_key = codes "bb"; updated_at = 20 }

abbrev pub greeting : MessageRow
greeting = record {
  id = 1;
  contact_id = 1;
  direction = 0;
  msg_type = 1;
  content = codes "hi";
  encrypted = none;
  status = 0;
  msg_uuid = codes "u1";
  created_at = 11;
}

abbrev pub two_contacts : Database
two_contacts = record {
  contacts = alice ∷ (bob ∷ []);
  contact_seq = 2;
  messages = greeting ∷ (record greeting { id = 2; msg_uuid = codes "u2"; created_at = 12 } ∷ []);
  message_seq = 2;
  settings = [];
  last_insert_rowid = 2;
}

abbrev pub now : Stamp
now = record { now = 30; rowid = 3 }

abbrev pub moved_alice : Contact
moved_alice = record default_contact {
  username = codes "A";
  ip = codes "26.0.0.9";
  public_key = codes "aa";
}

abbrev pub carol : Contact
carol = record default_contact { username = codes "Carol"; public_key = codes "cc" }

abbrev pub to_alice : Message
to_alice = record default_message { contact_id = 1; content = codes "yo"; msg_uuid = codes "u3" }
