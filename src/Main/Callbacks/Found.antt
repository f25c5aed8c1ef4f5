-- ===== src/Main/Callbacks/Found.antt =====
-- The contact that a found peer becomes, and the connection to it.
use local_messenger.Common.{
  ◌<◌, ◌^◌, ◌≡◌, refl, ap, subst, ◌∙◌, if◌then◌else◌, [], ◌∷◌, some, arith, Option-cases, inl, inr,
}
use local_messenger.Common.Map.{find}
use local_messenger.Discovery.{PeerInfo}
use local_messenger.Crypto.{Sodium}
use local_messenger.Network.{connecting, is_found, is_connected, open_found, connect_to}
use local_messenger.Storage.{Stamp}
use local_messenger.Storage.Contacts.{find_by_public_key}
use local_messenger.Storage.Contacts.Upsert.{merged, find_by_public_key-upsert}
use local_messenger.Main.{App}
use local_messenger.Main.Callbacks.{found_contact, on_peer_found}

found_contact-public_key :
    (sodium : Sodium) (info : PeerInfo) → (found_contact sodium info).public_key ≡ info.public_key
unfolding found_contact
found_contact-public_key sodium info = refl

pub found_contact-port :
    (sodium : Sodium) (info : PeerInfo) → (found_contact sodium info).port ≡ info.port
unfolding found_contact
found_contact-port sodium info = refl

-- The key of a peer with a port below 2 ^ 16 has the merged contact after on_peer_found.
pub find-on_peer_found :
    (sodium : Sodium) (t : Stamp) (info : PeerInfo) (app : App)
    → info.port < 2 ^ 16
    → find_by_public_key info.public_key (on_peer_found sodium t info app).0.db
      ≡ some (merged t (found_contact sodium info) (find_by_public_key info.public_key app.db))
unfolding on_peer_found
find-on_peer_found sodium t info app h = ground (
  arith,
  find_by_public_key-upsert t (found_contact sodium info) info.public_key app.db,
  found_contact-public_key sodium info,
  found_contact-port sodium info,
)

-- Two peers with one public key, for instance both with none, and ports below 2 ^ 16: after both were
-- found one contact has the key, with the id and the block of the contact before them or of the
-- first, and with the second peer's name and address.
pub on_peer_found_twice :
    (sodium : Sodium) (t u : Stamp) (p q : PeerInfo) (app : App)
    → p.public_key ≡ q.public_key
    → p.port < 2 ^ 16
    → q.port < 2 ^ 16
    → find_by_public_key q.public_key
        (on_peer_found sodium u q (on_peer_found sodium t p app).0).0.db
      ≡ some (
          merged u
            (found_contact sodium q)
            (some (merged t (found_contact sodium p) (find_by_public_key q.public_key app.db))))
on_peer_found_twice sodium t u p q app same hp hq =
    find-on_peer_found sodium u q (on_peer_found sodium t p app).0 hq
    ∙ ap (λ o. some (merged u (found_contact sodium q) o))
        (subst
          (λ k.
            find_by_public_key k (on_peer_found sodium t p app).0.db
            ≡ some (merged t (found_contact sodium p) (find_by_public_key k app.db)))
          same (find-on_peer_found sodium t p app hp))

-- A connection is asked for exactly where the map has no session of the address: one that is closed
-- and still there is in the way too.
pub on_peer_found-connecting :
    (sodium : Sodium) (t : Stamp) (info : PeerInfo) (app : App)
    → (on_peer_found sodium t info app).1 ≡ (
        if is_found (find info.ip app.network.sessions)
        then []
        else connecting info.ip info.port ∷ [])
unfolding on_peer_found is_connected connect_to open_found
on_peer_found-connecting sodium t info app =
    elim (Option-cases (find info.ip app.network.sessions)) [
      | inl e ↦ rw e
      | inr (i, e) ↦ ground (arith, e)
    ]
