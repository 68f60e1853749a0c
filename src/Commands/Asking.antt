-- ===== src/Commands/Asking.antt =====
-- `send_contact_request` of crates/y7ke-app/src/app/contacts.rs. The dial before the handshake is not
-- modelled: it changes no table that the request reads. The answer of the peer is an argument.
use y7ke.Prelude.{ℕ, Option, none, some, ◌==◌, any, is_some, is_none, if◌then◌else◌}
use y7ke.Bytes.{Bytes}
use y7ke.Ident.{Y7Id}
use y7ke.Status.{Result, invalid_input, pending_out}
use y7ke.Storage.{Db}
use y7ke.Storage.Contacts
use y7ke.Storage.Sessions
use y7ke.Storage.Requests
use y7ke.Storage.Requests.{Request, outgoing}
use y7ke.Handshake.{HandshakeReq, HandshakeResp, open_initiator, finalize_initiator}
use y7ke.App.{Env, Exec, Done, PeerId, ◌>>=◌, ◌>>◌, fail, lift, gets, modify, over_db, my_y7_id}
use y7ke.EventLoop.{Times}
use y7ke.EventLoop.Contacting.{or_network, from_peer}

abbrev pub HandshakeNetwork : Type 0
HandshakeNetwork = PeerId → HandshakeReq → Result HandshakeResp

abbrev add_out_contact : Y7Id → ℕ → Db → Db
add_out_contact peer now db =
    if is_none (Contacts.get db.contacts peer)
    then record db {
      contacts =
          (Contacts.insert db.contacts
            (record { y7_id = peer; ed25519_pub = peer; nickname = none; status = pending_out })
            now).0;
    }
    else db

abbrev add_out_request : Y7Id → Option Bytes → ℕ → Db → Db
add_out_request peer greeting now db =
    if any (from_peer peer) (Requests.list_pending db.requests (some outgoing))
    then db
    else record db {
      requests =
          (Requests.insert db.requests
            (record { direction = outgoing; peer_y7_id = peer; initial_text = greeting }) now).0;
    }

-- The handshake; its session key is not kept.
unfoldable pub shake : Env → HandshakeNetwork → Y7Id → PeerId → Option Bytes → ℕ → Times → Exec Done
shake env net peer peer_id greeting eph t = do
  let c = env.crypto
  let opened = open_initiator c env.me env.my_pubkey peer greeting eph
  resp ← lift (net peer_id opened.0)
  key ← lift (finalize_initiator c opened.1 env.my_pubkey peer resp)
  modify (over_db (λ db. record db { sessions = Sessions.upsert_session db.sessions peer t.now }))

unfoldable pub send_contact_request :
    Env → HandshakeNetwork → Y7Id → Option Bytes → ℕ → Times → Exec Done
unfolding shake
send_contact_request env net peer greeting eph t =
    if peer == my_y7_id env then fail invalid_input else (do
      peer_id ← or_network (env.peer_id_from_y7 peer)
      session ← gets (λ s. Sessions.get s.db.sessions peer)
      if is_some session then modify (over_db (add_out_contact peer t.now)) else (do
        modify (over_db (add_out_request peer greeting t.now))
        modify (over_db (add_out_contact peer t.now))
        shake env net peer peer_id greeting eph t))
