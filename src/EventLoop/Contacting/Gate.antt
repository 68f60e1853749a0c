-- ===== src/EventLoop/Contacting/Gate.antt =====
-- What a handshake cannot do.
use y7ke.Prelude.{ℕ, ◌≡◌, refl, Bool, false, Option, some, List, ◌==◌, arith}
use y7ke.Sql.Rows.{find-upsert_ne}
use y7ke.Ident.{Y7Id}
use y7ke.Storage.Sessions
use y7ke.Storage.Sessions.{Session}
use y7ke.Bytes.{Bytes}
use y7ke.Status.{ok}
use y7ke.Crypto.{Crypto}
use y7ke.Messaging.{hkdf_32}
use y7ke.Handshake.{HandshakeReq, HandshakeResp, respond}
use y7ke.App.{App, Env, PeerId}
use y7ke.EventLoop.{Times}
use y7ke.EventLoop.Contacting.{handle_handshake, admit_handshake, ensure_incoming_request, surface}

-- A request that claims an identity other than the connection's changes no table and tells the user
-- nothing.
handle_handshake-impostor :
    (env : Env) (peer expected : PeerId) (req : HandshakeReq) (channel : Bool) (eph : ℕ) (t : Times)
    (s : App)
    → env.peer_id_from_y7 req.initiator_ed25519_pub ≡ some expected
    → (expected == peer) ≡ false
    → ((handle_handshake env peer req channel eph t s).1.db ≡ s.db)
      × ((handle_handshake env peer req channel eph t s).1.events ≡ s.events)
unfolding handle_handshake admit_handshake
handle_handshake-impostor env peer expected req channel eph t s p q = ground arith

keeps_sessions :
    (y7 : Y7Id) (greeting : Option Bytes) (t : Times) (s : App)
    → (ensure_incoming_request y7 greeting t s).1.db.sessions ≡ s.db.sessions
unfolding ensure_incoming_request surface
keeps_sessions y7 greeting t s = ground arith

get-upsert_session :
    (rows : List Session) (peer other : Y7Id) (now : ℕ)
    → (peer == other) ≡ false
    → Sessions.get (Sessions.upsert_session rows peer now) other ≡ Sessions.get rows other
unfolding Sessions.get Sessions.upsert_session
get-upsert_session rows peer other now p =
    find-upsert_ne (Sessions.has_peer other) (Sessions.has_peer peer) _ _ rows p (λ a. refl)
      (λ a q. ground (arith, p, q))

responds_initiator :
    (c : Crypto) (me my : ℕ) (req : HandshakeReq) (eph : ℕ) (x : HandshakeResp × Bytes × Y7Id)
    → respond c me my req eph ≡ ok x
    → x.2 ≡ req.initiator_ed25519_pub
unfolding respond hkdf_32
responds_initiator c me my req eph x p = ground arith

-- A handshake never touches the session that the peer or anyone else has.
pub handle_handshake-keeps_sessions :
    (env : Env) (peer : PeerId) (req : HandshakeReq) (channel : Bool) (eph : ℕ) (t : Times)
    (s : App) (other : Y7Id) (x : Session)
    → Sessions.get s.db.sessions other ≡ some x
    → Sessions.get (handle_handshake env peer req channel eph t s).1.db.sessions other ≡ some x
unfolding handle_handshake admit_handshake
handle_handshake-keeps_sessions env peer req channel eph t s other x p = grind (
  arith,
  keeps_sessions,
  get-upsert_session,
  responds_initiator env.crypto env.me env.my_pubkey req eph,
)
