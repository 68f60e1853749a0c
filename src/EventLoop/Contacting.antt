-- ===== src/EventLoop/Contacting.antt =====
-- `handle_handshake` and `ensure_incoming_request` of crates/y7ke-app/src/event_loop.rs.
pub mod Gate
pub mod Surfaced
use y7ke.Prelude.{
  ℕ, ◌+◌, Bool, true, false, not, Option, none, some, List, [], ◌∷◌, ◌==◌, any, is_some, is_none,
  if◌then◌else◌,
}
use y7ke.Bytes.{Bytes}
use y7ke.Ident.{Y7Id}
use y7ke.Status.{ContactStatus, pending_in, network}
use y7ke.RateLimit.{allow_handshake}
use y7ke.Storage.{Db}
use y7ke.Storage.Contacts
use y7ke.Storage.Contacts.{Contact}
use y7ke.Storage.Sessions
use y7ke.Storage.Requests
use y7ke.Storage.Requests.{Request, incoming}
use y7ke.Handshake.{HandshakeReq, HandshakeResp, respond as respond_handshake, reject_response}
use y7ke.App.{
  App, Env, Exec, Done, PeerId, ◌>>=◌, ◌>>◌, finished, modify, gets, lift, fail, over_db, emit,
  respond, handshake_reply, request_received,
}
use y7ke.EventLoop.{Times}

abbrev is_accepted : ContactStatus → Bool
is_accepted ContactStatus.accepted = true
is_accepted _ = false

abbrev pub accepted_contact : Option Contact → Bool
accepted_contact none = false
accepted_contact (some c) = is_accepted c.status

abbrev pub add_contact : Y7Id → ℕ → Db → Db
add_contact y7 now db = record db {
  contacts =
      (Contacts.insert db.contacts
        (record { y7_id = y7; ed25519_pub = y7; nickname = none; status = pending_in }) now).0;
}

abbrev pub from_peer : Y7Id → Request → Bool
from_peer y7 r = r.peer_y7_id == y7

abbrev pub add_request : Y7Id → Option Bytes → ℕ → Db → Db
add_request y7 greeting now db = record db {
  requests =
      (Requests.insert db.requests
        (record { direction = incoming; peer_y7_id = y7; initial_text = greeting }) now).0;
}

-- The contact of a new peer, then the request unless one is pending.
unfoldable pub surface : Y7Id → Option Bytes → ℕ → Db → Db
surface y7 greeting now db =
    let existing = Contacts.get db.contacts y7 in
    let db1 = if is_none existing then add_contact y7 now db else db in
    let already_pending = any (from_peer y7) (Requests.list_pending db1.requests (some incoming)) in
    if already_pending then db1 else add_request y7 greeting now db1

unfoldable pub ensure_incoming_request : Y7Id → Option Bytes → Times → Exec Done
unfolding surface
ensure_incoming_request y7 greeting t = do
  existing ← gets (λ s. Contacts.get s.db.contacts y7)
  if accepted_contact existing
      then finished
      else (do modify (over_db (surface y7 greeting t.now)); emit (request_received y7 greeting))

-- The limiter's answer; the limiter counts an attempt it lets through.
unfoldable pub admit_handshake : PeerId → Times → Exec Bool
admit_handshake peer t s =
    let (limiter, allowed) = allow_handshake s.rate_limiter peer t.instant in
    (y7ke.Status.ok allowed, record s { rate_limiter = limiter })

abbrev pub or_network : Option PeerId → Exec PeerId
or_network none = fail network
or_network (some p) = y7ke.App.pure p

-- `eph` is the ephemeral secret that `respond` draws.
unfoldable pub handle_handshake : Env → PeerId → HandshakeReq → Bool → ℕ → Times → Exec Done
unfolding admit_handshake
handle_handshake env peer request channel eph t = do
  let c = env.crypto
  let reject = handshake_reply (reject_response c env.me env.my_pubkey request)
  allowed ← admit_handshake peer t
  if not allowed
      then (do
        modify (λ s. record s { rl_drops_handshake = s.rl_drops_handshake + 1 })
        respond channel reject)
      else (do
        let claimed_id = request.initiator_ed25519_pub
        expected_peer ← or_network (env.peer_id_from_y7 claimed_id)
        if not (expected_peer == peer) then respond channel reject else (do
          session ← gets (λ s. Sessions.get s.db.sessions claimed_id)
          if is_some session
              then (do
                respond channel reject
                ensure_incoming_request claimed_id request.greeting t)
              else (do
                (resp, key, initiator) ← lift (respond_handshake c env.me env.my_pubkey request eph)
                modify (
                    over_db (λ db. record db {
                      sessions = Sessions.upsert_session db.sessions initiator t.now;
                    }))
                respond channel (handshake_reply resp)
                ensure_incoming_request initiator request.greeting t)))
