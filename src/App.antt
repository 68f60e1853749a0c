-- ===== src/App.antt =====
-- crates/y7ke-app/src/app.rs `AppInner`, the events of crates/y7ke-core/src/event.rs, the sync
-- messages of crates/y7ke-net/src/protocol.rs, and the monad in which the handlers are written: a
-- handler reads and changes the state of the app, and may fail with what it changed so far kept. A
-- task that it spawns is kept in `spawned`.
-- What a handler sends is kept in logs: the events of the event bus, the replies on response
-- channels, the envelopes of `send_msg` and the requests of `send_sync`. An event names a peer by its id and a message by its
-- bytes: the strings that the source prints of them are not built.
use y7ke.Prelude.{ℕ, ◌*◌, Bool, Option, List, [], ◌∷◌, ◌++◌, if◌then◌else◌}
use y7ke.Map.{Map}
use y7ke.Bytes.{Bytes}
use y7ke.Int.{ℤ}
use y7ke.Ident.{Y7Id, MessageId, ConversationId, between}
use y7ke.Status.{
  MessageStatus, ConnectionKind, NatReachability, RequestResolution, Result, ok, err, AppError,
  network,
}
use y7ke.Crypto.{Crypto}
use y7ke.Storage.{Db}
use y7ke.RateLimit.{RateLimiter}
use y7ke.Reconnect.{Backoff}
use y7ke.Addr.{Multiaddr}
use y7ke.Presence.{Presences, ConnectionMeta}
use y7ke.Messaging.{MessageEnvelope}
use y7ke.Handshake.{HandshakeResp}

abbrev pub PeerId : Type 0
PeerId = ℕ

pub data AppEvent : Type 0 where
  request_received : Y7Id → Option Bytes → AppEvent
  request_resolved : Y7Id → RequestResolution → AppEvent
  contact_added : Y7Id → AppEvent
  contact_removed : Y7Id → AppEvent
  message_received : ConversationId → MessageId → Y7Id → ℤ → Bytes → AppEvent
  message_status_changed : MessageId → MessageStatus → AppEvent
  presence_changed : Y7Id → ConnectionKind → ConnectionMeta → AppEvent
  settings_changed : AppEvent
  background_error : AppEvent
  nat_status_changed : NatReachability → AppEvent

pub record ConversationDigest : Type 0 where
  pub conversation_id : ConversationId
  pub highest_outbound_msg_id : Option MessageId
  pub highest_inbound_msg_id : Option MessageId

pub data SyncReq : Type 0 where
  header : List ConversationDigest → SyncReq
  pull : ConversationId → Option MessageId → ℕ → SyncReq
  ack : ConversationId → List MessageId → SyncReq

pub data SyncResp : Type 0 where
  header_ack : List ConversationDigest → SyncResp
  pulled : List MessageEnvelope → Bool → SyncResp
  acked : SyncResp

pub data Reply : Type 0 where
  handshake_reply : HandshakeResp → Reply
  msg_reply : Bool → Reply
  sync_reply : SyncResp → Reply

pub record NatStatusState : Type 0 where
  pub verdict : NatReachability
  pub consecutive_failures : ℕ

-- `kad_lookups` is not modelled; the pings of the bootstraps are an argument in Commands/Bootstraps.
pub record App : Type 0 where
  pub db : Db
  pub presences : Presences
  pub rate_limiter : RateLimiter
  pub nat_status : NatStatusState
  pub dcutr_attempts : ℕ
  pub dcutr_successes : ℕ
  pub dcutr_failures : ℕ
  pub dcutr_recent_failures : List (PeerId × Bytes)
  pub rl_drops_handshake : ℕ
  pub rl_drops_msg : ℕ
  pub rl_drops_sync : ℕ
  pub woken : Bool
  pub upgrade_backoff : Map ℕ
  pub reconnect_backoff : Map Backoff
  pub syncing : List Y7Id
  pub spawned : List (Y7Id × PeerId)
  pub events : List AppEvent
  pub replies : List Reply
  pub sent : List (PeerId × MessageEnvelope)
  pub asked : List (PeerId × SyncReq)

-- The identity of the app and the code of other crates: the primitives, the two conversions between
-- a PeerId and a Y7Id, and serde_json on an envelope
-- and on addresses.
pub record Env : Type 0 where
  pub crypto : Crypto
  pub me : ℕ
  pub my_pubkey : ℕ
  pub peer_id_from_y7 : Y7Id → Option PeerId
  pub y7_id_from_peer_id : PeerId → Option Y7Id
  pub envelope_to_json : MessageEnvelope → Option Bytes
  pub addrs_to_json : List Multiaddr → Option Bytes
  pub envelope_from_json : Bytes → Option MessageEnvelope

-- `Y7Id::from_pubkey` and `Y7Id::pubkey` are the identity on the 32 bytes.
abbrev pub my_y7_id : Env → Y7Id
my_y7_id env = env.my_pubkey

abbrev pub conversation_with : Env → Y7Id → ConversationId
conversation_with env peer = between env.crypto.blake3 (my_y7_id env) peer

abbrev pub conversation_from : Env → Y7Id → ConversationId
conversation_from env peer = between env.crypto.blake3 peer (my_y7_id env)

abbrev pub max_message_bytes : ℕ
max_message_bytes = 64 * 1024

abbrev pub Exec : Type 0 → Type 0
Exec A = App → Result A × App

module _ {A B : Type 0} where
  abbrev pub continue : Result A × App → (A → Exec B) → Result B × App
  continue (ok a, s) f = f a s
  continue (err e, s) f = (err e, s)

  infixl 5 ◌>>=◌ ◌>>◌
  abbrev pub ◌>>=◌ : Exec A → (A → Exec B) → Exec B
  (m >>= f) s = continue (m s) f

  abbrev pub ◌>>◌ : Exec A → Exec B → Exec B
  (m >> n) s = continue (m s) (λ _. n)

module _ {A : Type 0} where
  abbrev pub pure : A → Exec A
  pure a s = (ok a, s)

  abbrev pub fail : AppError → Exec A
  fail e s = (err e, s)

  abbrev pub lift : Result A → Exec A
  lift r s = (r, s)

  abbrev pub gets : (App → A) → Exec A
  gets f s = (ok (f s), s)

pub data Done : Type 0 where
  done : Done

abbrev pub modify : (App → App) → Exec Done
modify f s = (ok done, f s)

abbrev pub finished : Exec Done
finished s = (ok done, s)

abbrev pub over_db : (Db → Db) → App → App
over_db f s = record s { db = f s.db }

abbrev pub emit : AppEvent → Exec Done
emit e s = (ok done, record s { events = s.events ++ e ∷ [] })

-- `respond_*_take`: the channel is a one-shot, and a second take fails.
abbrev pub respond : Bool → Reply → Exec Done
respond channel reply s =
    if channel then (ok done, record s { replies = s.replies ++ reply ∷ [] }) else (err network, s)

-- `result.ok()` and `let _ = result`
abbrev pub ignore : {A : Type 0} → A → Result A → A
ignore old (ok a) = a
ignore old (err e) = old
