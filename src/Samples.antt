-- ===== src/Samples.antt =====
-- Concrete values for the tests: an app that knows two peers, and stand-ins for the primitives of
-- crates/y7ke-core/src/crypto that satisfy the laws.
use y7ke.Prelude.{
  ℕ, ◌%◌, ◌^◌, ◌≡◌, refl, true, false, Option, none, some, [], ◌∷◌, ◌==◌, ==_refl, if◌then◌else◌,
  arith,
}
use y7ke.Bytes.{Bytes, to_be_bytes, from_be_bytes}
use y7ke.Int.{pos}
use y7ke.Status.{
  ContactStatus, pending_out, pending_in, blocked, MessageStatus, sending, Transport, tcp,
  ConnectionKind, relayed, direct_dial, Result, ok, err,
}
use y7ke.Crypto.{
  Crypto, CryptoLaws, ControlPayload, rejected_request, accepted_request, chat_deleted,
}
use y7ke.Storage.{Db}
use y7ke.Storage.Contacts.{Contact}
use y7ke.Storage.Sessions.{Session}
use y7ke.Storage.Requests.{Request, incoming}
use y7ke.Storage.SyncQueue.{SyncQueueEntry}
use y7ke.Storage.PendingDeletes.{PendingDelete}
use y7ke.Storage.Messages.{Message}
use y7ke.RateLimit.{default_limits}
use y7ke.Messaging.{MessageEnvelope}
use y7ke.Handshake.{HandshakeReq}
use y7ke.App.{App, Env}
use y7ke.EventLoop.{Times}

abbrev zeros : Bytes
zeros =
    0 ∷ 0 ∷ 0 ∷ 0 ∷ 0 ∷ 0 ∷ 0 ∷ 0 ∷ 0 ∷ 0 ∷ 0 ∷ 0 ∷ 0 ∷ 0 ∷ 0 ∷ 0 ∷ 0 ∷ 0 ∷ 0 ∷ 0 ∷ 0 ∷ 0 ∷ 0 ∷ 0
    ∷ 0 ∷ 0 ∷ 0 ∷ 0 ∷ 0 ∷ 0 ∷ 0 ∷ 0 ∷ []

abbrev payload_code : ControlPayload → Bytes
payload_code rejected_request = 0 ∷ []
payload_code accepted_request = 1 ∷ []
payload_code chat_deleted = 2 ∷ []

abbrev payload_of : Bytes → Option ControlPayload
payload_of (n ∷ []) =
    if n == 0
    then some rejected_request
    else if n == 1
    then some accepted_request
    else some chat_deleted
payload_of _ = none

-- A key is its own public key and signs by its number; nothing is encrypted.
abbrev pub plain : Crypto
plain = record {
  verifying_key = λ sk. sk;
  is_point = λ pk. true;
  sign = λ sk msg. sk;
  verify = λ pk msg sig. pk == sig;
  to_montgomery = λ pk. pk;
  sha512 = λ bs. bs;
  static_dh = λ sk pk. [];
  eph_public = λ sk. sk;
  eph_dh = λ sk pk. [];
  hkdf_expand = λ salt ikm info n. some zeros;
  encrypt = λ key nonce msg aad. some msg;
  decrypt = λ key nonce ct aad. some ct;
  blake3 = λ bs. to_be_bytes 16 (from_be_bytes bs % 2 ^ 128);
  uuid_timestamp = λ id. some (1, 0);
  control_to_json = λ p. some (payload_code p);
  control_from_json = payload_of;
}

payload_back : (p : ControlPayload) → payload_of (payload_code p) ≡ some p
payload_back rejected_request = refl
payload_back accepted_request = refl
payload_back chat_deleted = refl

pub plain-CryptoLaws : CryptoLaws plain
plain-CryptoLaws = record {
  verify-sign = λ sk msg. ==_refl sk;
  is_point-verifying_key = λ sk. refl;
  decrypt-encrypt = λ key nonce msg aad ct h. ground (arith, h);
  static_dh_comm = λ a b. refl;
  eph_dh_comm = λ a b. refl;
  from_json-to_json = λ p bs h. ground (arith, h, payload_back p);
}

-- The app has the key 1; a PeerId is the number of its key.
abbrev pub env1 : Env
env1 = record {
  crypto = plain;
  me = 1;
  my_pubkey = 1;
  peer_id_from_y7 = λ y7. some y7;
  y7_id_from_peer_id = λ peer. some peer;
  envelope_to_json = λ e. some [];
  addrs_to_json = λ addrs. none;
  envelope_from_json = λ bs. none;
}

abbrev contact : ℕ → ContactStatus → Contact
contact key status = record {
  y7_id = key;
  ed25519_pub = key;
  nickname = none;
  added_at = key;
  status = status;
}

abbrev session : ℕ → Session
session key = record { peer_y7_id = key; established_at = 0; last_used_at = 0 }

abbrev pub message7 : Message
message7 = record {
  message_id = 7;
  conversation_id = 2;
  sender_pub = 1;
  recipient_pub = 2;
  timestamp_ms = pos 5;
  status = sending;
  payload_enc = [];
  payload_nonce = 0;
  sig = 1;
  inserted_at = 5;
}

abbrev pub entry7 : SyncQueueEntry
entry7 = record { message_id = 7; target_peer_y7_id = 2; attempts = 0; next_retry_at = 0 }

abbrev pub deletion : PendingDelete
deletion = record { peer_y7_id = 2; envelope = []; attempts = 0; next_retry_at = 0 }

abbrev pub request3 : Request
request3 = record {
  id = 1;
  direction = incoming;
  peer_y7_id = 3;
  initial_text = none;
  created_at = 0;
  resolved_at = none;
  resolution = none;
}

-- Peer 2 has a pending_out contact, a session and a message that is queued for it; peer 3 waits for
-- the user's decision; peer 4 is blocked.
abbrev pub db1 : Db
db1 = record {
  contacts = contact 2 pending_out ∷ contact 3 pending_in ∷ contact 4 blocked ∷ [];
  requests = record { rows = request3 ∷ []; last_id = 1 };
  messages = message7 ∷ [];
  sessions = session 2 ∷ session 4 ∷ [];
  sync_queue = entry7 ∷ [];
  pending_deletes = deletion ∷ [];
  peer_state = [];
  settings = none;
}

abbrev pub app1 : App
app1 = record {
  db = db1;
  presences = record {
    connections = [];
    presence = [];
    connection_meta = [];
    transition_ring = [];
  };
  rate_limiter = default_limits;
  nat_status = record { verdict = y7ke.Status.NatReachability.unknown; consecutive_failures = 0 };
  dcutr_attempts = 0;
  dcutr_successes = 0;
  dcutr_failures = 0;
  dcutr_recent_failures = [];
  rl_drops_handshake = 0;
  rl_drops_msg = 0;
  rl_drops_sync = 0;
  woken = false;
  upgrade_backoff = [];
  reconnect_backoff = [];
  syncing = [];
  spawned = [];
  events = [];
  replies = [];
  sent = [];
  asked = [];
}

-- "hi" from the peer of a key, behind the tag of a text.
abbrev pub envelope_from : ℕ → MessageEnvelope
envelope_from key = record {
  message_id = 9;
  sender_pub = key;
  timestamp_ms = pos 6;
  nonce = 0;
  ciphertext = 0 ∷ 104 ∷ 105 ∷ [];
  sig = key;
}

abbrev pub hi : Bytes
hi = 104 ∷ 105 ∷ []

abbrev pub times1 : Times
times1 = record { instant = 10; now = 20 }

abbrev pub hello : HandshakeReq
hello = record {
  initiator_ed25519_pub = 5;
  initiator_eph_x25519_pub = 6;
  sig = 5;
  greeting = some hi;
}
