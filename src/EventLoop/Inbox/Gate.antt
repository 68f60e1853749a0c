-- ===== src/EventLoop/Inbox/Gate.antt =====
-- Who may reach the app through `handle_msg`.
use y7ke.Prelude.{
  ◌≡◌, Bool, true, false, not, ◌&&◌, Option, none, some, ◌==◌, is_some, is_none, leb, ◌||◌, ◌++◌,
  [], ◌∷◌, if◌then◌else◌, ◌+◌, length, arith,
}
use y7ke.Status.{Result, ok, err, blocked}
use y7ke.Storage.Contacts
use y7ke.Storage.Sessions
use y7ke.Messaging.{MessageEnvelope}
use y7ke.EventLoop.Outbox.{Network}
use y7ke.EventLoop.Dispatch.{dispatch, msg_received, run_event}
use y7ke.RateLimit.{allow_msg}
use y7ke.App.{App, background_error, Env, PeerId, max_message_bytes}
use y7ke.EventLoop.{Times}
use y7ke.EventLoop.Inbox.{handle_msg, admit_msg, open_from, has_status}

abbrev is_ok : {A : Type 0} → Result A → Bool
is_ok (ok a) = true
is_ok (err e) = false

abbrev bound_to : Option PeerId → PeerId → Bool
bound_to none peer = false
bound_to (some p) peer = p == peer

-- The sender is who the connection authenticated, has a session, is not blocked, and sealed the
-- envelope for this app.
abbrev pub trusted : Env → PeerId → MessageEnvelope → App → Bool
trusted env peer e s =
    bound_to (env.peer_id_from_y7 e.sender_pub) peer
    && is_some (Sessions.get s.db.sessions e.sender_pub)
    && not (has_status blocked (Contacts.get s.db.contacts e.sender_pub))
    && is_ok (open_from env e)
    && leb (length e.ciphertext) (max_message_bytes + 256)

-- The envelope is admitted and of the authenticated peer's session with no block, yet does not open;
-- or the sender's key has no PeerId.
abbrev pub fails : Env → PeerId → MessageEnvelope → Times → App → Bool
fails env peer e t s =
    (allow_msg s.rate_limiter peer t.instant).1
    && leb (length e.ciphertext) (max_message_bytes + 256)
    && (is_none (env.peer_id_from_y7 e.sender_pub)
        || (bound_to (env.peer_id_from_y7 e.sender_pub) peer
            && is_some (Sessions.get s.db.sessions e.sender_pub)
            && not (has_status blocked (Contacts.get s.db.contacts e.sender_pub))
            && not (is_ok (open_from env e))))

-- An envelope that is not of the authenticated peer, of a peer without a session, of a blocked
-- contact, too long or not openable, and whose response channel is open, changes no table and no
-- presence. The user is told one background error where an admitted envelope's sender has no PeerId, or
-- where it passes the other tests and does not open, and else nothing: to send again without a session
-- or from a blocked contact tells nothing.
pub handle_msg-untrusted :
    (env : Env) (net : Network) (peer : PeerId) (e : MessageEnvelope) (t : Times) (s : App)
    → trusted env peer e s ≡ false
    → let s' = run_event env net t (msg_received peer e true) s in
      (s'.db ≡ s.db)
      × (s'.presences ≡ s.presences)
      × (s'.events ≡ (if fails env peer e t s then s.events ++ background_error ∷ [] else s.events))
unfolding run_event dispatch handle_msg admit_msg
handle_msg-untrusted env net peer e t s p = ground arith
