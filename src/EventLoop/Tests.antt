-- ===== src/EventLoop/Tests.antt =====
-- Concrete runs of the handlers.
use y7ke.EventLoop.Syncing.Scope.{is_addressed_to}
use y7ke.EventLoop.Contacting.Surfaced.{new_row}
use y7ke.EventLoop.Outbox.{Network}
use y7ke.EventLoop.Dispatch.{msg_received, run_event}
use y7ke.App.{background_error}
use y7ke.EventLoop.Inbox.Gate.{fails}
use y7ke.App.{ack, conversation_with, pull, pulled}
use y7ke.Bytes.{from_be_bytes, to_be_bytes}
use y7ke.EventLoop.Connections.Views.{AllInSync}
use y7ke.EventLoop.Contacting.{handle_handshake, surface}
use y7ke.EventLoop.Contacting.Gate.{handle_handshake-keeps_sessions}
use y7ke.EventLoop.Contacting.Surfaced.{count-surface, count_open}
use y7ke.EventLoop.Dispatch.{dispatch, established}
use y7ke.EventLoop.Dispatch.Views.{dispatch-AllInSync}
use y7ke.EventLoop.Inbox.{deliver, stored}
use y7ke.EventLoop.Inbox.Delivery.{accept_if_out, count_received, deliver-contacts, deliver-once}
use y7ke.EventLoop.Inbox.Gate.{handle_msg-untrusted}
use y7ke.EventLoop.Outbox.{drain_queue_for_peer}
use y7ke.EventLoop.Outbox.Drain.{queued}
use y7ke.EventLoop.Outbox.Emptied.{drain_queue-empties}
use y7ke.EventLoop.Reconcile.{promote_held, pull_loop}
use y7ke.EventLoop.Reconcile.Loop.{Pulled, pull_loop-Pulled}
use y7ke.EventLoop.Reconcile.Settled.{promote_held-settles}
use y7ke.EventLoop.Syncing.{answer, pull_page, to_envelope}
use y7ke.EventLoop.Syncing.Pulls.{answer_complete, has_more_of}
use y7ke.EventLoop.Syncing.Scope.{answer-ack, answer-own, envelopes_of}
use y7ke.Ident.{between}
use y7ke.Messaging.{text}
use y7ke.Prelude.{
  ==_iff, ==_refl, All, Bool, Bool-cases, In, In-of_All, In-sort_by, In-take, In-take_or_drop, List,
  Option, Option-cases, [], any, any-sort_by, ap, arith, drop, false, find, if◌then◌else◌, inl, inr,
  is_none, is_some, leb, length, length-append, length-retain-le, length-sort_by, le→leb, map, min,
  none, not, refl, retain, some, sort_by, subst, suc, sym, take, true, zero, ℕ, ◌%◌, ◌&&◌, ◌++◌,
  ◌+◌, ◌-◌, ◌<◌, ◌==◌, ◌^◌, ◌||◌, ◌∙◌, ◌∷◌, ◌≡◌, ◌≤◌, ◌⊎◌,
}
use y7ke.Samples.{app1, db1, env1, envelope_from, hello, hi, message7, times1}
use y7ke.Status.{as_i64, internet, ok, synced}
use y7ke.Storage.Contacts.{Contact}
use y7ke.Storage.Messages.{
  Message, after, by_id, outbound, promote_outbound_synced, promotes, pull_outbound_after,
}
use y7ke.Storage.Messages.Pages.{wanted}
use y7ke.Storage.Sessions.{Session}
use mathlib.Core.Option
use y7ke.Map
use y7ke.Storage.Contacts
use y7ke.Storage.Messages
use y7ke.Storage.Sessions

abbrev session2 : Session
session2 = record { peer_y7_id = 2; established_at = 0; last_used_at = 0 }

session2-get : Sessions.get app1.db.sessions 2 ≡ some session2
unfolding Sessions.get
session2-get = refl

message7-pulled :
    In (to_envelope message7) (envelopes_of (answer env1 2 (pull 2 none 10) (message7 ∷ [])).0)
unfolding answer pull_page pull_outbound_after between to_be_bytes from_be_bytes
    y7ke.Prelude.Sort.sort_by
message7-pulled = inl refl

message7-wanted : wanted (conversation_with env1 2) env1.my_pubkey none message7 ≡ true
unfolding between to_be_bytes from_be_bytes
message7-wanted = refl

message7-get : Messages.get app1.db.messages 7 ≡ some message7
unfolding Messages.get
message7-get = refl

message7-promotes : promotes (conversation_with env1 2) env1.my_pubkey 8 message7 ≡ true
unfolding between to_be_bytes from_be_bytes as_i64
message7-promotes = refl

app1-AllInSync : AllInSync app1
unfolding Map.get
app1-AllInSync y7 = (refl, refl)

abbrev net_up : Network
net_up peer e = ok true

handle_msg-untrusted_example :
    let s' = run_event env1 net_up times1 (msg_received 9 (envelope_from 2) true) app1 in
    (s'.db ≡ app1.db)
    × (s'.presences ≡ app1.presences)
    × (s'.events ≡ (
        if fails env1 9 (envelope_from 2) times1 app1
        then app1.events ++ background_error ∷ []
        else app1.events))
handle_msg-untrusted_example = handle_msg-untrusted env1 net_up 9 (envelope_from 2) times1 app1 refl

deliver-once_example :
    let s' = (deliver env1 (envelope_from 2) true times1 (text hi) app1).1 in
    let seen = is_some (Messages.get app1.db.messages (envelope_from 2).message_id) in
    (is_some (Messages.get s'.db.messages (envelope_from 2).message_id) ≡ true)
    × (s'.db.messages ≡ (
        if seen
        then app1.db.messages
        else app1.db.messages ++ Messages.new_row (stored env1 (envelope_from 2)) times1.now ∷ []))
    × (count_received (envelope_from 2).message_id s'.events
        ≡ count_received (envelope_from 2).message_id app1.events + (if seen then 0 else 1))
deliver-once_example = deliver-once env1 (envelope_from 2) times1 hi app1

deliver-contacts_example :
    Contacts.get (deliver env1 (envelope_from 2) true times1 (text hi) app1).1.db.contacts 2 ≡ (
      if (envelope_from 2).sender_pub == 2
      then Option.map accept_if_out (Contacts.get app1.db.contacts 2)
      else Contacts.get app1.db.contacts 2)
deliver-contacts_example = deliver-contacts env1 (envelope_from 2) times1 hi 2 app1

handle_handshake-keeps_sessions_example :
    Sessions.get (handle_handshake env1 5 hello true 8 times1 app1).1.db.sessions 2 ≡ some session2
handle_handshake-keeps_sessions_example =
    handle_handshake-keeps_sessions env1 5 hello true 8 times1 app1 2 session2 session2-get

count-surface_example :
    let t' = (surface 5 (some hi) 20 db1).requests in
    (count_open 5 t'.rows
      ≡ (if count_open 5 db1.requests.rows == 0 then 1 else count_open 5 db1.requests.rows))
    × (t'.rows ≡ (
        if count_open 5 db1.requests.rows == 0
        then db1.requests.rows ++ new_row (db1.requests.last_id + 1) 5 (some hi) 20 ∷ []
        else db1.requests.rows))
count-surface_example = count-surface 5 (some hi) 20 db1

answer-own_example :
    (m : Message) × In m (message7 ∷ [])
    × ((to_envelope message7) ≡ to_envelope m)
    × ((m.conversation_id == conversation_with env1 2) ≡ true)
    × ((m.sender_pub == env1.my_pubkey) ≡ true)
answer-own_example =
    answer-own env1 2 (pull 2 none 10) (message7 ∷ []) (to_envelope message7) message7-pulled

message7-own : is_addressed_to env1 2 message7 ≡ true
unfolding between to_be_bytes from_be_bytes
message7-own = refl

answer-ack_example :
    Messages.get (answer env1 2 (ack 2 (7 ∷ [])) app1.db.messages).1 7
    ≡ some (
        if 2 == message7.conversation_id && any (λ i. i == 7) (7 ∷ [])
        then record message7 { status = synced }
        else message7)
answer-ack_example =
    answer-ack env1 2 2 (7 ∷ []) app1.db.messages message7 message7-get message7-own

answer_complete_example :
    In
      (to_envelope message7)
      (envelopes_of (answer env1 2 (pull (conversation_with env1 2) none 10) (message7 ∷ [])).0)
    ⊎ (has_more_of (answer env1 2 (pull (conversation_with env1 2) none 10) (message7 ∷ [])).0
        ≡ true)
answer_complete_example =
    answer_complete env1 2 none 10 (message7 ∷ []) message7 (ground arith) (inl refl)
      message7-wanted

drain_queue-empties_example :
    queued 7 2 (drain_queue_for_peer (λ peer e. ok true) 2 2 false times1 app1).1 ≡ none
drain_queue-empties_example =
    drain_queue-empties (λ peer e. ok true) 2 2 (λ e. refl) times1 app1 7 (ground arith)
      (ground arith)

pull_loop-Pulled_example : Pulled 2 app1 (
    pull_loop 2 env1
      (λ n request. ok (pulled (envelope_from 2 ∷ []) true))
      2
      2
      times1
      1
      none
      []
      app1)
pull_loop-Pulled_example =
    pull_loop-Pulled 2 env1 (λ n request. ok (pulled (envelope_from 2 ∷ []) true)) 2 2 times1 1 none
      [] app1 tt

promote_held-settles_example :
    (Messages.get (promote_held env1 2 (some 8) app1).1.db.messages 7
      ≡ some (record message7 { status = synced }))
    × (queued 7 2 (promote_held env1 2 (some 8) app1).1 ≡ none)
promote_held-settles_example =
    promote_held-settles env1 2 8 7 message7 app1 message7-get message7-promotes

dispatch-AllInSync_example :
    AllInSync (dispatch env1 (λ peer e. ok true) times1 (established 2 7 internet []) app1).1
dispatch-AllInSync_example =
    dispatch-AllInSync env1 (λ peer e. ok true) times1 (established 2 7 internet []) app1
      app1-AllInSync
