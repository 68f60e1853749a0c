-- ===== src/EventLoop/Syncing/Scope.antt =====
-- What `handle_sync` gives to whom.
use y7ke.Prelude.{
  ℕ, ◌≡◌, refl, ◌∙◌, Bool, true, ◌&&◌, Option, none, some, List, [], ◌∷◌, ◌++◌, ◌==◌, any,
  if◌then◌else◌, arith, In, inl, inr, Bool-cases, Option-cases, In-sort_by, In-take, map, ==_iff,
}
use y7ke.Sql.{update_where}
use y7ke.Sql.Rows.{In-retain}
use y7ke.Ident.{Y7Id, MessageId, ConversationId}
use y7ke.Status.{synced, blocked}
use y7ke.Storage.Contacts
use y7ke.Storage.Messages
use y7ke.Storage.Messages.{Message, by_id, outbound, after, pull_outbound_after}
use y7ke.Storage.Messages.Lookup.{get-update_status, with_status}
use y7ke.Messaging.{MessageEnvelope}
use y7ke.App.{
  App, Env, PeerId, SyncReq, header, pull, ack, SyncResp, pulled, conversation_with, sync_reply,
}
use y7ke.EventLoop.{Times}
use y7ke.EventLoop.Inbox.{has_status}
use y7ke.EventLoop.Syncing.{
  answer, pull_page, confirm, to_envelope, handle_sync, admit_sync, serve, empty_sync_resp_for,
}
use mathlib.Core.Option

abbrev pub envelopes_of : SyncResp → List MessageEnvelope
envelopes_of (pulled es more) = es
envelopes_of _ = []

In-map :
    {A B : Type 0} (f : A → B) (b : B) (xs : List A)
    → In b (map f xs)
    → (a : A) × In a xs × (b ≡ f a)
In-map f b [] h = absurd h
In-map f b (x ∷ xs) (inl e) = (x, inl refl, e)
In-map f b (x ∷ xs) (inr h) = let (a, m, e) = In-map f b xs h in (a, inr m, e)

page-In :
    (rows : List Message) (conv : ConversationId) (sender : ℕ) (since : Option MessageId)
    (limit : ℕ) (m : Message)
    → In m (pull_outbound_after rows conv sender since limit)
    → In m rows × (outbound conv sender m ≡ true)
unfolding pull_outbound_after
page-In rows conv sender since limit m h =
    let (i, w) =
      (In-retain (λ x. outbound conv sender x && after since x.message_id) m rows).0
        ((In-sort_by by_id m _).0 (In-take limit m _ h)) in
    (i, ground (arith, w))

-- Every envelope that a requester gets is a row of the conversation that the app and the requester
-- share, signed by the app.
pub answer-own :
    (env : Env) (requester : Y7Id) (request : SyncReq) (rows : List Message) (e : MessageEnvelope)
    → In e (envelopes_of (answer env requester request rows).0)
    → (m : Message) × In m rows
      × (e ≡ to_envelope m)
      × ((m.conversation_id == conversation_with env requester) ≡ true)
      × ((m.sender_pub == env.my_pubkey) ≡ true)
unfolding answer pull_page
answer-own env requester (header conversations) rows e h = absurd h
answer-own env requester (ack conv ids) rows e h =
    elim (Bool-cases (conversation_with env requester == conv)) [
      | inl p ↦ absurd (rw p at h)
      | inr p ↦ absurd (rw p at h)
    ]
answer-own env requester (pull conv since limit) rows e h =
    elim (Bool-cases (conversation_with env requester == conv)) [
      | inr p ↦ absurd (rw p at h)
      | inl p ↦
          let expected = conversation_with env requester in
          let (m, i, q) = In-map to_envelope e _ (rw p at h) in
          let (j, o) = page-In rows expected env.my_pubkey since limit m i in
          (m, j, q, ground (arith, o), ground (arith, o))
    ]

synced_twice :
    (o : Option Message)
    → Option.map (with_status synced) (Option.map (with_status synced) o)
      ≡ Option.map (with_status synced) o
synced_twice none = refl
synced_twice (some m) = refl

get-confirm :
    (ids : List MessageId) (rows : List Message) (id : MessageId)
    → Messages.get (confirm ids rows) id ≡ (
        if any (λ i. i == id) ids
        then Option.map (with_status synced) (Messages.get rows id)
        else Messages.get rows id)
unfolding confirm
get-confirm [] rows id = refl
get-confirm (i ∷ ids) rows id = ground (
  arith,
  get-confirm ids (Messages.update_status rows i synced) id,
  get-update_status rows i id synced,
  synced_twice (Messages.get rows id),
)

-- A message from the app in the conversation that it shares with a requester.
abbrev pub is_addressed_to : Env → Y7Id → Message → Bool
is_addressed_to env requester m =
    m.conversation_id == conversation_with env requester && m.sender_pub == env.my_pubkey

-- A message of the table that the app sent to the requester is synced after an acknowledgement of
-- their conversation that names it; it is as it was where the acknowledgement does not name it, or is of
-- another conversation.
pub answer-ack :
    (env : Env) (requester : Y7Id) (conv : ConversationId) (ids : List MessageId)
    (rows : List Message) (m : Message)
    → Messages.get rows m.message_id ≡ some m
    → is_addressed_to env requester m ≡ true
    → Messages.get (answer env requester (ack conv ids) rows).1 m.message_id
      ≡ some (
          if conv == m.conversation_id && any (λ i. i == m.message_id) ids
          then record m { status = synced }
          else m)
unfolding answer
answer-ack env requester conv ids rows m e own = ground (
  arith,
  get-confirm ids rows m.message_id,
  e,
  own,
  ==_iff m.conversation_id (conversation_with env requester),
  ==_iff (conversation_with env requester) conv,
  ==_iff conv m.conversation_id,
)

-- A blocked peer gets the empty answer to what it asks, over an open channel, and changes no table.
handle_sync-blocked :
    (env : Env) (peer requester : PeerId) (request : SyncReq) (t : Times) (s : App)
    → env.y7_id_from_peer_id peer ≡ some requester
    → has_status blocked (Contacts.get s.db.contacts requester) ≡ true
    → ((handle_sync env peer request true t s).1.db ≡ s.db)
      × ((handle_sync env peer request true t s).1.replies
          ≡ s.replies ++ sync_reply (empty_sync_resp_for request) ∷ [])
unfolding handle_sync admit_sync
handle_sync-blocked env peer requester request t s p q = ground arith

map-update :
    (rows : List Message) (i : MessageId)
    → map to_envelope (Messages.update_status rows i synced) ≡ map to_envelope rows
unfolding Messages.update_status update_where
map-update [] i = refl
map-update (m ∷ ms) i = ground (arith, map-update ms i)

map-confirm :
    (ids : List MessageId) (rows : List Message)
    → map to_envelope (confirm ids rows) ≡ map to_envelope rows
unfolding confirm
map-confirm [] rows = refl
map-confirm (i ∷ ids) rows =
    map-confirm ids (Messages.update_status rows i synced) ∙ map-update rows i

map-answer :
    (env : Env) (requester : Y7Id) (request : SyncReq) (rows : List Message)
    → map to_envelope (answer env requester request rows).1 ≡ map to_envelope rows
unfolding answer
map-answer env requester (header conversations) rows = refl
map-answer env requester (pull conv since limit) rows = ground arith
map-answer env requester (ack conv ids) rows = ground (arith, map-confirm ids rows)

-- Whoever asks, a request to reconcile changes no table but that of the messages, and those only in
-- their status; it tells the user nothing.
handle_sync-keeps :
    (env : Env) (peer : PeerId) (request : SyncReq) (channel : Bool) (t : Times) (s : App)
    → ((handle_sync env peer request channel t s).1.db
        ≡ record (s.db) { messages = (handle_sync env peer request channel t s).1.db.messages })
      × (map to_envelope (handle_sync env peer request channel t s).1.db.messages
          ≡ map to_envelope s.db.messages)
      × ((handle_sync env peer request channel t s).1.events ≡ s.events)
unfolding handle_sync admit_sync serve
handle_sync-keeps env peer request channel t s = elim (Option-cases (env.y7_id_from_peer_id peer)) [
  | inl p ↦ ground (arith, p)
  | inr (r, p) ↦ ground (arith, p, map-answer env r request s.db.messages)
]
