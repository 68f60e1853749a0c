-- ===== src/EventLoop/Reconcile/Settled.antt =====
-- What a peer's digest settles.
use y7ke.Prelude.{
  ◌≡◌, refl, ◌∙◌, Bool, true, none, some, List, [], ◌∷◌, ◌==◌, any, if◌then◌else◌, arith, find, map,
  retain, ==_refl,
}
use y7ke.Sql.{update_where}
use y7ke.Sql.Rows.{find-update_where}
use y7ke.Ident.{Y7Id, MessageId}
use y7ke.Status.{synced}
use y7ke.Storage.Messages
use y7ke.Storage.Messages.{Message, by_id, promotes, promote_outbound_synced}
use y7ke.App.{App, Env, conversation_with}
use y7ke.EventLoop.Outbox.Drain.{queued, queued-remove}
use y7ke.EventLoop.Reconcile.{promote_held, settle_all}

settle_all-queue :
    (peer : Y7Id) (id : MessageId) (ids : List MessageId) (s : App)
    → (queued id peer (settle_all peer ids s).1
        ≡ (if any (λ i. i == id) ids then none else queued id peer s))
      × ((settle_all peer ids s).1.db.messages ≡ s.db.messages)
unfolding settle_all
settle_all-queue peer id [] s = (refl, refl)
settle_all-queue peer id (i ∷ ids) s =
    let (q, m) = settle_all-queue peer id ids _ in
    (q ∙ ground (arith, queued-remove s.db.sync_queue i id peer peer, ==_refl peer), m)

any-ids :
    (p : Message → Bool) (id : MessageId) (m : Message) (rows : List Message)
    → find (Messages.has_id id) rows ≡ some m
    → p m ≡ true
    → any (λ i. i == id) (map by_id (retain p rows)) ≡ true
any-ids p id m [] h k = ground (arith, h)
any-ids p id m (x ∷ xs) h k = ground (arith, h, k, any-ids p id m xs)

-- When a peer reports the newest message that it has received from the app, each message to it up to
-- that one which was not synced is synced and leaves the queue, whether or not the peer has it.
pub promote_held-settles :
    (env : Env) (peer : Y7Id) (bound id : MessageId) (m : Message) (s : App)
    → Messages.get s.db.messages id ≡ some m
    → promotes (conversation_with env peer) env.my_pubkey bound m ≡ true
    → (Messages.get (promote_held env peer (some bound) s).1.db.messages id
        ≡ some (record m { status = synced }))
      × (queued id peer (promote_held env peer (some bound) s).1 ≡ none)
unfolding promote_held promote_outbound_synced Messages.get
promote_held-settles env peer bound id m s h k =
    let p = promotes (conversation_with env peer) env.my_pubkey bound in
    let ids = map by_id (retain p s.db.messages) in
    let s1 : App = record s {
      db = record (s.db) {
        messages = update_where p (λ x. record x { status = synced }) s.db.messages;
      };
    } in
    ground (
      arith,
      h,
      k,
      settle_all-queue peer id ids s1,
      any-ids p id m s.db.messages h k,
      find-update_where (Messages.has_id id) p (λ x. record x { status = synced }) s.db.messages
          (λ a. refl),
    )
