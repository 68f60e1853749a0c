-- ===== src/EventLoop/Dispatch/Views.antt =====
-- The presence caches through every event of the network.
use y7ke.Prelude.{
  ℕ, ◌≡◌, refl, sym, subst, ◌⊎◌, Bool, Option, none, some, List, [], ◌∷◌, ◌==◌, arith, inl, inr,
  Bool-cases,
}
use y7ke.Bytes.{Bytes}
use y7ke.Ident.{Y7Id}
use y7ke.Addr.{Multiaddr}
use y7ke.Status.{Result, ok, err, ConnectionKind}
use y7ke.Crypto.{ControlPayload, rejected_request, accepted_request, chat_deleted}
use y7ke.Storage.Requests.{Request}
use y7ke.Messaging.{MessageEnvelope, PlaintextKind, text, control}
use y7ke.Handshake.{HandshakeReq}
use y7ke.Presence.Cache.{InSync}
use y7ke.App.{App, Env, PeerId, SyncReq, done}
use y7ke.EventLoop.{Times}
use y7ke.EventLoop.Wipe.{wipe_conversation}
use y7ke.EventLoop.Contacting.{handle_handshake, admit_handshake, ensure_incoming_request}
use y7ke.EventLoop.Inbox.{
  handle_msg, admit_msg, deliver, store_message, auto_promote, promote_requests, handle_control,
  open_from,
}
use y7ke.EventLoop.Syncing.{handle_sync, admit_sync, serve}
use y7ke.EventLoop.Nat.{handle_nat_status, tell_verdict}
use y7ke.EventLoop.Outbox.{Network}
use y7ke.EventLoop.Connections.{
  connection_established, connection_upgraded, connection_upgrade_failed, connection_closed,
}
use y7ke.EventLoop.Connections.Views.{
  AllInSync, wiped-InSync, reach-presences, established_by-AllInSync, upgraded_by-AllInSync,
  closed_by-AllInSync,
}
use y7ke.EventLoop.Dispatch.{
  NetEvent, listening, peer_discovered, established, upgraded, upgrade_failed, closed,
  handshake_received, msg_received, sync_received, nat_probe, net_error, dispatch, remember_addrs,
}

ensure-presences :
    (y7 : Y7Id) (greeting : Option Bytes) (t : Times) (s : App)
    → (ensure_incoming_request y7 greeting t s).1.presences ≡ s.presences
unfolding ensure_incoming_request
ensure-presences y7 greeting t s = ground arith

handshake-presences :
    (env : Env) (peer : PeerId) (req : HandshakeReq) (channel : Bool) (eph : ℕ) (t : Times)
    (s : App)
    → (handle_handshake env peer req channel eph t s).1.presences ≡ s.presences
unfolding handle_handshake admit_handshake
handshake-presences env peer req channel eph t s = grind (arith, ensure-presences)

sync-presences :
    (env : Env) (peer : PeerId) (request : SyncReq) (channel : Bool) (t : Times) (s : App)
    → (handle_sync env peer request channel t s).1.presences ≡ s.presences
unfolding handle_sync admit_sync serve
sync-presences env peer request channel t s = ground arith

tell-presences :
    (previous now : y7ke.Status.NatReachability) (s : App)
    → (tell_verdict previous now s).1.presences ≡ s.presences
unfolding tell_verdict
tell-presences previous now s = ground arith

promote-presences :
    (sender : Y7Id) (now : ℕ) (rs : List Request) (s : App)
    → (promote_requests sender now rs s).1.presences ≡ s.presences
unfolding promote_requests
promote-presences sender now [] s = refl
promote-presences sender now (r ∷ rs) s = elim (Bool-cases (r.peer_y7_id == sender)) [
  | inl p ↦ rw p (promote-presences sender now rs _)
  | inr p ↦ rw p (promote-presences sender now rs s)
]

auto-presences :
    (sender : Y7Id) (t : Times) (s : App) → (auto_promote sender t s).1.presences ≡ s.presences
unfolding auto_promote
auto-presences sender t s = grind (arith, promote-presences)

control-AllInSync :
    (env : Env) (sender : Y7Id) (payload : ControlPayload) (t : Times) (s : App)
    → AllInSync s
    → AllInSync (handle_control env sender payload t s).1
unfolding handle_control wipe_conversation
control-AllInSync env sender rejected_request t s h z = h z
control-AllInSync env sender accepted_request t s h z = h z
control-AllInSync env sender chat_deleted t s h z = wiped-InSync env sender z s (h z)

text-presences :
    (env : Env) (e : MessageEnvelope) (channel : Bool) (t : Times) (body : Bytes) (s : App)
    → (deliver env e channel t (text body) s).1.presences ≡ s.presences
unfolding deliver store_message
text-presences env e channel t body s = grind (arith, auto-presences)

control-presences :
    (env : Env) (e : MessageEnvelope) (channel : Bool) (t : Times) (payload : ControlPayload)
    (s : App)
    → (deliver env e channel t (control payload) s).1.presences
      ≡ (handle_control env e.sender_pub payload t s).1.presences
unfolding deliver handle_control wipe_conversation
control-presences env e channel t rejected_request s = ground arith
control-presences env e channel t accepted_request s = ground arith
control-presences env e channel t chat_deleted s = ground arith

deliver-AllInSync :
    (env : Env) (e : MessageEnvelope) (channel : Bool) (t : Times) (kind : PlaintextKind) (s : App)
    → AllInSync s
    → AllInSync (deliver env e channel t kind s).1
deliver-AllInSync env e channel t (text body) s h z =
    subst (λ p. InSync p z) (sym (text-presences env e channel t body s)) (h z)
deliver-AllInSync env e channel t (control payload) s h z =
    subst (λ p. InSync p z) (sym (control-presences env e channel t payload s))
      (control-AllInSync env e.sender_pub payload t s h z)

after_limit : PeerId → Times → App → App
after_limit peer t s = record s {
  rate_limiter = (y7ke.RateLimit.allow_msg s.rate_limiter peer t.instant).0;
}

unopened :
    (env : Env) (peer : PeerId) (e : MessageEnvelope) (channel : Bool) (t : Times) (s : App)
    (x : y7ke.Status.AppError)
    → open_from env e ≡ err x
    → (handle_msg env peer e channel t s).1.presences ≡ s.presences
unfolding handle_msg admit_msg
unopened env peer e channel t s x p = ground (arith, p)

msg-outcome :
    (env : Env) (peer : PeerId) (e : MessageEnvelope) (channel : Bool) (t : Times) (s : App)
    (kind : PlaintextKind)
    → open_from env e ≡ ok kind
    → ((handle_msg env peer e channel t s).1.presences ≡ s.presences)
      ⊎ ((handle_msg env peer e channel t s).1
          ≡ (deliver env e channel t kind (after_limit peer t s)).1)
unfolding handle_msg admit_msg after_limit
msg-outcome env peer e channel t s kind p = ground (arith, p)

msg-AllInSync :
    (env : Env) (peer : PeerId) (e : MessageEnvelope) (channel : Bool) (t : Times) (s : App)
    → AllInSync s
    → AllInSync (handle_msg env peer e channel t s).1
unfolding after_limit
msg-AllInSync env peer e channel t s h z = go (open_from env e) refl
  where
    go :
        (r : Result PlaintextKind)
        → open_from env e ≡ r
        → InSync (handle_msg env peer e channel t s).1.presences z
    go (err x) p = subst (λ q. InSync q z) (sym (unopened env peer e channel t s x p)) (h z)
    go (ok kind) p = elim (msg-outcome env peer e channel t s kind p) [
      | inl q ↦ subst (λ w. InSync w z) (sym q) (h z)
      | inr q ↦
          subst (λ (w : App). InSync w.presences z) (sym q)
            (deliver-AllInSync env e channel t kind (after_limit peer t s) h z)
    ]

remember-presences :
    (env : Env) (y7 : Y7Id) (addrs : List Multiaddr) (now : ℕ) (s : App)
    → ((remember_addrs env y7 addrs now s).0 ≡ ok done)
      × ((remember_addrs env y7 addrs now s).1.presences ≡ s.presences)
unfolding remember_addrs
remember-presences env y7 addrs now s = ground arith

discovered-presences :
    (env : Env) (net : Network) (t : Times) (peer : PeerId) (addrs : List Multiaddr) (y7 : Y7Id)
    (s : App)
    → (dispatch env net t (peer_discovered peer addrs (some y7)) s).1.presences ≡ s.presences
unfolding dispatch
discovered-presences env net t peer addrs y7 s = ground (
  arith,
  remember-presences env y7 addrs t.now s,
  reach-presences env net y7 peer t (remember_addrs env y7 addrs t.now s).1,
)

-- Every event of the network keeps the caches of presence in agreement with the live connections of
-- every peer.
pub dispatch-AllInSync :
    (env : Env) (net : Network) (t : Times) (event : NetEvent) (s : App)
    → AllInSync s
    → AllInSync (dispatch env net t event s).1
unfolding dispatch connection_established connection_upgraded connection_closed handle_nat_status
    connection_upgrade_failed
dispatch-AllInSync env net t listening s h z = h z
dispatch-AllInSync env net t net_error s h z = h z
dispatch-AllInSync env net t (peer_discovered peer addrs none) s h z = h z
dispatch-AllInSync env net t (peer_discovered peer addrs (some y7)) s h z =
    subst (λ p. InSync p z) (sym (discovered-presences env net t peer addrs y7 s)) (h z)
dispatch-AllInSync env net t (established peer id kind addr) s h z =
    established_by-AllInSync (env.y7_id_from_peer_id peer) env net peer id kind addr t s h z
dispatch-AllInSync env net t (upgraded peer id kind) s h z =
    upgraded_by-AllInSync (env.y7_id_from_peer_id peer) net peer id kind t _ h z
dispatch-AllInSync env net t (upgrade_failed peer error) s h z = h z
dispatch-AllInSync env net t (closed peer id) s h z =
    closed_by-AllInSync (env.y7_id_from_peer_id peer) peer id t s h z
dispatch-AllInSync env net t (handshake_received peer req channel eph) s h z =
    subst (λ p. InSync p z) (sym (handshake-presences env peer req channel eph t s)) (h z)
dispatch-AllInSync env net t (msg_received peer e channel) s h z =
    msg-AllInSync env peer e channel t s h z
dispatch-AllInSync env net t (sync_received peer request channel) s h z =
    subst (λ p. InSync p z) (sym (sync-presences env peer request channel t s)) (h z)
dispatch-AllInSync env net t (nat_probe reachable) s h z =
    subst (λ p. InSync p z) (sym (tell-presences _ _ _)) (h z)
