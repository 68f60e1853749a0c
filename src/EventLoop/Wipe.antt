-- ===== src/EventLoop/Wipe.antt =====
-- `wipe_conversation` of crates/y7ke-app/src/event_loop.rs.
use y7ke.Map
use y7ke.Ident.{Y7Id}
use y7ke.Storage.{wipe_peer}
use y7ke.App.{App, Env, Exec, Done, modify, conversation_with}

unfoldable pub wiped : Env → Y7Id → App → App
wiped env peer s = record s {
  db = wipe_peer s.db peer (conversation_with env peer);
  presences = record (s.presences) {
    presence = Map.remove peer s.presences.presence;
    connections = Map.remove peer s.presences.connections;
    connection_meta = Map.remove peer s.presences.connection_meta;
  };
  upgrade_backoff = Map.remove peer s.upgrade_backoff;
  reconnect_backoff = Map.remove peer s.reconnect_backoff;
}

unfoldable pub wipe_conversation : Env → Y7Id → Exec Done
unfolding wiped
wipe_conversation env peer = modify (wiped env peer)
