-- ===== src/Presence/Cache.antt =====
-- The presence caches are views of the live connections.
use y7ke.Prelude.{
  ◌≡◌, false, Option, none, some, ◌==◌, if◌then◌else◌, arith, ==_refl, Bool-cases, inl, inr,
}
use y7ke.Map
use y7ke.Map.{Map, get-put, get-remove}
use y7ke.Ident.{Y7Id}
use y7ke.Presence.{Presences, ConnectionMeta, refresh_presence, best_of, is_offline}
use y7ke.Status.{ConnectionKind}

-- What the caches hold of a peer whose best connection is given: offline is no entry.
abbrev pub cached_kind : ConnectionKind × ConnectionMeta → Option ConnectionKind
cached_kind (kind, meta) = if is_offline kind then none else some kind

abbrev pub cached_meta : ConnectionKind × ConnectionMeta → Option ConnectionMeta
cached_meta (kind, meta) = if is_offline kind then none else some meta

-- The two caches agree with the connections about a peer.
abbrev pub InSync : Presences → Y7Id → Type 0
InSync p y7 =
    (Map.get y7 p.presence ≡ cached_kind (best_of (Map.get y7 p.connections)))
    × (Map.get y7 p.connection_meta ≡ cached_meta (best_of (Map.get y7 p.connections)))

-- A refresh leaves the connections alone, makes the caches agree about its peer, and says of every
-- other peer what they said.
pub refresh_presence-InSync :
    (p : Presences) (y7 : Y7Id)
    → InSync (refresh_presence p y7).0 y7 × ((refresh_presence p y7).0.connections ≡ p.connections)
unfolding refresh_presence
refresh_presence-InSync p y7 =
    elim (Bool-cases (is_offline (best_of (Map.get y7 p.connections)).0)) [
      | inl e ↦
          ground
            (arith, e, get-remove y7 y7 p.presence, get-remove y7 y7 p.connection_meta, ==_refl y7)
      | inr e ↦
          let (kind, meta) = best_of (Map.get y7 p.connections) in
          ground (
            arith,
            e,
            get-put y7 y7 (best_of (Map.get y7 p.connections)).0 p.presence,
            get-put y7 y7 (best_of (Map.get y7 p.connections)).1 p.connection_meta,
            ==_refl y7,
          )
    ]

pub refresh_presence-other :
    (p : Presences) (y7 other : Y7Id)
    → (y7 == other) ≡ false
    → (Map.get other (refresh_presence p y7).0.presence ≡ Map.get other p.presence)
      × (Map.get other (refresh_presence p y7).0.connection_meta ≡ Map.get other p.connection_meta)
unfolding refresh_presence
refresh_presence-other p y7 other h = ground (
  arith,
  h,
  get-remove y7 other p.presence,
  get-remove y7 other p.connection_meta,
  get-put y7 other (best_of (Map.get y7 p.connections)).0 p.presence,
  get-put y7 other (best_of (Map.get y7 p.connections)).1 p.connection_meta,
)
