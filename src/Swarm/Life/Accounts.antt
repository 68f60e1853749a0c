-- ===== src/Swarm/Life/Accounts.antt =====
-- The channels on which callers wait, and what answers them.
use y7ke.Swarm.{
  Answer, Slot, TaskState, addrs_answer, addrs_of, answer, handshake_answer, msg_answer,
  sync_answer,
}
use y7ke.Swarm.Events.{
  answer_handshake, answer_msg, answer_sync, end_query, give_up, resolve_found, resolve_known,
  resolve_progress, tell_finder,
}
use y7ke.Addr.{Multiaddr}
use y7ke.App.{PeerId, SyncResp}
use y7ke.Map
use y7ke.Map.{remove-IsKeyed}
use y7ke.Status.{Result, ok}
use y7ke.Handshake.{HandshakeResp}
use y7ke.Prelude.{
  Bool, Bool-cases, List, Option, Option-cases, [], any, arith, false, if◌then◌else◌, inl, inr,
  none, refl, some, true, ℕ, ◌++◌, ◌+◌, ◌==◌, ◌∷◌, ◌≡◌,
}

abbrev pub hit : Slot → Slot → ℕ
hit slot s = if s == slot then 1 else 0

-- The requests and queries that will answer a channel.
abbrev pub waiting : Slot → TaskState → ℕ
waiting slot t =
    Map.weigh (hit slot) t.pending_handshake
    + Map.weigh (hit slot) t.pending_msg
    + Map.weigh (hit slot) t.pending_sync
    + Map.weigh (λ p. hit slot p.1) t.pending_find_peer

abbrev pub tally : Slot → List (Slot × Answer) → ℕ
tally slot [] = 0
tally slot ((s, a) ∷ answers) = hit slot s + tally slot answers

-- The answers that a channel has had.
abbrev pub answered : Slot → TaskState → ℕ
answered slot t = tally slot t.answers

abbrev pub accounted : Slot → TaskState → ℕ
accounted slot t = waiting slot t + answered slot t

pub record IsKeyedTask (t : TaskState) : Type 0 where
  pub handshake : Map.IsKeyed t.pending_handshake
  pub msg : Map.IsKeyed t.pending_msg
  pub sync : Map.IsKeyed t.pending_sync
  pub find : Map.IsKeyed t.pending_find_peer

pub tally-snoc :
    (slot s : Slot) (a : Answer) (answers : List (Slot × Answer))
    → tally slot (answers ++ (s, a) ∷ []) ≡ tally slot answers + hit slot s
tally-snoc slot s a [] = omega arith
tally-snoc slot s a ((r, b) ∷ answers) = omega (arith, tally-snoc slot s a answers)

-- What an operation does to the accounts of a channel.
abbrev pub Accounts : TaskState → TaskState → Slot → ℕ → Type 0
Accounts t u slot n = IsKeyedTask u × (accounted slot u ≡ accounted slot t + n)

-- Two states with the same requests, queries and answers.
pub record SamePending (t u : TaskState) : Type 0 where
  pub handshake : u.pending_handshake ≡ t.pending_handshake
  pub msg : u.pending_msg ≡ t.pending_msg
  pub sync : u.pending_sync ≡ t.pending_sync
  pub find : u.pending_find_peer ≡ t.pending_find_peer
  pub answers : u.answers ≡ t.answers

pub kept-Accounts :
    (slot : Slot) (t u : TaskState) → IsKeyedTask t → SamePending t u → Accounts t u slot 0
kept-Accounts slot t u k s = (
  record {
    handshake = rw s.handshake k.handshake;
    msg = rw s.msg k.msg;
    sync = rw s.sync k.sync;
    find = rw s.find k.find;
  },
  rw (s.handshake, s.msg, s.sync, s.find, s.answers) (omega arith),
)

pub answer-Accounts :
    (slot s : Slot) (a : Answer) (t u : TaskState)
    → IsKeyedTask t
    → SamePending t u
    → Accounts t (answer s a u) slot (hit slot s)
answer-Accounts slot s a t u k p =
    let (keyed, same) = kept-Accounts slot t u k p in
    (
      record { handshake = keyed.handshake; msg = keyed.msg; sync = keyed.sync; find = keyed.find },
      omega (arith, same, tally-snoc slot s a u.answers),
    )

pub answer_handshake-Accounts :
    (slot : Slot) (id : ℕ) (r : Result HandshakeResp) (t : TaskState)
    → IsKeyedTask t
    → Accounts t (answer_handshake (Map.get id t.pending_handshake) id r t) slot 0
answer_handshake-Accounts slot id r t k =
    let removed = Map.weigh-remove (hit slot) id t.pending_handshake k.handshake in
    elim (Option-cases (Map.get id t.pending_handshake)) [
      | inl e ↦ rw e (kept-Accounts slot t t k (ground arith))
      | inr (s, e) ↦ rw e (
        record {
          handshake = remove-IsKeyed id t.pending_handshake k.handshake;
          msg = k.msg;
          sync = k.sync;
          find = k.find;
        },
        omega (arith, rw e at removed, tally-snoc slot s (handshake_answer r) t.answers),
      )
    ]

pub answer_msg-Accounts :
    (slot : Slot) (id : ℕ) (r : Result Bool) (t : TaskState)
    → IsKeyedTask t
    → Accounts t (answer_msg (Map.get id t.pending_msg) id r t) slot 0
answer_msg-Accounts slot id r t k =
    let removed = Map.weigh-remove (hit slot) id t.pending_msg k.msg in
    elim (Option-cases (Map.get id t.pending_msg)) [
      | inl e ↦ rw e (kept-Accounts slot t t k (ground arith))
      | inr (s, e) ↦ rw e (
        record {
          handshake = k.handshake;
          msg = remove-IsKeyed id t.pending_msg k.msg;
          sync = k.sync;
          find = k.find;
        },
        omega (arith, rw e at removed, tally-snoc slot s (msg_answer r) t.answers),
      )
    ]

pub answer_sync-Accounts :
    (slot : Slot) (id : ℕ) (r : Result SyncResp) (t : TaskState)
    → IsKeyedTask t
    → Accounts t (answer_sync (Map.get id t.pending_sync) id r t) slot 0
answer_sync-Accounts slot id r t k =
    let removed = Map.weigh-remove (hit slot) id t.pending_sync k.sync in
    elim (Option-cases (Map.get id t.pending_sync)) [
      | inl e ↦ rw e (kept-Accounts slot t t k (ground arith))
      | inr (s, e) ↦ rw e (
        record {
          handshake = k.handshake;
          msg = k.msg;
          sync = remove-IsKeyed id t.pending_sync k.sync;
          find = k.find;
        },
        omega (arith, rw e at removed, tally-snoc slot s (sync_answer r) t.answers),
      )
    ]

pub tell_finder-Accounts :
    (slot : Slot) (a : Answer) (id : ℕ) (target : PeerId) (s : Slot) (t : TaskState)
    → IsKeyedTask t
    → Map.get id t.pending_find_peer ≡ some (target, s)
    → Accounts t (tell_finder a id s t) slot 0
tell_finder-Accounts slot a id target s t k e =
    let removed = Map.weigh-remove (λ p. hit slot p.1) id t.pending_find_peer k.find in
    (
      record {
        handshake = k.handshake;
        msg = k.msg;
        sync = k.sync;
        find = remove-IsKeyed id t.pending_find_peer k.find;
      },
      omega (arith, rw e at removed, tally-snoc slot s a t.answers),
    )

pub resolve_known-Accounts :
    (slot : Slot) (addrs : List Multiaddr) (id : ℕ) (target : PeerId) (s : Slot) (t : TaskState)
    → IsKeyedTask t
    → Map.get id t.pending_find_peer ≡ some (target, s)
    → Accounts t (resolve_known addrs id s t) slot 0
resolve_known-Accounts slot [] id target s t k e = kept-Accounts slot t t k (ground arith)
resolve_known-Accounts slot (a ∷ addrs) id target s t k e =
    tell_finder-Accounts slot (addrs_answer (ok (a ∷ addrs))) id target s t k e

pub resolve_found-Accounts :
    (slot : Slot) (found : Option (PeerId × Slot)) (id : ℕ) (providers : List PeerId)
    (t : TaskState)
    → IsKeyedTask t
    → Map.get id t.pending_find_peer ≡ found
    → Accounts t (resolve_found found id providers t) slot 0
resolve_found-Accounts slot none id providers t k e = kept-Accounts slot t t k (ground arith)
resolve_found-Accounts slot (some (target, s)) id providers t k e =
    let addrs = addrs_of target t.address_book in
    elim (Bool-cases (any (λ p. p == target) providers)) [
      | inl c ↦ rw c (resolve_known-Accounts slot addrs id target s t k e)
      | inr c ↦ rw c (kept-Accounts slot t t k (ground arith))
    ]

pub resolve_progress-Accounts :
    (slot : Slot) (found : Option (List PeerId)) (id : ℕ) (t : TaskState)
    → IsKeyedTask t
    → Accounts t (resolve_progress found id t) slot 0
unfolding resolve_progress
resolve_progress-Accounts slot none id t k = kept-Accounts slot t t k (ground arith)
resolve_progress-Accounts slot (some providers) id t k =
    resolve_found-Accounts slot (Map.get id t.pending_find_peer) id providers t k refl

pub give_up-Accounts :
    (slot : Slot) (found : Option (PeerId × Slot)) (id : ℕ) (t : TaskState)
    → IsKeyedTask t
    → Map.get id t.pending_find_peer ≡ found
    → Accounts t (give_up found id t) slot 0
give_up-Accounts slot none id t k e = kept-Accounts slot t t k (ground arith)
give_up-Accounts slot (some (target, s)) id t k e = tell_finder-Accounts slot _ id target s t k e

pub end_query-Accounts :
    (slot : Slot) (last : Bool) (id : ℕ) (t : TaskState)
    → IsKeyedTask t
    → Accounts t (end_query last id t) slot 0
unfolding end_query
end_query-Accounts slot true id t k =
    give_up-Accounts slot (Map.get id t.pending_find_peer) id t k refl
end_query-Accounts slot false id t k = kept-Accounts slot t t k (ground arith)
