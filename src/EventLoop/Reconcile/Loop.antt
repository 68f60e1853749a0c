-- ===== src/EventLoop/Reconcile/Loop.antt =====
-- The loop of pulls: it ends, asks within its bound, and acknowledges only what the table holds.
use y7ke.Prelude.{
  ℕ, zero, suc, ◌+◌, ◌≤◌, ◌≡◌, refl, ◌∙◌, sym, ap, subst, Bool, true, false, Option, List, [], ◌∷◌,
  ◌++◌, if◌then◌else◌, arith, length, length-append,
}
use y7ke.Ident.{Y7Id, MessageId}
use y7ke.Status.{Result, ok, err}
use y7ke.App.{
  App, Env, Exec, PeerId, continue, pure, ◌>>=◌, SyncReq, SyncResp, header_ack, pulled, acked, pull,
  conversation_with,
}
use y7ke.EventLoop.{Times}
use y7ke.EventLoop.Reconcile.{
  SyncNetwork, pull_loop, send_sync, ingest_all, sync_pull_limit, last_id,
}
use y7ke.EventLoop.Reconcile.Ingest.{Held, PageHeld, ingest_all-Held}

-- The loop from `s` ends well, with a list that holds, and asked `pages` times at most.
abbrev pub Pulled : ℕ → App → Result (List MessageId) × App → Type 0
Pulled pages s r =
    (ids : List MessageId) × (r.0 ≡ ok ids)
    × Held r.1 ids
    × (length r.1.asked ≤ length s.asked + pages)
    × (r.1.syncing ≡ s.syncing)

Pulled-after :
    (n : ℕ) (a b : App) (r : Result (List MessageId) × App)
    → length b.asked ≤ length a.asked + 1
    → b.syncing ≡ a.syncing
    → Pulled n b r
    → Pulled (suc n) a r
Pulled-after n a b r le same (ids, e, h, k, g) = (ids, e, h, ground (arith, le, k), g ∙ same)

-- What a page leads to, from the state `s1` in which it came.
page-Pulled :
    (pages : ℕ) (s s1 : App) (r : Result (List MessageId) × App)
    (f : List MessageId → Exec (List MessageId))
    → length s1.asked ≤ length s.asked + 1
    → s1.syncing ≡ s.syncing
    → PageHeld s1 r
    → ((ids : List MessageId) → Held r.1 ids → Pulled pages r.1 (f ids r.1))
    → Pulled (suc pages) s (continue r f)
page-Pulled pages s s1 r f le same (ids, e, h, g) next =
    subst (λ p. Pulled (suc pages) s (continue p f))
      (sym (ap (λ (x : Result (List MessageId)). (x, r.1)) e))
      (Pulled-after pages s r.1 (f ids r.1)
        (subst (λ l. length l ≤ length s.asked + 1) (sym g.asked) le) (g.syncing ∙ same)
        (next ids h))

stop-Pulled : (pages : ℕ) (s : App) (ids : List MessageId) → Held s ids → Pulled pages s (ok ids, s)
stop-Pulled pages s ids h = (ids, refl, h, ground arith, refl)

branch-Pulled :
    (pages : ℕ) (s : App) (ids : List MessageId) (more : Bool) (f : Exec (List MessageId))
    → Held s ids
    → Pulled pages s (f s)
    → Pulled pages s ((if more then f else pure ids) s)
branch-Pulled pages s ids true f h k = k
branch-Pulled pages s ids false f h k = stop-Pulled pages s ids h

-- The pulls of a reconciliation end, whatever the peer answers, after 64 requests at most where the
-- loop has 64 pages, and the ids that are then acknowledged are of messages in the table.
pub pull_loop-Pulled :
    (pages : ℕ) (env : Env) (net : SyncNetwork) (y7 : Y7Id) (peer : PeerId) (t : Times) (n : ℕ)
    (since : Option MessageId) (newly : List MessageId) (s : App)
    → Held s newly
    → Pulled pages s (pull_loop pages env net y7 peer t n since newly s)
unfolding pull_loop send_sync
pull_loop-Pulled zero env net y7 peer t n since newly s h = (newly, refl, h, ground arith, refl)
pull_loop-Pulled (suc pages) env net y7 peer t n since newly s h =
    go (net n request)
      (λ last ids s2 k. pull_loop-Pulled pages env net y7 peer t (n + 1) last ids s2 k)
  where
    request : SyncReq
    request = pull (conversation_with env y7) since sync_pull_limit

    s1 : App
    s1 = record s { asked = s.asked ++ (peer, request) ∷ [] }

    step : Result SyncResp → Exec (List MessageId)
    step resp = elim resp [
      | ok (pulled (e ∷ es) has_more) ↦ ingest_all env y7 t (e ∷ es) newly >>= λ newly'.
          if has_more
          then pull_loop pages env net y7 peer t (n + 1) (last_id (e ∷ es)) newly'
          else pure newly'
      | _ ↦ pure newly
    ]

    one_more : length s1.asked ≤ length s.asked + 1
    one_more = ground (arith, length-append s.asked ((peer, request) ∷ []))

    stopped : Pulled (suc pages) s (ok newly, s1)
    stopped = (newly, refl, h, ground (arith, one_more), refl)

    go :
        (r : Result SyncResp)
        → ((last : Option MessageId) (ids : List MessageId) (s2 : App)
            → Held s2 ids
            → Pulled pages s2 (pull_loop pages env net y7 peer t (n + 1) last ids s2))
        → Pulled (suc pages) s (step r s1)
    go (err x) again = stopped
    go (ok (header_ack ours)) again = stopped
    go (ok acked) again = stopped
    go (ok (pulled [] more)) again = stopped
    go (ok (pulled (e ∷ es) more)) again =
        let page = ingest_all env y7 t (e ∷ es) newly s1 in
        let next = λ (ids : List MessageId).
          pull_loop pages env net y7 peer t (n + 1) (last_id (e ∷ es)) ids in
        page-Pulled pages s s1 page (λ ids. if more then next ids else pure ids) one_more refl
          (ingest_all-Held env y7 t (e ∷ es) newly s1 h)
          λ ids k.
            branch-Pulled pages page.1 ids more (next ids) k (again (last_id (e ∷ es)) ids page.1 k)
