-- ===== src/EventLoop/Reconcile/Ingest.antt =====
-- What the envelopes of a page do to the table.
use y7ke.Prelude.{
  ℕ, ◌≡◌, refl, ◌∙◌, sym, ap, subst, Bool, true, false, ◌||◌, List, [], ◌∷◌, ◌++◌, ◌==◌, is_some,
  if◌then◌else◌, arith, ==_refl, ==_iff, All,
}
use y7ke.Sql.{insert_or_ignore}
use y7ke.Sql.Rows.{any-find, find-append}
use y7ke.Ident.{Y7Id, MessageId}
use y7ke.Status.{Result, ok, err}
use y7ke.Storage.Messages
use y7ke.Storage.Messages.{Message}
use y7ke.Messaging.{MessageEnvelope, PlaintextKind, text, control}
use y7ke.App.{App, Env, Exec, continue}
use y7ke.EventLoop.{Times}
use y7ke.EventLoop.Inbox.{store_message, stored, open_from}
use y7ke.EventLoop.Reconcile.{ingest_kind, ingest_synced_envelope, ingest_all, attempt, or_false}

-- Whether the message is in the table.
abbrev pub holds : App → MessageId → Bool
holds s id = is_some (Messages.get s.db.messages id)

abbrev pub Held : App → List MessageId → Type 0
Held s ids = All (λ id. holds s id ≡ true) ids

-- What an ingestion leaves alone: the messages stay, and so do the requests made and the guards.
pub record Grows (s s' : App) : Type 0 where
  pub messages : (id : MessageId) → holds s id ≡ true → holds s' id ≡ true
  pub asked : s'.asked ≡ s.asked
  pub syncing : s'.syncing ≡ s.syncing

pub Grows-refl : (s : App) → Grows s s
Grows-refl s = record { messages = λ id h. h; asked = refl; syncing = refl }

Grows-trans : (a b c : App) → Grows a b → Grows b c → Grows a c
Grows-trans a b c f g = record {
  messages = λ id h. g.messages id (f.messages id h);
  asked = g.asked ∙ f.asked;
  syncing = g.syncing ∙ f.syncing;
}

pub Held-Grows : (s s' : App) (ids : List MessageId) → Grows s s' → Held s ids → Held s' ids
Held-Grows s s' [] g h = h
Held-Grows s s' (id ∷ ids) g (h, hs) = (g.messages id h, Held-Grows s s' ids g hs)

holds-insert :
    (rows : List Message) (m : Messages.NewMessage) (now : ℕ) (id : MessageId)
    → is_some (Messages.get (Messages.insert rows m now).0 id)
      ≡ is_some (Messages.get rows id) || m.message_id == id
unfolding Messages.get Messages.insert insert_or_ignore
holds-insert rows m now id = ground (
  arith,
  any-find (Messages.has_id m.message_id) rows,
  find-append (Messages.has_id id) rows (Messages.new_row m now ∷ []),
  ==_iff m.message_id id,
)

kind-Grows :
    (env : Env) (e : MessageEnvelope) (t : Times) (kind : PlaintextKind) (s : App) (id : MessageId)
    → let s' = (ingest_kind env e t kind s).1 in
      (holds s id ≡ true → holds s' id ≡ true)
      × ((ingest_kind env e t kind s).0 ≡ ok true → holds s' e.message_id ≡ true)
      × (s'.asked ≡ s.asked)
      × (s'.syncing ≡ s.syncing)
unfolding ingest_kind store_message
kind-Grows env e t (control payload) s id = ground arith
kind-Grows env e t (text body) s id = ground (
  arith,
  holds-insert s.db.messages (stored env e) t.now id,
  holds-insert s.db.messages (stored env e) t.now e.message_id,
  ==_refl e.message_id,
)

envelope-Grows :
    (env : Env) (peer : Y7Id) (e : MessageEnvelope) (t : Times) (s : App) (id : MessageId)
    → let s' = (ingest_synced_envelope env peer e t s).1 in
      (holds s id ≡ true → holds s' id ≡ true)
      × ((ingest_synced_envelope env peer e t s).0 ≡ ok true → holds s' e.message_id ≡ true)
      × (s'.asked ≡ s.asked)
      × (s'.syncing ≡ s.syncing)
unfolding ingest_synced_envelope
envelope-Grows env peer e t s id = go (open_from env e) refl
  where
    go :
        (r : Result PlaintextKind)
        → open_from env e ≡ r
        → (holds s id ≡ true → holds (ingest_synced_envelope env peer e t s).1 id ≡ true)
          × ((ingest_synced_envelope env peer e t s).0 ≡ ok true
              → holds (ingest_synced_envelope env peer e t s).1 e.message_id ≡ true)
          × ((ingest_synced_envelope env peer e t s).1.asked ≡ s.asked)
          × ((ingest_synced_envelope env peer e t s).1.syncing ≡ s.syncing)
    go (err x) p = ground (arith, p)
    go (ok kind) p = ground (arith, p, kind-Grows env e t kind s id)

-- The attempt at an envelope, whatever becomes of it.
attempt-Grows :
    (env : Env) (peer : Y7Id) (e : MessageEnvelope) (t : Times) (s : App)
    → Grows s (attempt (ingest_synced_envelope env peer e t) s).1
attempt-Grows env peer e t s = record {
  messages = λ id h. ground (arith, h, envelope-Grows env peer e t s id);
  asked = ground (arith, envelope-Grows env peer e t s 0);
  syncing = ground (arith, envelope-Grows env peer e t s 0);
}

attempt-new :
    (env : Env) (peer : Y7Id) (e : MessageEnvelope) (t : Times) (s : App)
    → (attempt (ingest_synced_envelope env peer e t) s).0 ≡ ok true
    → holds (attempt (ingest_synced_envelope env peer e t) s).1 e.message_id ≡ true
attempt-new env peer e t s h = ground (arith, h, envelope-Grows env peer e t s 0)

attempt-ok :
    (env : Env) (peer : Y7Id) (e : MessageEnvelope) (t : Times) (s : App)
    → (b : Bool) × ((attempt (ingest_synced_envelope env peer e t) s).0 ≡ ok b)
attempt-ok env peer e t s = go (ingest_synced_envelope env peer e t s)
  where
    go : (r : Result Bool × App) → (b : Bool) × ((or_false r).0 ≡ ok b)
    go (ok b, s') = (b, refl)
    go (err x, s') = (false, refl)

Held-append :
    (s : App) (ids : List MessageId) (id : MessageId)
    → Held s ids
    → holds s id ≡ true
    → Held s (ids ++ id ∷ [])
Held-append s [] id h k = (k, tt)
Held-append s (i ∷ ids) id (h, hs) k = (h, Held-append s ids id hs k)

-- A page from `s` with a list that holds: it ends well, with a list that holds.
abbrev pub PageHeld : App → Result (List MessageId) × App → Type 0
PageHeld s r = (ids : List MessageId) × (r.0 ≡ ok ids) × Held r.1 ids × Grows s r.1

PageHeld-after :
    (a b : App) (r : Result (List MessageId) × App) → Grows a b → PageHeld b r → PageHeld a r
PageHeld-after a b r g (ids, e, h, k) = (ids, e, h, Grows-trans a b r.1 g k)

-- The page ends well, and the ids that it adds are of messages in the table.
pub ingest_all-Held :
    (env : Env) (peer : Y7Id) (t : Times) (es : List MessageEnvelope) (newly : List MessageId)
    (s : App)
    → Held s newly
    → PageHeld s (ingest_all env peer t es newly s)
unfolding ingest_all
ingest_all-Held env peer t [] newly s h = (newly, refl, h, Grows-refl s)
ingest_all-Held env peer t (e ∷ es) newly s h =
    let (b, ends) = attempt-ok env peer e t s in
    subst (λ p. PageHeld s (continue p (rest newly))) (sym (ap (λ r. (r, s1)) ends))
      (go b ends (λ ids k. ingest_all-Held env peer t es ids s1 k))
  where
    s1 : App
    s1 = (attempt (ingest_synced_envelope env peer e t) s).1

    rest : List MessageId → Bool → Exec (List MessageId)
    rest ids inserted =
        ingest_all env peer t es (if inserted then ids ++ e.message_id ∷ [] else ids)

    grown : Grows s s1
    grown = attempt-Grows env peer e t s

    go :
        (b : Bool)
        → ((attempt (ingest_synced_envelope env peer e t) s).0 ≡ ok b)
        → ((ids : List MessageId) → Held s1 ids → PageHeld s1 (ingest_all env peer t es ids s1))
        → PageHeld s (continue (ok b, s1) (rest newly))
    go true k again = PageHeld-after s s1 _ grown (
        again (newly ++ e.message_id ∷ []) (
          Held-append s1 newly e.message_id (Held-Grows s s1 newly grown h)
            (attempt-new env peer e t s k)))
    go false k again = PageHeld-after s s1 _ grown (again newly (Held-Grows s s1 newly grown h))
