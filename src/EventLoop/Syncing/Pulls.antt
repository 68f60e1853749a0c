-- ===== src/EventLoop/Syncing/Pulls.antt =====
-- What a page of a pull leaves out.
use y7ke.Prelude.{
  ℕ, ◌%◌, ◌^◌, ◌<◌, ◌≡◌, Bool, true, false, Option, List, [], ◌∷◌, ◌==◌, arith, In, ◌⊎◌, inl, inr,
  map, length, ==_refl, ap,
}
use y7ke.Ident.{Y7Id, MessageId}
use y7ke.Storage.Messages.{Message, pull_outbound_after}
use y7ke.Storage.Messages.Pages.{wanted, pull_outbound_after_page}
use y7ke.App.{Env, pull, SyncResp, pulled, conversation_with}
use y7ke.EventLoop.Syncing.{answer, pull_page, to_envelope}
use y7ke.EventLoop.Syncing.Scope.{envelopes_of}

abbrev pub has_more_of : SyncResp → Bool
has_more_of (pulled es more) = more
has_more_of _ = false

In-map_of : {A B : Type 0} (f : A → B) (a : A) (xs : List A) → In a xs → In (f a) (map f xs)
In-map_of f a [] h = absurd h
In-map_of f a (x ∷ xs) (inl e) = inl (ap f e)
In-map_of f a (x ∷ xs) (inr h) = inr (In-map_of f a xs h)

full_page : (n limit : ℕ) → limit < 2 ^ 16 → n ≡ limit → (n % 2 ^ 16 == limit) ≡ true
full_page n limit small e = ground arith

-- A requester that asks for its own conversation, with a limit of 16 bits, gets each of the app's
-- messages after `since`, or is told that there is more.
pub answer_complete :
    (env : Env) (requester : Y7Id) (since : Option MessageId) (limit : ℕ) (rows : List Message)
    (m : Message)
    → limit < 2 ^ 16
    → In m rows
    → wanted (conversation_with env requester) env.my_pubkey since m ≡ true
    → In (to_envelope m) (
        envelopes_of
          (answer env requester (pull (conversation_with env requester) since limit) rows).0)
      ⊎ (has_more_of
            (answer env requester (pull (conversation_with env requester) since limit) rows).0
          ≡ true)
unfolding answer pull_page
answer_complete env requester since limit rows m small i w =
    let conv = conversation_with env requester in
    let page = pull_outbound_after rows conv env.my_pubkey since limit in
    rw (==_refl conv) (elim (pull_outbound_after_page rows conv env.my_pubkey since limit m i w).1 [
      | inl h ↦ inl (In-map_of to_envelope m page h)
      | inr (full, older) ↦ inr (full_page (length page) limit small full)
    ])
