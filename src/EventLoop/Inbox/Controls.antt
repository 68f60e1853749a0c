-- ===== src/EventLoop/Inbox/Controls.antt =====
-- The control payloads: what `handle_control` leaves of the sender's requests and contact.
use y7ke.Prelude.{
  ℕ, ◌≡◌, refl, ap, Bool, true, false, ◌&&◌, none, some, List, [], ◌∷◌, ◌==◌, any, if◌then◌else◌,
  arith, In, inl, inr, Bool-cases, ==_refl, In-sort_by,
}
use y7ke.Sql.{update_where}
use y7ke.Sql.Rows.{In-retain}
use y7ke.Ident.{Y7Id}
use y7ke.Status.{RequestResolution}
use y7ke.Storage.{Db}
use y7ke.Storage.Requests
use y7ke.Storage.Requests.{Request, is_pending, open_with_id}
use y7ke.App.{ignore}
use y7ke.EventLoop.Inbox.{resolve_from, resolve_pending}

In-update_where :
    {A : Type 0} (p : A → Bool) (f : A → A) (a : A) (xs : List A)
    → In a (update_where p f xs)
    → (x : A) × In x xs × (a ≡ (if p x then f x else x))
unfolding update_where
In-update_where p f a [] h = absurd h
In-update_where p f a (x ∷ xs) (inl e) = (x, inl refl, e)
In-update_where p f a (x ∷ xs) (inr h) = let (y, m, e) = In-update_where p f a xs h in (y, inr m, e)

any-In :
    {A : Type 0} (p : A → Bool) (a : A) (xs : List A) → any p xs ≡ false → In a xs → p a ≡ false
any-In p a [] q h = absurd h
any-In p a (x ∷ xs) q h = ground (arith, any-In p a xs)

stays_open :
    (t : Requests.Requests) (id : ℕ) (how : RequestResolution) (now : ℕ) (r : Request)
    → is_pending r ≡ true
    → In r (ignore t (Requests.resolve t id how now)).rows
    → In r t.rows × ((r.id == id) ≡ false)
unfolding Requests.resolve
stays_open t id how now r p h = elim (Bool-cases (any (open_with_id id) t.rows)) [
  | inl q ↦
      let (x, m, e) =
        In-update_where (open_with_id id)
          (λ x. record x { resolved_at = some now; resolution = some how }) r t.rows (rw q at h) in
      ground (arith, p, m, e)
  | inr q ↦ ground (arith, p, q, h, any-In (open_with_id id) r t.rows)
]

stays_open_all :
    (peer : Y7Id) (how : RequestResolution) (now : ℕ) (rs : List Request) (t : Requests.Requests)
    (r : Request)
    → is_pending r ≡ true
    → r.peer_y7_id ≡ peer
    → In r (resolve_from peer how now rs t).rows
    → In r t.rows × (In r rs → ⊥)
unfolding resolve_from
stays_open_all peer how now [] t r p q h = (h, λ m. m)
stays_open_all peer how now (x ∷ rs) t r p q h = elim (Bool-cases (x.peer_y7_id == peer)) [
  | inl e ↦
      let (m, out) =
        stays_open_all peer how now rs (ignore t (Requests.resolve t x.id how now)) r p q
          (rw e at h) in
      let (m', ne) = stays_open t x.id how now r p m in
      (
        m',
        λ k. elim k [
          | inl same ↦ ground (arith, ne, ap (λ (a : Request). a.id) same, ==_refl r.id)
          | inr k' ↦ out k'
        ],
      )
  | inr e ↦
      let (m, out) = stays_open_all peer how now rs t r p q (rw e at h) in
      (
        m,
        λ k. elim k [
          | inl same ↦ ground (arith, e, q, ap (λ (a : Request). a.peer_y7_id) same, ==_refl peer)
          | inr k' ↦ out k'
        ],
      )
]

-- When a peer rejects or accepts, no request with it stays pending, in either direction.
resolve_pending-settles :
    (peer : Y7Id) (how : RequestResolution) (now : ℕ) (db : Db) (r : Request)
    → In r (resolve_pending peer how now db).requests.rows
    → r.peer_y7_id ≡ peer
    → is_pending r ≡ false
unfolding resolve_pending Requests.list_pending
resolve_pending-settles peer how now db r h q = elim (Bool-cases (is_pending r)) [
  | inr p ↦ p
  | inl p ↦
      let (m, out) =
        stays_open_all peer how now (Requests.list_pending db.requests none) db.requests r p q h in
      absurd (
        out (
          (In-sort_by (λ (x : Request). x.created_at) r _).1 (
            (In-retain (λ x. is_pending x && Requests.matches_direction none x) r
                db.requests.rows).1
              (m, ground (arith, p)))))
]
