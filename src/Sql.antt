-- ===== src/Sql.antt =====
-- The statements that the storage layer sends to SQLite, on a table given as the list of its rows
-- in the order of their insertion.
pub mod Rows
use y7ke.Prelude.{Bool, not, List, [], ◌∷◌, ◌++◌, if◌then◌else◌, retain, any}

module _ {A : Type 0} where
  -- SELECT ... WHERE p
  abbrev pub select : (A → Bool) → List A → List A
  select p rows = retain p rows

  -- UPDATE ... SET f WHERE p
  unfoldable pub update_where : (A → Bool) → (A → A) → List A → List A
  update_where p f [] = []
  update_where p f (x ∷ xs) = (if p x then f x else x) ∷ update_where p f xs

  -- DELETE ... WHERE p
  unfoldable pub delete_where : (A → Bool) → List A → List A
  delete_where p rows = retain (λ a. not (p a)) rows

  -- INSERT ... ON CONFLICT(key) DO UPDATE SET f, where p tests the key
  unfoldable pub upsert : (A → Bool) → A → (A → A) → List A → List A
  unfolding update_where
  upsert p new f rows = if any p rows then update_where p f rows else rows ++ new ∷ []

  -- INSERT OR IGNORE, where p tests the key
  unfoldable pub insert_or_ignore : (A → Bool) → A → List A → List A
  insert_or_ignore p new rows = if any p rows then rows else rows ++ new ∷ []
