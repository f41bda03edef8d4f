-- ===== src/Database/Rows.antt =====
-- Rows by their key: `session.get`, a change of an object that the session holds, and the newest
-- instance of an application.
use machine_deck.Base.{
  Equality, ltb, if◌then◌else◌, ◌==◌, nat_eq, string_eq, is_some, String, ◌≡◌, Option, none, some,
  List, [], ◌∷◌, ◌++◌, arith,
}
use mathlib.Core.Option
use machine_deck.Database.{ApplicationInstanceRecord}

module _ {ℓ} {K R : Type ℓ} ⦃e : Equality K⦄ (key : R → K) where
  -- `session.get(Model, k)`
  abbrev pub get_row : K → List R → Option R
  get_row k [] = none
  get_row k (r ∷ rows) = if key r == k then some r else get_row k rows

  -- the row whose key is `k` is written anew
  abbrev pub update_row : K → (R → R) → List R → List R
  update_row k f [] = []
  update_row k f (r ∷ rows) = (if key r == k then f r else r) ∷ update_row k f rows

  abbrev pub delete_row : K → List R → List R
  delete_row k [] = []
  delete_row k (r ∷ rows) = let rest = delete_row k rows in if key r == k then rest else r ∷ rest

  -- Reading a row after another was written, or after this one was.
  pub get_row-update_row :
      (j k : K) (f : R → R) (rows : List R)
      → ((r : R) → key r ≡ k → key (f r) ≡ k)
      → get_row j (update_row k f rows)
        ≡ (if k == j then Option.map f (get_row j rows) else get_row j rows)
  get_row-update_row j k f [] keeps = ground arith
  get_row-update_row j k f (r ∷ rows) keeps = ground (
    arith,
    keeps r,
    e.same_iff (key r) k,
    e.same_iff (key r) j,
    e.same_iff k j,
    get_row-update_row j k f rows keeps,
  )

  pub get_row-append :
      (j : K) (rows : List R) (new : R)
      → get_row j (rows ++ new ∷ []) ≡ (
          if is_some (get_row j rows)
          then get_row j rows
          else if key new == j
          then some new
          else none)
  get_row-append j [] new = ground arith
  get_row-append j (r ∷ rows) new = ground (arith, get_row-append j rows new)

  pub get_row-delete_row :
      (j k : K) (rows : List R)
      → get_row j (delete_row k rows) ≡ (if k == j then none else get_row j rows)
  get_row-delete_row j k [] = ground arith
  get_row-delete_row j k (r ∷ rows) = ground (
    arith,
    e.same_iff (key r) k,
    e.same_iff (key r) j,
    e.same_iff k j,
    get_row-delete_row j k rows,
  )

-- `order_by(created_at.desc()).limit(1)` over the instances of an application
unfoldable pub newer :
    Option ApplicationInstanceRecord → ApplicationInstanceRecord → Option ApplicationInstanceRecord
newer none row = some row
newer (some best) row = if ltb best.created_at row.created_at then some row else some best

unfoldable pub newest_from :
    Option ApplicationInstanceRecord
    → String
    → List ApplicationInstanceRecord
    → Option ApplicationInstanceRecord
unfolding newer
newest_from best application_id [] = best
newest_from best application_id (row ∷ rows) =
    newest_from (if row.application_id == application_id then newer best row else best)
      application_id rows

unfoldable pub latest_instance :
    String → List ApplicationInstanceRecord → Option ApplicationInstanceRecord
unfolding newest_from
latest_instance application_id rows = newest_from none application_id rows
