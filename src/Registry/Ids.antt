-- ===== src/Registry/Ids.antt =====
-- The ids of the applications under sequences of requests to the registry:
-- backend/app/services/applications.py.
use machine_deck.Base.{
  if◌then◌else◌, Option-cases, ◌==◌, nat_eq, string_eq, ◌+◌, String, ◌≡◌, refl, ◌⊎◌, inl, inr, Bool,
  true, false, none, some, List, [], ◌∷◌, ◌++◌, arith, eq_iff,
}
use machine_deck.Status.{status_eq}
use machine_deck.Manifest.{ApplicationManifest}
use machine_deck.Host.{Host}
use machine_deck.Database.{ApplicationRecord}
use machine_deck.Database.Rows.{
  get_row, update_row, delete_row, get_row-update_row, get_row-append, get_row-delete_row,
}
use machine_deck.World.{World, change}
use machine_deck.Lifecycle.{application_key}
use machine_deck.Registry.{
  Requester, new_application, create_application, updated_row, update_application,
  delete_application,
}

-- The ids of the applications are distinct.
abbrev pub AreDistinct : List ApplicationRecord → Type 0
AreDistinct [] = Unit
AreDistinct (row ∷ rows) = (get_row application_key row.id rows ≡ none) × AreDistinct rows

AreDistinct-append :
    (rows : List ApplicationRecord) (new : ApplicationRecord)
    → AreDistinct rows
    → get_row application_key new.id rows ≡ none
    → AreDistinct (rows ++ new ∷ [])
AreDistinct-append [] new d fresh = (refl, tt)
AreDistinct-append (row ∷ rows) new (first, d) fresh = (
  ground (
    arith,
    get_row-append application_key row.id rows new,
    eq_iff new.id row.id,
    eq_iff row.id new.id,
  ),
  AreDistinct-append rows new d (ground (arith, fresh)),
)

AreDistinct-update_row :
    (id : String) (new : ApplicationRecord) (rows : List ApplicationRecord)
    → new.id ≡ id
    → AreDistinct rows
    → AreDistinct (update_row application_key id (λ _. new) rows)
AreDistinct-update_row id new [] same d = tt
AreDistinct-update_row id new (row ∷ rows) same (first, d) = (
  ground (
    arith,
    first,
    same,
    eq_iff row.id id,
    get_row-update_row application_key row.id id (λ _. new) rows (λ _ _. same),
    get_row-update_row application_key id id (λ _. new) rows (λ _ _. same),
  ),
  AreDistinct-update_row id new rows same d,
)

get_row-key :
    (id : String) (rows : List ApplicationRecord) (row : ApplicationRecord)
    → get_row application_key id rows ≡ some row
    → row.id ≡ id
get_row-key id [] row h = ground arith
get_row-key id (r ∷ rows) row h = ground (arith, get_row-key id rows row, eq_iff r.id id)

AreDistinct-if :
    (b : Bool) (row : ApplicationRecord) (rows : List ApplicationRecord)
    → get_row application_key row.id rows ≡ none
    → AreDistinct rows
    → AreDistinct (if b then rows else row ∷ rows)
AreDistinct-if true row rows fresh d = d
AreDistinct-if false row rows fresh d = (fresh, d)

AreDistinct-delete_row :
    (id : String) (rows : List ApplicationRecord)
    → AreDistinct rows
    → AreDistinct (delete_row application_key id rows)
AreDistinct-delete_row id [] d = tt
AreDistinct-delete_row id (row ∷ rows) (first, d) =
    AreDistinct-if (row.id == id) row _
      (ground (arith, first, get_row-delete_row application_key row.id id rows))
      (AreDistinct-delete_row id rows d)

-- The requests that change the registry, and their runs one after another; a refused request is
-- answered with its error, and the next one follows.
pub data RegistryCall : Type 0 where
  create_call : ApplicationManifest → RegistryCall
  update_call : String → ApplicationManifest → RegistryCall
  delete_call : String → RegistryCall

abbrev pub run_call : Host → Requester → RegistryCall → World → World
run_call host who (create_call manifest) w = (create_application host who manifest w).1
run_call host who (update_call id manifest) w = (update_application host who id manifest w).1
run_call host who (delete_call id) w = (delete_application who id w).1

abbrev pub run_calls : Host → Requester → List RegistryCall → World → World
run_calls host who [] w = w
run_calls host who (call ∷ calls) w = run_calls host who calls (run_call host who call w)

-- The ids are distinct, and nothing waits to be committed.
abbrev pub IsConsistent : World → Type 0
IsConsistent w = AreDistinct w.db.applications × (w.saved ≡ w.db)

module _ (host : Host) (who : Requester) where
  create_application-appends :
      (manifest : ApplicationManifest) (w : World)
      → w.saved ≡ w.db
      → let w' = (create_application host who manifest w).1 in
        let new = new_application host manifest (w.clock w.readings) (w.clock (w.readings + 1)) in
        (w'.saved ≡ w'.db)
        × ((w'.db.applications ≡ w.db.applications)
            ⊎ ((w'.db.applications ≡ w.db.applications ++ new ∷ [])
                × (get_row application_key manifest.id w.db.applications ≡ none)))
  unfolding create_application
  create_application-appends manifest w durable = ground arith

  update_application-found :
      (id : String) (manifest : ApplicationManifest) (w : World) (row : ApplicationRecord)
      → w.saved ≡ w.db
      → get_row application_key id w.db.applications ≡ some row
      → let w' = (update_application host who id manifest w).1 in
        let new = updated_row host manifest (w.clock w.readings) row in
        (w'.saved ≡ w'.db)
        × ((w'.db.applications ≡ w.db.applications)
            ⊎ (w'.db.applications ≡ update_row application_key id (λ _. new) w.db.applications))
  unfolding update_application
  update_application-found id manifest w row durable found = ground arith

  update_application-missing :
      (id : String) (manifest : ApplicationManifest) (w : World)
      → get_row application_key id w.db.applications ≡ none
      → (update_application host who id manifest w).1 ≡ w
  unfolding update_application
  update_application-missing id manifest w missing = ground arith

  delete_application-deletes :
      (id : String) (w : World)
      → w.saved ≡ w.db
      → let w' = (delete_application who id w).1 in
        (w'.saved ≡ w'.db)
        × ((w'.db.applications ≡ w.db.applications)
            ⊎ (w'.db.applications ≡ delete_row application_key id w.db.applications))
  unfolding delete_application
  delete_application-deletes id w durable = ground arith

  IsConsistent-create_application :
      (manifest : ApplicationManifest) (w : World)
      → IsConsistent w
      → IsConsistent (create_application host who manifest w).1
  unfolding new_application
  IsConsistent-create_application manifest w (d, durable) =
      let (durable', change) = create_application-appends manifest w durable in
      (
        elim change [
          | inl same ↦ rw same d
          | inr (appended, fresh) ↦ rw appended (AreDistinct-append w.db.applications _ d fresh)
        ],
        durable',
      )

  IsConsistent-update_application :
      (id : String) (manifest : ApplicationManifest) (w : World)
      → IsConsistent w
      → IsConsistent (update_application host who id manifest w).1
  unfolding updated_row
  IsConsistent-update_application id manifest w (d, durable) =
      elim (Option-cases (get_row application_key id w.db.applications)) [
        | inl missing ↦ rw (update_application-missing id manifest w missing) (d, durable)
        | inr (row, found) ↦
            let (durable', change) = update_application-found id manifest w row durable found in
            (
              elim change [
                | inl same ↦ rw same d
                | inr written ↦ rw written (
                    AreDistinct-update_row id _ w.db.applications
                      (get_row-key id w.db.applications row found) d)
              ],
              durable',
            )
      ]

  IsConsistent-delete_application :
      (id : String) (w : World) → IsConsistent w → IsConsistent (delete_application who id w).1
  IsConsistent-delete_application id w (d, durable) =
      let (durable', change) = delete_application-deletes id w durable in
      (
        elim change [
          | inl same ↦ rw same d
          | inr deleted ↦ rw deleted (AreDistinct-delete_row id w.db.applications d)
        ],
        durable',
      )

  -- From a registry with distinct ids and nothing left to commit, any sequence of requests, refused
  -- ones included, leads to such a registry.
  pub run_calls-IsConsistent :
      (calls : List RegistryCall) (w : World)
      → IsConsistent w
      → IsConsistent (run_calls host who calls w)
  run_calls-IsConsistent [] w c = c
  run_calls-IsConsistent (create_call manifest ∷ calls) w c =
      run_calls-IsConsistent calls _ (IsConsistent-create_application manifest w c)
  run_calls-IsConsistent (update_call id manifest ∷ calls) w c =
      run_calls-IsConsistent calls _ (IsConsistent-update_application id manifest w c)
  run_calls-IsConsistent (delete_call id ∷ calls) w c =
      run_calls-IsConsistent calls _ (IsConsistent-delete_application id w c)
