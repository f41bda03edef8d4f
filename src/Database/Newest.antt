-- ===== src/Database/Newest.antt =====
-- The newest instance of an application, among the rows of its table.
use machine_deck.Base.{
  if◌then◌else◌, ◌==◌, nat_beq_iff, nat_eq, string_eq, is_some, All, ℕ, ◌≤◌, String, ◌≡◌, ◌⊎◌, inl,
  inr, true, Option, none, some, List, [], ◌∷◌, arith, eq_iff,
}
use machine_deck.Database.{ApplicationInstanceRecord}
use machine_deck.Database.Rows.{get_row, newer, newest_from, latest_instance}

abbrev pub instance_key : ApplicationInstanceRecord → ℕ
instance_key row = row.id

newest_from-row :
    (best : Option ApplicationInstanceRecord) (application_id : String)
    (rows : List ApplicationInstanceRecord) {s : ApplicationInstanceRecord}
    → newest_from best application_id rows ≡ some s
    → (best ≡ some s)
      ⊎ ((s.application_id ≡ application_id) × (is_some (get_row instance_key s.id rows) ≡ true))
unfolding newest_from
newest_from-row best application_id [] h = inl h
newest_from-row best application_id (row ∷ rows) {s} h = ground (
  arith,
  newest_from-row (if row.application_id == application_id then newer best row else best)
      application_id rows h,
  eq_iff row.application_id application_id,
  nat_beq_iff row.id s.id,
)

pub latest_instance-row :
    (application_id : String) (rows : List ApplicationInstanceRecord)
    {s : ApplicationInstanceRecord}
    → latest_instance application_id rows ≡ some s
    → (s.application_id ≡ application_id) × (is_some (get_row instance_key s.id rows) ≡ true)
unfolding latest_instance
latest_instance-row application_id rows h = elim (newest_from-row none application_id rows h) [
  | inl e ↦ cc
  | inr found ↦ found
]

abbrev pub NotNewer : String → ApplicationInstanceRecord → List ApplicationInstanceRecord → Type 0
NotNewer application_id s =
    All (λ row. row.application_id ≡ application_id → row.created_at ≤ s.created_at)

abbrev instant : Option ApplicationInstanceRecord → ℕ
instant none = 0
instant (some row) = row.created_at

newest_from-NotNewer :
    (best : Option ApplicationInstanceRecord) (application_id : String)
    (rows : List ApplicationInstanceRecord) {s : ApplicationInstanceRecord}
    → newest_from best application_id rows ≡ some s
    → (instant best ≤ s.created_at) × NotNewer application_id s rows
unfolding newest_from newer
newest_from-NotNewer best application_id [] h = (ground arith, tt)
newest_from-NotNewer best application_id (row ∷ rows) {s} h =
    let (before, after) =
      newest_from-NotNewer (if row.application_id == application_id then newer best row else best)
        application_id rows h in
    (ground arith, ((λ same. ground (arith, eq_iff row.application_id application_id)), after))

-- The state that a request reads is a row of its application, and no row of the application was
-- created after it.
pub latest_instance-NotNewer :
    (application_id : String) (rows : List ApplicationInstanceRecord)
    {s : ApplicationInstanceRecord}
    → latest_instance application_id rows ≡ some s
    → (s.application_id ≡ application_id) × NotNewer application_id s rows
unfolding latest_instance
latest_instance-NotNewer application_id rows h = (
  (latest_instance-row application_id rows h).0,
  (newest_from-NotNewer none application_id rows h).1,
)
