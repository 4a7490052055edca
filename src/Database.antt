-- ===== src/Database.antt =====
-- The database of app/db/session/session.py, as the services use it: SQLAlchemy's sessions are a
-- parameter, an interface with the laws that the services rely on. A table is read by its primary
-- key. Every access may raise; before its commit it has changed nothing, after it the row is stored.
pub mod Tables
pub mod Single
use v_machine.Prelude.{
  ℕ, ◌≡◌, ◌≤◌, ◌<◌, ◌⊎◌, String, Bool, true, Option, none, some, List, [], ◌∷◌, All, Listed, length,
  str_eq, if◌then◌else◌,
}
use v_machine.Prelude.Exec.{Result, ok, raise, Exec, pure, throw, ◌>>=◌, ◌>>◌}
use v_machine.Openstack.Server.{Exception, app}

-- select(Model).order_by(Model.column.desc()), with its wheres and its limit
pub record Query (Row : Type 0) : Type 0 where
  pub wheres : List (Row → Bool)
  pub order_by : Row → ℕ
  pub limit : Option ℕ

-- `add` adds the row, commits and refreshes it: the columns with a default are the primary key and the
-- time of creation. `save` commits a changed row and refreshes it. Where the refresh raises, the row is
-- stored.
pub record Database (Row : Type 0) : Type 1 where
  pub State : Type 0
  pub get : String → Exec Exception State (Option Row)
  pub add : (String → ℕ → Row) → Exec Exception State Row
  pub save : String → Row → Exec Exception State Row
  pub delete : String → Exec Exception State (Unit {0})
  pub select : Query Row → Exec Exception State (List Row)

-- `if value: query = query.where(column == value)`, for a text
unfoldable pub where_equal : {Row : Type 0} → (Row → String) → Option String → List (Row → Bool)
where_equal column none = []
where_equal column (some value) =
    if str_eq value "" then [] else (λ r. str_eq (column r) value) ∷ []

-- AppException(message=…, status_code=404, error_code=…)
abbrev pub not_found : String → String → Exception
not_found message code = app message 404 code

module _ {Row : Type 0} where
  unfoldable pub Passes : List (Row → Bool) → Row → Type 0
  Passes [] r = Unit
  Passes (w ∷ ws) r = (w r ≡ true) × Passes ws r

  -- `P` of the row, if there is one
  abbrev pub Holds : (Row → Type 0) → Option Row → Type 0
  Holds P none = Unit
  Holds P (some r) = P r

  -- newest first
  unfoldable pub IsDescending : (Row → ℕ) → List Row → Type 0
  IsDescending key [] = Unit
  IsDescending key (r ∷ rs) = All (λ x. key x ≤ key r) rs × IsDescending key rs

  abbrev pub IsWithin : Option ℕ → List Row → Type 0
  IsWithin none rs = Unit
  IsWithin (some n) rs = length rs ≤ n

  -- a limit that leaves nothing out
  abbrev pub HasRoom : Option ℕ → List Row → Type 0
  HasRoom none rs = Unit
  HasRoom (some n) rs = length rs < n

  -- `session.get` and the guard `if not …: raise`
  unfoldable pub found : (db : Database Row) → Exception → String → Exec Exception db.State Row
  found db missing id = do row ← db.get id; elim row [ none ↦ throw missing | some r ↦ pure r ]

  -- `session.get`, the guard, `session.delete` and the commit
  unfoldable pub delete_found :
      (db : Database Row) → Exception → String → Exec Exception db.State (Unit {0})
  delete_found db missing id = do found db missing id; db.delete id

  module _ (db : Database Row) where
    abbrev pub Held : Type 0
    Held = String → db.State → Option Row

    abbrev pub Same : Held → db.State → db.State → Type 0
    Same held s s' = (k : String) → held k s' ≡ held k s

    -- the entry of `id` is written, and no other
    abbrev pub Written : Held → String → Option Row → db.State → db.State → Type 0
    Written held id row s s' = (k : String) → held k s' ≡ (if str_eq id k then row else held k s)

    abbrev pub Failed : {A : Type 0} → Held → Result Exception A × db.State → db.State → Type 0
    Failed held out s = ((e : Exception) × (out.0 ≡ raise e)) × Same held s out.1

    pub record IsTable : Type 0 where
      pub held : Held
      pub get_cases :
          (id : String) (s : db.State)
          → ((db.get id s).0 ≡ ok (held id s) × Same held s (db.get id s).1)
            ⊎ Failed held (db.get id s) s
      pub add_cases :
          (make : String → ℕ → Row) (s : db.State)
          → ((id : String) × ((now : ℕ) × (((db.add make s).0 ≡ ok (make id now))
                  × (held id s ≡ none × Written held id (some (make id now)) s (db.add make s).1))))
            ⊎ (Failed held (db.add make s) s
                ⊎ (((e : Exception) × ((db.add make s).0 ≡ raise e))
                    × ((id : String) × ((now : ℕ) × (held id s ≡ none
                            × Written held id (some (make id now)) s (db.add make s).1)))))
      pub save_cases :
          (id : String) (row : Row) (s : db.State)
          → ((db.save id row s).0 ≡ ok row × Written held id (some row) s (db.save id row s).1)
            ⊎ (Failed held (db.save id row s) s
                ⊎ (((e : Exception) × ((db.save id row s).0 ≡ raise e))
                    × Written held id (some row) s (db.save id row s).1))
      pub delete_cases :
          (id : String) (s : db.State)
          → ((db.delete id s).0 ≡ ok tt × Written held id none s (db.delete id s).1)
            ⊎ Failed held (db.delete id s) s
      pub select_cases :
          (q : Query Row) (s : db.State)
          → ((rows : List Row) × (((db.select q s).0 ≡ ok rows × Same held s (db.select q s).1)
                × ((All (λ r. ((id : String) × (held id s ≡ some r)) × Passes q.wheres r) rows
                      × (IsDescending q.order_by rows × IsWithin q.limit rows))
                    × (HasRoom q.limit rows
                        → (id : String) (r : Row) → held id s ≡ some r
                        → Passes q.wheres r
                        → Listed r rows))))
            ⊎ Failed held (db.select q s) s
