-- ===== src/Database/Single.antt =====
-- A table with room for one row, which shows that the laws of a table can be met.
use mathlib.Core.Path.{subst}
use v_machine.Prelude.{
  ℕ, ◌≡◌, ◌⊎◌, refl, String, Bool, true, ◌&&◌, Option, none, some, List, [], ◌∷◌, All, Listed, here,
  arith, ltb, str_eq, eq_iff, eq_refl, if◌then◌else◌, Bool-cases, inl, inr,
}
use v_machine.Prelude.Exec.{ok, raise}
use v_machine.Openstack.Server.{Exception, sdk_error}
use v_machine.Database.{
  Database, Query, IsTable, Holds, Written, Failed, Passes, IsDescending, IsWithin, HasRoom,
}

abbrev has_place : Option ℕ → Bool
has_place none = true
has_place (some n) = ltb 0 n

abbrev refused : Exception
refused = sdk_error "OperationalError"

module _ (Row : Type 0) where
  abbrev pub Cell : Type 0
  Cell = Option (String × Row)

  abbrev pub held_in : String → Cell → Option Row
  held_in k none = none
  held_in k (some (id, row)) = if str_eq id k then some row else none

  unfoldable pub passes_all : List (Row → Bool) → Row → Bool
  passes_all [] r = true
  passes_all (w ∷ ws) r = w r && passes_all ws r

  abbrev picked : Query Row → Cell → List Row
  picked q none = []
  picked q (some (id, row)) = if passes_all q.wheres row && has_place q.limit then row ∷ [] else []

  abbrev pub single : Database Row
  single = record {
    State = Cell;
    get = λ id s. (ok (held_in id s), s);
    add = λ make s. elim s [
      | none ↦ (ok (make "1" 7), some ("1", make "1" 7))
      | some cell ↦ (raise refused, some cell)
    ];
    save = λ id row s. elim s [
      | none ↦ (raise refused, none)
      | some cell ↦
          if str_eq cell.0 id then (ok row, some (id, row)) else (raise refused, some cell)
    ];
    delete = λ id s. elim s [
      | none ↦ (raise refused, none)
      | some cell ↦ if str_eq cell.0 id then (ok tt, none) else (raise refused, some cell)
    ];
    select = λ q s. (ok (picked q s), s);
  }

  passes_all-Passes : (ws : List (Row → Bool)) (r : Row) → passes_all ws r ≡ true → Passes ws r
  unfolding passes_all Passes
  passes_all-Passes [] r e = tt
  passes_all-Passes (w ∷ ws) r e = elim (Bool-cases (w r)) [
    | inl t ↦ (t, passes_all-Passes ws r (ground (arith, e, t)))
    | inr f ↦ absurd (ground (arith, e, f))
  ]

  Passes-passes_all : (ws : List (Row → Bool)) (r : Row) → Passes ws r → passes_all ws r ≡ true
  unfolding passes_all Passes
  Passes-passes_all [] r p = refl
  Passes-passes_all (w ∷ ws) r p = rw (p.0, Passes-passes_all ws r p.1) refl

  save_law :
      (id : String) (row : Row) (s : Cell)
      → ((single.save id row s).0 ≡ ok row
          × Written single held_in id (some row) s (single.save id row s).1)
        ⊎ Failed single held_in (single.save id row s) s
  save_law id row none = inr ((refused, refl), λ k. refl)
  save_law id row (some cell) = elim (Bool-cases (str_eq cell.0 id)) [
    | inr n ↦ rw n (inr ((refused, refl), λ k. refl))
    | inl e ↦ rw e (inl (refl, λ k. ground (arith, (eq_iff cell.0 id).0 e)))
  ]

  delete_law :
      (id : String) (s : Cell)
      → ((single.delete id s).0 ≡ ok tt × Written single held_in id none s (single.delete id s).1)
        ⊎ Failed single held_in (single.delete id s) s
  delete_law id none = inr ((refused, refl), λ k. refl)
  delete_law id (some cell) = elim (Bool-cases (str_eq cell.0 id)) [
    | inr n ↦ rw n (inr ((refused, refl), λ k. refl))
    | inl e ↦ rw e (inl (refl, λ k. ground (arith, (eq_iff cell.0 id).0 e)))
  ]

  add_law :
      (make : String → ℕ → Row) (s : Cell)
      → ((id : String) × ((now : ℕ) × (((single.add make s).0 ≡ ok (make id now))
              × (held_in id s ≡ none
                  × Written single held_in id (some (make id now)) s (single.add make s).1))))
        ⊎ Failed single held_in (single.add make s) s
  add_law make none = inl ("1", (7, (refl, (refl, λ k. refl))))
  add_law make (some cell) = inr ((refused, refl), λ k. refl)

  abbrev Selected : Query Row → Cell → List Row → Type 0
  Selected q s rows =
      (All (λ r. ((id : String) × (held_in id s ≡ some r)) × Passes q.wheres r) rows
        × (IsDescending q.order_by rows × IsWithin q.limit rows))
      × (HasRoom q.limit rows
          → (id : String) (r : Row) → held_in id s ≡ some r
          → Passes q.wheres r
          → Listed r rows)

  -- of the row that is held, if one is
  held_Holds :
      (P : Row → Type 0) (id : String) (row : Row)
      → P row
      → (k : String) → Holds P (held_in k (some (id, row)))
  held_Holds P id row p k = elim (Bool-cases (str_eq id k)) [ inl e ↦ rw e p | inr e ↦ rw e tt ]

  of_held : (P : Row → Type 0) (o : Option Row) (r : Row) → Holds P o → o ≡ some r → P r
  of_held P o r h e = subst (Holds P) e h

  room_place : (limit : Option ℕ) → HasRoom {Row = Row} limit [] → has_place limit ≡ true
  room_place none h = refl
  room_place (some n) h = ground (arith, h)

  place-IsWithin :
      (limit : Option ℕ) (row : Row) → has_place limit ≡ true → IsWithin limit (row ∷ [])
  place-IsWithin none row h = tt
  place-IsWithin (some n) row h = ground (arith, h)

  empty-IsWithin : (limit : Option ℕ) → IsWithin {Row = Row} limit []
  empty-IsWithin none = tt
  empty-IsWithin (some n) = omega arith

  selected : (q : Query Row) (s : Cell) → Selected q s (picked q s)
  unfolding IsDescending
  selected q none =
      ((tt, (tt, empty-IsWithin q.limit)), λ room id r e p. of_held (λ x. Listed x []) none r tt e)
  selected q (some (id, row)) = elim (Bool-cases (passes_all q.wheres row && has_place q.limit)) [
    | inl e ↦ rw e (
      (
        (((id, rw (eq_refl id) refl), passes_all-Passes q.wheres row (ground (arith, e))), tt),
        ((tt, tt), place-IsWithin q.limit row (ground (arith, e))),
      ),
      λ room k r h p.
          of_held (λ x. Listed x (row ∷ [])) _ r
            (held_Holds (λ x. Listed x (row ∷ [])) id row here k) h,
    )
    | inr e ↦ rw e (
      (tt, (tt, empty-IsWithin q.limit)),
      λ room k r h p.
          of_held (λ x. Passes q.wheres x → Listed x []) _ r
            (held_Holds (λ x. Passes q.wheres x → Listed x []) id row
              (λ ps.
                absurd
                  (ground (arith, e, room_place q.limit room, Passes-passes_all q.wheres row ps)))
              k)
            h p,
    )
  ]

  pub single-IsTable : IsTable single
  single-IsTable = record {
    held = held_in;
    get_cases = λ id s. inl (refl, λ k. refl);
    add_cases = λ make s. elim (add_law make s) [ inl h ↦ inl h | inr h ↦ inr (inl h) ];
    save_cases = λ id row s. elim (save_law id row s) [ inl h ↦ inl h | inr h ↦ inr (inl h) ];
    delete_cases = delete_law;
    select_cases = λ q s. inl (picked q s, ((refl, λ k. refl), selected q s));
  }
