-- ===== src/Database/Tables.antt =====
-- What holds of every row of a table stays so, whatever the accesses, if it holds of what is written.
use mathlib.Core.Path.{subst}
use v_machine.Prelude.{
  ℕ, sym, String, Bool, true, false, Option, none, some, str_eq, if◌then◌else◌, inl, inr, List, [],
  ◌∷◌, map, All, All-imp,
}
use v_machine.Prelude.Exec.{Exec, pure, throw, ◌>>=◌}
use v_machine.Prelude.Hoare.{Triple, bind-Triple}
use v_machine.Openstack.Server.{Exception}
use v_machine.Database.{Database, Query, IsTable, Held, Holds, Same, Written, found}

module _ {Row : Type 0} (db : Database Row) (P : Row → Type 0) where
  abbrev pub Everywhere : Held db → db.State → Type 0
  Everywhere held s = (k : String) → Holds P (held k s)

  pub Same-Everywhere :
      (held : Held db) (s s' : db.State)
      → Same db held s s'
      → Everywhere held s
      → Everywhere held s'
  Same-Everywhere held s s' same h k = subst (Holds P) (sym (same k)) (h k)

  pub Written-Everywhere :
      (held : Held db) (id : String) (o : Option Row) (s s' : db.State)
      → Written db held id o s s'
      → Holds P o
      → Everywhere held s
      → Everywhere held s'
  Written-Everywhere held id o s s' w p h k = subst (Holds P) (sym (w k)) (choose (str_eq id k))
    where
      choose : (b : Bool) → Holds P (if b then o else held k s)
      choose true = p
      choose false = h k

  module _ (table : IsTable db) where
    abbrev pub Kept : db.State → Type 0
    Kept = Everywhere table.held

    -- an access that keeps the condition, and whose result meets `Q`
    abbrev pub Keeps : {A : Type 0} → Exec Exception db.State A → (A → Type 0) → Type 0
    Keeps m Q = Triple Kept m (λ a s. Q a × Kept s) Kept

    pub get_keeps : (id : String) → Keeps (db.get id) (Holds P)
    get_keeps id = record {
      after = λ s h. elim (table.get_cases id s) [
        | inl (e, same) ↦ rw e (h id, Same-Everywhere table.held s _ same h)
        | inr ((x, e), same) ↦ rw e (Same-Everywhere table.held s _ same h)
      ];
    }

    pub add_keeps :
        (make : String → ℕ → Row)
        → ((id : String) (now : ℕ) → P (make id now))
        → Keeps (db.add make) P
    add_keeps make p = record {
      after = λ s h. elim (table.add_cases make s) [
        | inl (id, (now, (e, (new, w)))) ↦
            rw e
              (p id now, Written-Everywhere table.held id (some (make id now)) s _ w (p id now) h)
        | inr (inl ((x, e), same)) ↦ rw e (Same-Everywhere table.held s _ same h)
        | inr (inr ((x, e), (id, (now, (new, w))))) ↦
            rw e (Written-Everywhere table.held id (some (make id now)) s _ w (p id now) h)
      ];
    }

    pub save_keeps : (id : String) (row : Row) → P row → Keeps (db.save id row) P
    save_keeps id row p = record {
      after = λ s h. elim (table.save_cases id row s) [
        | inl (e, w) ↦ rw e (p, Written-Everywhere table.held id (some row) s _ w p h)
        | inr (inl ((x, e), same)) ↦ rw e (Same-Everywhere table.held s _ same h)
        | inr (inr ((x, e), w)) ↦ rw e (Written-Everywhere table.held id (some row) s _ w p h)
      ];
    }

    pub found_keeps : (missing : Exception) (id : String) → Keeps (found db missing id) P
    unfolding found
    found_keeps missing id = bind-Triple (db.get id) _ (get_keeps id) guarded
      where
        guarded :
            (o : Option Row)
            → Triple
                (λ s. Holds P o × Kept s)
                (elim o [ none ↦ throw missing | some r ↦ pure r ])
                (λ r s. P r × Kept s)
                Kept
        guarded none = record { after = λ s h. h.1 }
        guarded (some r) = record { after = λ s h. h }

    pub select_keeps : (q : Query Row) → Keeps (db.select q) (All P)
    select_keeps q = record {
      after = λ s h. elim (table.select_cases q s) [
        | inl (rows, ((e, same), (what, complete))) ↦ rw e (
          All-imp _ P (λ r. λ hr. subst (Holds P) hr.0.1 (h hr.0.0)) rows what.0,
          Same-Everywhere table.held s _ same h,
        )
        | inr ((x, e), same) ↦ rw e (Same-Everywhere table.held s _ same h)
      ];
    }

    -- the methods of a service: an access, and the serialiser
    module _ {B : Type 0} (serialize : Row → B) (Q : B → Type 0)
        (serialized : (r : Row) → P r → Q (serialize r)) where
      last :
          (r : Row)
          → Triple
              (λ s. P r × Kept s)
              (pure {E = Exception} (serialize r))
              (λ b s. Q b × Kept s)
              Kept
      last r = record { after = λ s h. (serialized r h.0, h.1) }

      pub create_keeps :
          (make : String → ℕ → Row)
          → ((id : String) (now : ℕ) → P (make id now))
          → Keeps (db.add make >>= λ r. pure (serialize r)) Q
      create_keeps make p =
          bind-Triple (db.add make) (λ r. pure (serialize r)) (add_keeps make p) last

      pub read_keeps :
          (missing : Exception) (id : String)
          → Keeps (found db missing id >>= λ r. pure (serialize r)) Q
      read_keeps missing id =
          bind-Triple (found db missing id) (λ r. pure (serialize r)) (found_keeps missing id) last

      pub update_keeps :
          (missing : Exception) (id : String) (change : Row → Row)
          → ((r : Row) → P r → P (change r))
          → Keeps (found db missing id >>= λ r. db.save id (change r) >>= λ t. pure (serialize t)) Q
      update_keeps missing id change p =
          bind-Triple (found db missing id) (λ r. db.save id (change r) >>= λ t. pure (serialize t))
            (found_keeps missing id)
            (λ r.
              bind-Triple (db.save id (change r)) (λ t. pure (serialize t))
                (record { after = λ s h. (save_keeps id (change r) (p r h.0)).after s h.1 }) last)

      serialized-All : (rs : List Row) → All P rs → All Q (map serialize rs)
      serialized-All [] h = tt
      serialized-All (r ∷ rs) h = (serialized r h.0, serialized-All rs h.1)

      pub list_keeps :
          (q : Query Row) → Keeps (db.select q >>= λ rs. pure (map serialize rs)) (All Q)
      list_keeps q =
          bind-Triple (db.select q) (λ rs. pure (map serialize rs)) (select_keeps q)
            (λ rs. record { after = λ s h. (serialized-All rs h.0, h.1) })
