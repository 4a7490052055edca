-- ===== src/Vmware/Pool/Bounds.antt =====
-- app/clients/vmware/pool.py: the size of the pool.
use v_machine.Prelude.{
  ℕ, ◌∙◌, ◌+◌, ◌≤◌, ◌≡◌, refl, Option, none, some, List, [], ◌∷◌, arith, length, length-append,
}
use v_machine.Vmware.Pool.{
  PooledConnection, Vcenter, ConnectionPool, disconnect_one, expire, find_healthy, least_used,
  search, replace, without, used, eject, disconnect_each, disconnect_all, create_new, Section,
  searched, created, dropped, disconnected_all, enter, interleave,
}

length-without :
    (pc : PooledConnection) (cs : List PooledConnection) → length (without pc cs) ≤ length cs
unfolding without
length-without pc [] = omega arith
length-without pc (c ∷ cs) = ground (arith, length-without pc cs)

length-replace :
    (pc : PooledConnection) (cs : List PooledConnection) → length (replace pc cs) ≡ length cs
unfolding replace
length-replace pc [] = refl
length-replace pc (c ∷ cs) = omega (arith, length-replace pc cs)

expire_size :
    (now : ℕ) (pcs : List PooledConnection) (p : ConnectionPool)
    → (length (expire now pcs p).0 ≤ length pcs)
      × ((expire now pcs p).1.max_pool_size ≡ p.max_pool_size)
unfolding expire disconnect_one
expire_size now [] p = (omega arith, refl)
expire_size now (pc ∷ pcs) p =
    ground (arith, expire_size now pcs (disconnect_one pc p), expire_size now pcs p)

-- the pool that a search leaves, and whether it offers a connection
search_size :
    (now : ℕ) (p : ConnectionPool)
    → let (found, p') = search now p in
      (length p'.pool ≤ length p.pool) × (p'.max_pool_size ≡ p.max_pool_size)
unfolding search find_healthy
search_size now p =
    let e = expire_size now p.pool p in go (expire now p.pool p).0 (expire now p.pool p).1 e
  where
    go :
        (survivors : List PooledConnection) (p' : ConnectionPool)
        → (length survivors ≤ length p.pool) × (p'.max_pool_size ≡ p.max_pool_size)
        → let found : Option PooledConnection = elim survivors [
          | [] ↦ none
          | c ∷ cs ↦ some (least_used c cs)
        ] in
          let left = record p' { pool = survivors } in
          let out : Option PooledConnection × ConnectionPool = elim found [
            | none ↦ (none, left)
            | some pc ↦ (
              some (used now pc),
              record left {
                pool = replace (used now pc) survivors;
                conn_reused = left.conn_reused + 1;
              },
            )
          ] in
          (length out.1.pool ≤ length p.pool) × (out.1.max_pool_size ≡ p.max_pool_size)
    go [] p' h = h
    go (c ∷ cs) p' h =
        (omega (arith, h.0, length-replace (used now (least_used c cs)) (c ∷ cs)), h.1)

disconnect_each_size :
    (pcs : List PooledConnection) (p : ConnectionPool)
    → (disconnect_each pcs p).max_pool_size ≡ p.max_pool_size
unfolding disconnect_each disconnect_one
disconnect_each_size [] p = refl
disconnect_each_size (pc ∷ pcs) p = disconnect_each_size pcs (disconnect_one pc p)

module _ (vcenter : Vcenter) where
  create_new_size :
      (now : ℕ) (p : ConnectionPool)
      → let p' = (create_new vcenter now p).1 in
        (length p.pool ≤ p.max_pool_size → length p'.pool ≤ p.max_pool_size)
        × (p'.max_pool_size ≡ p.max_pool_size)
  unfolding create_new
  create_new_size now p = ground (
    arith,
    length-append p.pool
        (record { id = p.next_id; created_at = now; last_used_at = now; use_count = 1 } ∷ []),
  )

  abbrev pub IsWithin : ℕ → ConnectionPool → Type 0
  IsWithin n p = (p.max_pool_size ≡ n) × (length p.pool ≤ n)

  enter-IsWithin :
      (n : ℕ) (x : Section) (p : ConnectionPool) → IsWithin n p → IsWithin n (enter vcenter x p)
  unfolding enter eject disconnect_one disconnect_all
  enter-IsWithin n (searched now) p h =
      let found = search_size now p in (found.1 ∙ h.0, omega (arith, found.0, h.1))
  enter-IsWithin n (created now) p h =
      let made = create_new_size now p in (made.1 ∙ h.0, ground (arith, made.0, h.0, h.1))
  enter-IsWithin n (dropped pc) p h = (h.0, omega (arith, length-without pc p.pool, h.1))
  enter-IsWithin n disconnected_all p h = (disconnect_each_size p.pool p ∙ h.0, omega arith)

  -- However the sections of several threads interleave, a pool within its size stays so: a connection
  -- that is created when the pool is full is not kept in it. The size itself does not change.
  pub interleave-IsWithin :
      (sections : List Section) (n : ℕ) (p : ConnectionPool)
      → (p.max_pool_size ≡ n) × (length p.pool ≤ n)
      → let p' = interleave vcenter sections p in (p'.max_pool_size ≡ n) × (length p'.pool ≤ n)
  unfolding interleave
  interleave-IsWithin [] n p h = h
  interleave-IsWithin (x ∷ sections) n p h =
      interleave-IsWithin sections n (enter vcenter x p) (enter-IsWithin n x p h)
