-- ===== src/Vmware/Pool/Choice.antt =====
-- app/clients/vmware/pool.py: which connection `acquire` returns, and what an ejection leaves.
use mathlib.Core.Path.{subst}
use v_machine.Prelude.{
  ℕ, ◌≤◌, ◌≡◌, ◌==◌, refl, sym, String, false, Option, none, some, List, [], ◌∷◌, ◌++◌, arith, ltb,
  All, Bool-cases, inl, inr,
}
use v_machine.Prelude.Exec.{Result, ok, raise}
use v_machine.Vmware.Pool.{
  PooledConnection, Vcenter, ConnectionPool, is_expired, disconnect_one, expire, least_used,
  find_healthy, without, acquire, eject, connection, body_error,
}

expire_fresh :
    (now : ℕ) (pcs : List PooledConnection) (p : ConnectionPool)
    → All (λ c. is_expired p.session_ttl now c ≡ false) (expire now pcs p).0
unfolding expire disconnect_one
expire_fresh now [] p = tt
expire_fresh now (pc ∷ pcs) p = elim (Bool-cases (is_expired p.session_ttl now pc)) [
  | inl late ↦ rw (late, expire) (expire_fresh now pcs (disconnect_one pc p))
  | inr fresh ↦ rw (fresh, expire) (fresh, expire_fresh now pcs p)
]

abbrev Smallest : PooledConnection → List PooledConnection → PooledConnection → Type 0
Smallest best cs m = (m.use_count ≤ best.use_count) × All (λ c. m.use_count ≤ c.use_count) cs

least_used-Smallest :
    (best : PooledConnection) (cs : List PooledConnection) → Smallest best cs (least_used best cs)
unfolding least_used
least_used-Smallest best [] = (omega arith, tt)
least_used-Smallest best (c ∷ cs) = elim (Bool-cases (ltb c.use_count best.use_count)) [
  | inl smaller ↦
      let e : least_used best (c ∷ cs) ≡ least_used c cs = rw (smaller, least_used) refl in
      let (p, q) = least_used-Smallest c cs in
      subst (Smallest best (c ∷ cs)) (sym e) (ground (arith, p, smaller), (p, q))
  | inr same ↦
      let e : least_used best (c ∷ cs) ≡ least_used best cs = rw (same, least_used) refl in
      let (p, q) = least_used-Smallest best cs in
      subst (Smallest best (c ∷ cs)) (sym e) (p, (ground (arith, p, same), q))
]

least_used-All :
    (P : PooledConnection → Type 0) (best : PooledConnection) (cs : List PooledConnection)
    → P best
    → All P cs
    → P (least_used best cs)
unfolding least_used
least_used-All P best [] h hs = h
least_used-All P best (c ∷ cs) h hs = elim (Bool-cases (ltb c.use_count best.use_count)) [
  | inl smaller ↦ rw (smaller, least_used) (least_used-All P c cs hs.0 hs.1)
  | inr same ↦ rw (same, least_used) (least_used-All P best cs h hs.1)
]

-- Where the pool offers a connection, its session has not expired, and no connection that stays in
-- the pool has been used less.
pub find_healthy_lem :
    (now : ℕ) (p : ConnectionPool) (pc : PooledConnection)
    → (find_healthy now p).0 ≡ some pc
    → (is_expired p.session_ttl now pc ≡ false)
      × All (λ c. pc.use_count ≤ c.use_count) (find_healthy now p).1.pool
unfolding find_healthy
find_healthy_lem now p pc h = go (expire now p.pool p).0 (expire_fresh now p.pool p) h
  where
    go :
        (survivors : List PooledConnection)
        → All (λ c. is_expired p.session_ttl now c ≡ false) survivors
        → (elim survivors as (λ x. Option PooledConnection) [
          | [] ↦ none
          | c ∷ cs ↦ some (least_used c cs)
        ])
          ≡ some pc
        → (is_expired p.session_ttl now pc ≡ false)
          × All (λ c. pc.use_count ≤ c.use_count) survivors
    go [] fresh e = absurd cc
    go (c ∷ cs) fresh e =
        let same : least_used c cs ≡ pc = cc in
        subst (λ m. (is_expired p.session_ttl now m ≡ false) × Smallest c cs m) same
          (
            least_used-All (λ x. is_expired p.session_ttl now x ≡ false) c cs fresh.0 fresh.1,
            least_used-Smallest c cs,
          )

without-All :
    (pc : PooledConnection) (cs : List PooledConnection)
    → All (λ c. (c.id == pc.id) ≡ false) (without pc cs)
unfolding without
without-All pc [] = tt
without-All pc (c ∷ cs) = elim (Bool-cases (c.id == pc.id)) [
  | inl same ↦ rw (same, without) (without-All pc cs)
  | inr other ↦ rw (other, without) (other, without-All pc cs)
]

-- Where the body of a `with` raises after it was given a connection, the caller gets that exception,
-- the connection is no longer in the pool, and it is the last that was disconnected.
pub connection_ejects :
    {A : Type 0} (vcenter : Vcenter) (body : PooledConnection → Result String A) (now : ℕ)
    (p : ConnectionPool) (pc : PooledConnection) (message : String)
    → (acquire vcenter now p).0 ≡ ok pc
    → body pc ≡ raise message
    → let out = connection vcenter body now p in
      (out.0 ≡ raise (body_error message))
      × All (λ c. (c.id == pc.id) ≡ false) out.1.pool
      × (out.1.disconnected ≡ (acquire vcenter now p).1.disconnected ++ pc.id ∷ [])
unfolding connection eject disconnect_one
connection_ejects vcenter body now p pc message h b =
    let after = eject pc (acquire vcenter now p).1 in
    let e : connection vcenter body now p ≡ (raise (body_error message), after) =
      rw (h, b, connection) refl in
    let gone = without-All pc (acquire vcenter now p).1.pool in
    subst
      (λ out.
        (out.0 ≡ raise (body_error message))
        × All (λ c. (c.id == pc.id) ≡ false) out.1.pool
        × (out.1.disconnected ≡ (acquire vcenter now p).1.disconnected ++ pc.id ∷ []))
      (sym e) (refl, gone, refl)
