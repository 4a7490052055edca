-- ===== src/Cache/Keys.antt =====
-- app/common/utils/cache.py: a cache holds each key once.
use v_machine.Prelude.{
  ℕ, ◌≡◌, refl, String, none, some, List, [], ◌∷◌, arith, str_eq, eq_iff, Bool-cases, inl, inr,
}
use v_machine.Prelude.Dict.{Dict, lookup, insert, remove, lookup-insert, lookup-remove}
use v_machine.Cache.{
  Entry, TtlCache, is_expired, get, set, set_ttl, delete, clear, invalidate_all, expired_keys,
  delete_all, evict_expired,
}

abbrev pub IsUnique : {V : Type 0} → Dict V → Type 0
IsUnique [] = Unit
IsUnique ((k, v) ∷ d) = (lookup k d ≡ none) × IsUnique d

module _ {V : Type 0} where
  pub insert-IsUnique : (k : String) (v : V) (d : Dict V) → IsUnique d → IsUnique (insert k v d)
  unfolding insert lookup
  insert-IsUnique k v [] h = (refl, tt)
  insert-IsUnique k v ((j, w) ∷ d) h = elim (Bool-cases (str_eq j k)) [
    | inl e ↦ rw (e, insert) (ground (arith, eq_iff j k), h.1)
    | inr n ↦
        rw (n, insert)
          (ground (arith, lookup-insert k j v d, eq_iff j k, eq_iff k j), insert-IsUnique k v d h.1)
  ]

  pub remove-IsUnique : (k : String) (d : Dict V) → IsUnique d → IsUnique (remove k d)
  unfolding remove
  remove-IsUnique k [] h = tt
  remove-IsUnique k ((j, w) ∷ d) h = elim (Bool-cases (str_eq j k)) [
    | inl e ↦ rw (e, remove) (remove-IsUnique k d h.1)
    | inr n ↦
        rw (n, remove)
          (ground (arith, lookup-remove k j d, eq_iff j k, eq_iff k j), remove-IsUnique k d h.1)
  ]

  pub remove-absent : (k : String) (d : Dict V) → lookup k d ≡ none → remove k d ≡ d
  unfolding remove lookup
  remove-absent k [] h = refl
  remove-absent k ((j, w) ∷ d) h = ground (arith, remove-absent k d)

module _ {T : Type 0} where
  delete_all-IsUnique :
      (ks : List String) (d : Dict (Entry T)) → IsUnique d → IsUnique (delete_all ks d)
  unfolding delete_all
  delete_all-IsUnique [] d h = h
  delete_all-IsUnique (k ∷ ks) d h = delete_all-IsUnique ks (remove k d) (remove-IsUnique k d h)

  abbrev pub HasUniqueKeys : TtlCache T → Type 0
  HasUniqueKeys c = IsUnique c.store

  get-IsUnique :
      (key : String) (now : ℕ) (c : TtlCache T) → HasUniqueKeys c → HasUniqueKeys (get key now c).1
  unfolding get
  get-IsUnique key now c h =
      elim (lookup key c.store) as (λ o. lookup key c.store ≡ o → HasUniqueKeys (get key now c).1) [
        | none ↦ λ e. rw (e, get) h
        | some entry ↦ λ e. elim (Bool-cases (is_expired now entry)) [
          | inl late ↦ rw (e, late, get) (remove-IsUnique key c.store h)
          | inr fresh ↦ rw (e, fresh, get) h
        ]
      ]
        refl

  -- Every operation of the cache keeps its keys distinct.
  pub operations-HasUniqueKeys :
      (key : String) (value : T) (ttl_seconds now : ℕ) (c : TtlCache T)
      → HasUniqueKeys c
      → HasUniqueKeys (get key now c).1
        × HasUniqueKeys (set key value now c)
        × HasUniqueKeys (set_ttl key value ttl_seconds now c)
        × HasUniqueKeys (delete key c)
        × HasUniqueKeys (clear c)
        × HasUniqueKeys (invalidate_all c)
        × HasUniqueKeys (evict_expired now c).1
  unfolding set set_ttl delete clear invalidate_all evict_expired
  operations-HasUniqueKeys key value ttl_seconds now c h = (
    get-IsUnique key now c h,
    insert-IsUnique key _ c.store h,
    insert-IsUnique key _ c.store h,
    remove-IsUnique key c.store h,
    tt,
    tt,
    delete_all-IsUnique (expired_keys now c.store) c.store h,
  )
