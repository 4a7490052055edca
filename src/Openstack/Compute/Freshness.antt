-- ===== src/Openstack/Compute/Freshness.antt =====
-- app/services/openstack/compute_service.py: the listing of servers after the methods that drop it.
use mathlib.Core.Path.{subst}
use v_machine.Prelude.{ℕ, ◌≡◌, refl, sym, ◌∙◌, String, none, List, ◌⊎◌, inl, inr}
use v_machine.Prelude.Exec.{Result}
use v_machine.Prelude.Hoare.{Ended, weaken}
use v_machine.Cache.Backend.{Backend, IsCache, read}
use v_machine.Openstack.Server.{Exception}
use v_machine.Openstack.Calls.{ComputeCall, ComputeSdk, ComputeWorld}
use v_machine.Openstack.Summary.{Item, ServerCreateRequest}
use v_machine.Openstack.Cached.{cache_get}
use v_machine.Openstack.Compute.{
  fetch_servers, list_servers, create_server, delete_server, attach_volume, detach_volume,
}
use v_machine.Openstack.Compute.Methods.{
  create_server_Triple, delete_server_Triple, attach_volume_Triple, detach_volume_Triple,
}

module _ (sdk : ComputeSdk) (cache : Backend (List Item)) (list_limit : ℕ) where
  -- the world after a read of the cached servers
  abbrev pub looked : ComputeWorld cache.State → ComputeWorld cache.State
  looked w = record w { cache = (cache.get "servers" w.clock w.cache).1 }

  -- the next listing is what OpenStack answers then
  abbrev pub Relists : ComputeWorld cache.State → Type 0
  Relists w = list_servers sdk cache list_limit w ≡ fetch_servers sdk cache list_limit (looked w)

  -- a method that returns has dropped what was cached; one that raises leaves the cache as it was
  abbrev pub Refreshed :
      {A : Type 0}
      → ComputeWorld cache.State
      → Result Exception A × ComputeWorld cache.State
      → Type 0
  Refreshed w out = Ended (λ a. Relists) (λ w'. w'.cache ≡ w.cache) out.0 out.1

  relists : (w : ComputeWorld cache.State) → read cache "servers" w.clock w.cache ≡ none → Relists w
  unfolding list_servers cache_get
  relists w e = rw e refl

  module _ (IsValid : cache.State → Type 0) (laws : IsCache cache IsValid) where
    -- the cache is that of `w`
    abbrev Kept : ComputeWorld cache.State → cache.State → List ComputeCall → Type 0
    Kept w s calls = s ≡ w.cache

    either :
        (P : ComputeWorld cache.State → Type 0) (t : ComputeWorld cache.State) → P t ⊎ P t → P t
    either P t (inl h) = h
    either P t (inr h) = h

    drop_servers :
        (w : ComputeWorld cache.State)
        → IsValid w.cache
        → Relists (record w { cache = cache.invalidate "servers" w.cache })
    drop_servers w v = relists _ (laws.read-invalidate "servers" "servers" w.clock w.cache v)

    drop_both :
        (w : ComputeWorld cache.State)
        → IsValid w.cache
        → Relists
            (record w { cache = cache.invalidate "volumes" (cache.invalidate "servers" w.cache) })
    drop_both w v = relists _ (
        laws.read-invalidate "volumes" "servers" w.clock (cache.invalidate "servers" w.cache)
          (laws.invalidate-IsValid "servers" w.cache v)
        ∙ laws.read-invalidate "servers" "servers" w.clock w.cache v)

    -- Where creating or deleting a server, or attaching or detaching a volume, returns, the next listing of
    -- servers is what OpenStack answers then, and not what was cached, for any cache that keeps the
    -- promises of the protocol; where it raises, the cache is left as it was.
    pub mutations_refresh :
        (payload : ServerCreateRequest) (server_id volume_id : String)
        (w : ComputeWorld cache.State)
        → IsValid w.cache
        → Refreshed w (create_server sdk cache list_limit payload w)
          × Refreshed w (delete_server sdk cache list_limit server_id w)
          × Refreshed w (attach_volume sdk cache list_limit server_id volume_id w)
          × Refreshed w (detach_volume sdk cache list_limit server_id volume_id w)
    mutations_refresh payload server_id volume_id w v =
        let same : ComputeWorld cache.State → Type 0 = λ t. t.cache ≡ w.cache in
        let dropped : (t : ComputeWorld cache.State) → same t → IsValid t.cache =
          λ t e. subst IsValid (sym e) v in
        (
          (weaken _ (λ a t q. q) (λ t r. either same t r)
                (create_server_Triple sdk cache list_limit (Kept w) (Kept w) (λ c e s calls h. h)
                  (λ c e s calls h. h) Relists payload (λ s calls h. h)
                  (λ t e. drop_servers t (dropped t e)))).after
              w refl,
          (weaken _ (λ a t q. q) (λ t r. either same t r)
                (delete_server_Triple sdk cache list_limit (Kept w) (Kept w) (λ c e s calls h. h)
                  (λ c e s calls h. h) Relists server_id
                  (λ t e. drop_servers t (dropped t e)))).after
              w refl,
          (weaken _ (λ a t q. q) (λ t r. either same t r)
                (attach_volume_Triple sdk cache list_limit (Kept w) (Kept w) (λ c e s calls h. h)
                  (λ c e s calls h. h) Relists server_id volume_id
                  (λ t e. drop_both t (dropped t e)))).after
              w refl,
          (weaken _ (λ a t q. q) (λ t r. either same t r)
                (detach_volume_Triple sdk cache list_limit (Kept w) (Kept w) (λ c e s calls h. h)
                  (λ c e s calls h. h) Relists server_id volume_id
                  (λ t e. drop_both t (dropped t e)))).after
              w refl,
        )
