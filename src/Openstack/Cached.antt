-- ===== src/Openstack/Cached.antt =====
-- app/common/utils/openstack_cache.py, as the services call it, and the steps that the OpenStack services
-- share: the guard of a lookup and of a deletion, and a cached listing.
use v_machine.Prelude.{String, Bool, true, false, Option, none, some}
use v_machine.Prelude.Exec.{ok, pure, throw, modify, ◌>>=◌, ◌>>◌}
use v_machine.Cache.Backend.{Backend}
use v_machine.Openstack.Server.{app}
use v_machine.Openstack.Client.{Api, Action}

module _ {api : Api} {S : Type 0} where
  -- `if not …: raise AppException(…, 404, …)`
  unfoldable pub required : {A : Type 0} → String → String → Option A → Action api S A
  required message code none = throw (app message 404 code)
  required message code (some a) = pure a

  -- `if deleted is False: raise AppException(…, 404, …)`
  unfoldable pub deleted_or : String → String → Bool → Action api S (Unit {0})
  deleted_or message code true = pure tt
  deleted_or message code false = throw (app message 404 code)

module _ {api : Api} {V : Type 0} (cache : Backend V) where
  unfoldable pub cache_get : String → Action api cache.State (Option V)
  cache_get resource w =
      let (value, c) = cache.get resource w.clock w.cache in (ok value, record w { cache = c })

  unfoldable pub cache_set : String → V → Action api cache.State (Unit {0})
  cache_set resource value =
      modify (λ w. record w { cache = cache.set resource value w.clock w.cache })

  unfoldable pub cache_invalidate : String → Action api cache.State (Unit {0})
  cache_invalidate resource = modify (λ w. record w { cache = cache.invalidate resource w.cache })

  -- the cached list, or one that is fetched and stored
  unfoldable pub cached_or : String → Action api cache.State V → Action api cache.State V
  cached_or resource fetch = do
    cached ← cache_get resource
    elim cached [
      | some items ↦ pure items
      | none ↦ do items ← fetch; cache_set resource items; pure items
    ]

-- getattr(object, name, default): `none` is an attribute that is absent, `some none` one that is None
abbrev pub attribute : {A : Type 0} → Option A → Option (Option A) → Option A
attribute default none = default
attribute default (some value) = value
