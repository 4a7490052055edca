-- ===== src/Vmware/Discovery/Caching.antt =====
-- app/services/vmware/inventory_service.py: the listing of the VMs and its cache.
use v_machine.Prelude.{
  ℕ, ◌+◌, ◌≡◌, ◌<◌, refl, ap, ◌∙◌, String, Bool, true, false, Option, some, List, map, arith, ltb,
  if◌then◌else◌,
}
use v_machine.Prelude.Exec.{Result, ok, raise}
use v_machine.Prelude.Ends.{Ends, Ends-imp, always_Ends, bind-Ends}
use v_machine.Cache.{TtlCache}
use v_machine.Cache as Ttl
use v_machine.Cache.Expiry.{get-set}
use v_machine.Vmware.Inventory.{VmSummary}
use v_machine.Vmware.Pool.{acquire}
use v_machine.Vmware.Pool as Pool
use v_machine.Vmware.Factory.{
  Failure, Vsphere, VcenterWorld, Discovery, connected, instrument, observed, status_of, opened,
  connect, get_all_objects,
}
use v_machine.Vmware.Factory as Factory
use v_machine.Vmware.Discovery.{
  World, build_vm_summary, cached_vms, fetch_vms, or_fetch, store_vms, list_vms, vm_of, get_vm,
}

-- a call of the client keeps the clock and what the service has
abbrev pub Aside : {R : Type 0} → VcenterWorld R → VcenterWorld R → Type 0
Aside w w' = (w'.clock ≡ w.clock) × (w'.rest ≡ w.rest)

module _ {R : Type 0} where
  connected-Aside :
      {A : Type 0} (r : Result Pool.Error A) (w w' : VcenterWorld R)
      → Aside w w'
      → Aside w (connected r w').1
  unfolding connected
  connected-Aside (ok a) w w' h = h
  connected-Aside (raise e) w w' h = h

  if-Aside :
      {A : Type 0} (b : Bool) (x y : Result Failure A × VcenterWorld R) (w : VcenterWorld R)
      → Aside w x.1
      → Aside w y.1
      → Aside w (if b then x else y).1
  if-Aside true x y w hx hy = hx
  if-Aside false x y w hx hy = hy

  connect-Aside : (vsphere : Vsphere) (w : VcenterWorld R) → Aside w (connect vsphere w).1
  unfolding connect
  connect-Aside vsphere w =
      let (acquired, p) = acquire vsphere.vcenter w.clock w.pool in
      if-Aside vsphere.vcenter.ready (connected acquired (record w { pool = p })) _ w
        (connected-Aside acquired w (record w { pool = p }) (refl, refl)) (refl, refl)

  opened-Aside :
      {A : Type 0} (r : Result String A) (w w' : VcenterWorld R)
      → Aside w w'
      → Aside w (opened r w').1
  unfolding opened
  opened-Aside (ok a) w w' h = h
  opened-Aside (raise e) w w' h = h

  viewed-Aside :
      {A : Type 0} (view : ℕ → Result String (List A)) (r : Result Failure (Unit {0}))
      (w w' : VcenterWorld R)
      → Aside w w'
      → let out : Result Failure (List A) × VcenterWorld R = elim r [
        | ok a ↦ opened (view w'.views) w'
        | raise e ↦ (raise e, w')
      ] in
        Aside w out.1
  viewed-Aside view (ok a) w w' h = opened-Aside (view w'.views) w w' h
  viewed-Aside view (raise e) w w' h = h

  pub listing-Aside :
      {A : Type 0} (operation : String) (vsphere : Vsphere) (view : ℕ → Result String (List A))
      (w : VcenterWorld R)
      → Aside w (instrument operation (get_all_objects vsphere view) w).1
  unfolding instrument get_all_objects
  listing-Aside operation vsphere view w =
      viewed-Aside view (connect vsphere w).0 w (connect vsphere w).1 (connect-Aside vsphere w)

  -- and a listing that returns has what vCenter answers to a view
  module _ {A : Type 0} (view : ℕ → Result String (List A)) (w : VcenterWorld R) where
    abbrev pub Answer : List A → VcenterWorld R → Type 0
    Answer xs w' = Aside w w' × ((i : ℕ) × (view i ≡ ok xs))

    opened_Ends :
        (i : ℕ) (r : Result String (List A)) (w' : VcenterWorld R)
        → view i ≡ r
        → Aside w w'
        → Ends Answer (λ e t. Aside w t) (opened r w').0 (opened r w').1
    unfolding opened
    opened_Ends i (ok xs) w' e h = (h, (i, e))
    opened_Ends i (raise x) w' e h = h

    observed_Ends :
        (operation status : String) (r : Result Failure (List A)) (w' : VcenterWorld R)
        → Ends Answer (λ e t. Aside w t) r w'
        → Ends Answer (λ e t. Aside w t) r (observed operation status w')
    observed_Ends operation status (ok xs) w' h = h
    observed_Ends operation status (raise e) w' h = h

    pub listing_Ends :
        (operation : String) (vsphere : Vsphere)
        → let out = instrument operation (get_all_objects vsphere view) w in
          Ends Answer (λ e t. Aside w t) out.0 out.1
    unfolding instrument get_all_objects
    listing_Ends operation vsphere =
        let out = get_all_objects vsphere view w in
        observed_Ends operation (status_of out.0) out.0 out.1 (
          bind-Ends (λ u t. Aside w t) Answer (λ e t. Aside w t) (connect vsphere)
            (λ u t. opened (view t.views) t) w
            (always_Ends (Aside w) (connect vsphere w).0 (connect vsphere w).1
              (connect-Aside vsphere w))
            (λ u t h. opened_Ends t.views (view t.views) t refl h))

module _ {Float : Type 0} (to_gb : ℕ → Float) (none_gb : Float) (vsphere : Vsphere) where
  -- a read that is answered by the cache
  pub hit :
      (w : World to_gb none_gb vsphere) (items : List VmSummary)
      → (Ttl.get "vms" w.clock w.rest.vm_cache).0 ≡ some items
      → list_vms to_gb none_gb vsphere true w ≡ (
        ok items,
        record w { rest = record w.rest { vm_cache = (Ttl.get "vms" w.clock w.rest.vm_cache).1 } },
      )
  unfolding list_vms cached_vms or_fetch
  hit w items e =
      ap
        (λ o. or_fetch o (fetch_vms to_gb none_gb vsphere) (record w {
          rest = record w.rest { vm_cache = (Ttl.get "vms" w.clock w.rest.vm_cache).1 };
        }))
        e

  -- what a later read finds
  abbrev pub Answered : List VmSummary → ℕ → World to_gb none_gb vsphere → Type 0
  Answered items t w' =
      let later = record w' { clock = t } in
      let again = list_vms to_gb none_gb vsphere true later in
      (((again.0 ≡ ok items) × (again.1.views ≡ w'.views))
        × ((vm_id : String)
            → (get_vm to_gb none_gb vsphere vm_id later).0 ≡ ok (vm_of vm_id items)))
      × ((again.1.pool ≡ w'.pool) × (again.1.durations ≡ w'.durations))

  -- get_vm after the listing
  abbrev picked :
      String
      → Result Failure (List VmSummary) × World to_gb none_gb vsphere
      → Result Failure (Option VmSummary)
  picked vm_id x =
      let out : Result Failure (Option VmSummary) × World to_gb none_gb vsphere = elim x.0 [
        | ok items ↦ (ok (vm_of vm_id items), x.1)
        | raise e ↦ (raise e, x.1)
      ] in
      out.0

  -- the VMs that a fetch has stored
  stored :
      (w w' : World to_gb none_gb vsphere) (t : ℕ) (items : List VmSummary)
      → t < w.clock + w.rest.vm_cache.ttl
      → Aside w w'
      → Answered items t (record w' {
        rest = record w'.rest { vm_cache = Ttl.set "vms" items w'.clock w'.rest.vm_cache };
      })
  unfolding get_vm
  stored w w' t items h same =
      let found = get-set "vms" "vms" items w'.clock t w'.rest.vm_cache in
      let in_time : ltb t (w'.clock + w'.rest.vm_cache.ttl) ≡ true =
        ground (arith, h, same.0, ap (λ r. r.vm_cache.ttl) same.1) in
      let kept = record w' {
        clock = t;
        rest = record w'.rest { vm_cache = Ttl.set "vms" items w'.clock w'.rest.vm_cache };
      } in
      let e = hit kept items (found ∙ rw in_time refl) in
      (
        ((ap (λ x. x.0) e, ap (λ x. x.1.views) e), λ vm_id. ap (picked vm_id) e),
        (ap (λ x. x.1.pool) e, ap (λ x. x.1.durations) e),
      )

  -- After the VMs were listed, a listing returns the same until the time to live of the cache has passed,
  -- a VM is then the first with its id in that list, and nothing is asked of vCenter or of the pool for it; where the listing raises, the service keeps
  -- what it had.
  pub list_vms-cached :
      (w : World to_gb none_gb vsphere) (t : ℕ)
      → t < w.clock + w.rest.vm_cache.ttl
      → let out = list_vms to_gb none_gb vsphere false w in
        Ends (λ items w'. Answered items t w') (λ e w'. w'.rest ≡ w.rest) out.0 out.1
  unfolding list_vms cached_vms or_fetch fetch_vms store_vms Factory.list_vms
  list_vms-cached w t h =
      bind-Ends (λ raw w'. Aside w w') (λ items w'. Answered items t w') (λ e w'. w'.rest ≡ w.rest)
        (Factory.list_vms vsphere) (store_vms to_gb none_gb vsphere) w
        (Ends-imp (λ raw w'. Aside w w') (λ raw w'. Aside w w') (λ e w'. Aside w w')
          (λ e w'. w'.rest ≡ w.rest) (Factory.list_vms vsphere w).0 (Factory.list_vms vsphere w).1
          (λ raw w' same. same) (λ e w' same. same.1)
          (always_Ends (Aside w) (Factory.list_vms vsphere w).0 (Factory.list_vms vsphere w).1
            (listing-Aside "list_vms" vsphere vsphere.virtual_machines w)))
        (λ raw w' same. stored w w' t (map build_vm_summary raw) h same)
