-- ===== src/Vmware/Discovery/Once.antt =====
-- app/services/vmware/inventory_service.py: several reads of the VMs, of which at most one asks vCenter.
use mathlib.Core.Path.{subst}
use v_machine.Prelude.{
  ℕ, ◌+◌, ◌≡◌, ◌≤◌, ◌<◌, refl, sym, ap, ◌∙◌, String, true, false, Bool, none, some, Option, List,
  [], map, arith, ltb, if◌then◌else◌,
}
use v_machine.Prelude.Exec.{Result, ok, raise, pure}
use v_machine.Prelude.Ends.{Ends, both_Ends, bind-Ends}
use v_machine.Cache.{TtlCache}
use v_machine.Cache as Ttl
use v_machine.Prelude.Dict.{lookup}
use v_machine.Cache.Expiry.{get-set}
use v_machine.Vmware.Inventory.{VmSummary}
use v_machine.Vmware.Vim.{VirtualMachine}
use v_machine.Vmware.Pool.{acquire}
use v_machine.Vmware.Pool as Pool
use v_machine.Vmware.Factory.{
  Failure, Vsphere, VcenterWorld, connected, instrument, opened, connect, get_all_objects,
}
use v_machine.Vmware.Factory as Factory
use v_machine.Vmware.Discovery.{
  Inventory, World, build_vm_summary, cached_vms, fetch_vms, or_fetch, store_vms, list_vms, vm_of,
  get_vm,
}
use v_machine.Vmware.Discovery.Caching.{Aside, Answer, hit, listing_Ends}

-- a listing opens at most one view
module _ {R : Type 0} where
  connected-views :
      {A : Type 0} (r : Result Pool.Error A) (w : VcenterWorld R)
      → (connected r w).1.views ≡ w.views
  unfolding connected
  connected-views (ok a) w = refl
  connected-views (raise e) w = refl

  opened-views :
      {A : Type 0} (r : Result String A) (w : VcenterWorld R) → (opened r w).1.views ≡ w.views + 1
  unfolding opened
  opened-views (ok a) w = refl
  opened-views (raise e) w = refl

  if-views :
      {A : Type 0} (b : Bool) (x y : Result Failure A × VcenterWorld R) (n : ℕ)
      → x.1.views ≡ n
      → y.1.views ≡ n
      → (if b then x else y).1.views ≡ n
  if-views true x y n hx hy = hx
  if-views false x y n hx hy = hy

  connect-views : (vsphere : Vsphere) (w : VcenterWorld R) → (connect vsphere w).1.views ≡ w.views
  unfolding connect
  connect-views vsphere w =
      let (acquired, p) = acquire vsphere.vcenter w.clock w.pool in
      if-views vsphere.vcenter.ready (connected acquired (record w { pool = p })) _ w.views
        (connected-views acquired (record w { pool = p })) refl

  viewed-views :
      {A : Type 0} (view : ℕ → Result String (List A)) (r : Result Failure (Unit {0}))
      (w : VcenterWorld R) (n : ℕ)
      → w.views ≡ n
      → let out : Result Failure (List A) × VcenterWorld R = elim r [
        | ok a ↦ opened (view w.views) w
        | raise e ↦ (raise e, w)
      ] in
        out.1.views ≤ n + 1
  viewed-views view (ok a) w n h = omega (arith, opened-views (view w.views) w, h)
  viewed-views view (raise e) w n h = omega (arith, h)

  pub listing-views :
      {A : Type 0} (operation : String) (vsphere : Vsphere) (view : ℕ → Result String (List A))
      (w : VcenterWorld R)
      → (instrument operation (get_all_objects vsphere view) w).1.views ≤ w.views + 1
  unfolding instrument get_all_objects
  listing-views operation vsphere view w =
      viewed-views view (connect vsphere w).0 (connect vsphere w).1 w.views
        (connect-views vsphere w)

module _ {T : Type 0} where
  get-get :
      (key : String) (before now : ℕ) (c : TtlCache T) (v : T)
      → (Ttl.get key before c).0 ≡ some v
      → (Ttl.get key now (Ttl.get key before c).1).0 ≡ (Ttl.get key now c).0
  unfolding Ttl.get
  get-get key before now c v h = ground (arith, h)

  get-ttl : (key : String) (now : ℕ) (c : TtlCache T) → (Ttl.get key now c).1.ttl ≡ c.ttl
  unfolding Ttl.get
  get-ttl key now c = ground arith

module _ {Float : Type 0} (to_gb : ℕ → Float) (none_gb : Float) (vsphere : Vsphere) where
  abbrev pub W : Type 0
  W = World to_gb none_gb vsphere

  -- until `expiry`, the cache answers with these VMs
  abbrev pub Known : List VmSummary → ℕ → W → Type 0
  Known items expiry w = (t : ℕ) → t < expiry → (Ttl.get "vms" t w.rest.vm_cache).0 ≡ some items

  -- vCenter lists these VMs
  abbrev pub Source : List VmSummary → Type 0
  Source items =
      (i : ℕ) × ((raw : List VirtualMachine) × ((vsphere.virtual_machines i ≡ ok raw)
          × (items ≡ map build_vm_summary raw)))

  -- the world after a read of the cache
  abbrev touched : W → W
  touched w = record w {
    rest = record w.rest { vm_cache = (Ttl.get "vms" w.clock w.rest.vm_cache).1 };
  }

  -- a read that is answered by the cache
  pub get_vm-Known :
      (vm_id : String) (items : List VmSummary) (expiry : ℕ) (w : W)
      → Known items expiry w
      → w.clock < expiry
      → (get_vm to_gb none_gb vsphere vm_id w ≡ (ok (vm_of vm_id items), touched w))
        × Known items expiry (touched w)
  unfolding get_vm
  get_vm-Known vm_id items expiry w h early =
      let pick = λ (x : Result Failure (List VmSummary) × W).
        let out : Result Failure (Option VmSummary) × W = elim x.0 [
          | ok vms ↦ (ok (vm_of vm_id vms), x.1)
          | raise e ↦ (raise e, x.1)
        ] in
        out in
      let now = h w.clock early in
      (
        ap pick (hit to_gb none_gb vsphere w items now),
        λ t before. get-get "vms" w.clock t w.rest.vm_cache items now ∙ h t before,
      )

  -- what a first read leaves
  abbrev pub Read : W → List VmSummary → W → Type 0
  Read w items w' =
      (Known items (w.clock + w.rest.vm_cache.ttl) w' × Source items)
      × ((w'.clock ≡ w.clock) × (w'.views ≤ w.views + 1))

  -- what was listed and stored
  stored_Known :
      (w w' : W) (items : List VmSummary) (expiry : ℕ)
      → expiry ≡ w.clock + w.rest.vm_cache.ttl
      → Aside w w'
      → Known items expiry (record w' {
        rest = record w'.rest { vm_cache = Ttl.set "vms" items w'.clock w'.rest.vm_cache };
      })
  stored_Known w w' items expiry e same t before =
      let in_time : ltb t (w'.clock + w'.rest.vm_cache.ttl) ≡ true =
        ground (arith, e, before, same.0, ap (λ r. r.vm_cache.ttl) same.1) in
      get-set "vms" "vms" items w'.clock t w'.rest.vm_cache ∙ rw in_time refl

  -- a read that the cache does not answer
  miss :
      (w : W)
      → (Ttl.get "vms" w.clock w.rest.vm_cache).0 ≡ none
      → list_vms to_gb none_gb vsphere true w ≡ fetch_vms to_gb none_gb vsphere (touched w)
  unfolding list_vms cached_vms or_fetch
  miss w e = ap (λ o. or_fetch o (fetch_vms to_gb none_gb vsphere) (touched w)) e

  fetch_Read :
      (w : W)
      → let out = fetch_vms to_gb none_gb vsphere (touched w) in
        Ends (Read w) (λ e w'. w'.views ≤ w.views + 1) out.0 out.1
  unfolding fetch_vms store_vms Factory.list_vms
  fetch_Read w =
      let listed = Factory.list_vms {R = Inventory Float} vsphere (touched w) in
      let one = listing-views "list_vms" vsphere vsphere.virtual_machines (touched w) in
      bind-Ends
        (λ raw w'. Answer vsphere.virtual_machines (touched w) raw w' × (w'.views ≤ w.views + 1))
        (Read w) (λ e w'. w'.views ≤ w.views + 1) (Factory.list_vms vsphere)
        (store_vms to_gb none_gb vsphere) (touched w)
        (both_Ends (Answer vsphere.virtual_machines (touched w)) (λ e w'. Aside (touched w) w')
          (λ w'. w'.views ≤ w.views + 1) listed.0 listed.1
          (listing_Ends vsphere.virtual_machines (touched w) "list_vms" vsphere) one)
        (λ raw w' q. (
          (
            stored_Known (touched w) w' (map build_vm_summary raw) (w.clock + w.rest.vm_cache.ttl)
                (omega (arith, get-ttl "vms" w.clock w.rest.vm_cache)) q.0.0,
            (q.0.1.0, (raw, (q.0.1.1, refl))),
          ),
          (q.0.0.0, q.1),
        ))

  empty_misses :
      (now : ℕ) (c : TtlCache (List VmSummary)) → c.store ≡ [] → (Ttl.get "vms" now c).0 ≡ none
  unfolding Ttl.get lookup
  empty_misses now c e = rw e refl

  -- the first read, with an empty cache
  list_vms-Read :
      (w : W)
      → w.rest.vm_cache.store ≡ []
      → let out = list_vms to_gb none_gb vsphere true w in
        Ends (Read w) (λ e w'. w'.views ≤ w.views + 1) out.0 out.1
  list_vms-Read w h =
      subst (λ x. Ends (Read w) (λ e w'. w'.views ≤ w.views + 1) x.0 x.1)
        (sym (miss w (empty_misses w.clock w.rest.vm_cache h))) (fetch_Read w)

  -- The VM is the first with its id, among the VMs that every later read finds.
  pub get_vm-Read :
      (vm_id : String) (w : W)
      → w.rest.vm_cache.store ≡ []
      → let out = get_vm to_gb none_gb vsphere vm_id w in
        Ends
          (λ found w'. (items : List VmSummary) × ((found ≡ vm_of vm_id items) × Read w items w'))
          (λ e w'. w'.views ≤ w.views + 1)
          out.0
          out.1
  unfolding get_vm
  get_vm-Read vm_id w h =
      bind-Ends (Read w)
        (λ found w'. (items : List VmSummary) × ((found ≡ vm_of vm_id items) × Read w items w'))
        (λ e w'. w'.views ≤ w.views + 1) (list_vms to_gb none_gb vsphere true)
        (λ items. pure (vm_of vm_id items)) w (list_vms-Read w h) (λ items w' q. (items, (refl, q)))
