-- ===== src/Vmware/Discovery/Scheduling.antt =====
-- app/services/vmware/inventory_service.py, sync_inventory: what its steps schedule.
use mathlib.Core.List.{append-nil, append_assoc}
use v_machine.Prelude.{
  ℕ, ◌+◌, ◌≡◌, refl, sym, ap, ◌∙◌, String, Option, none, some, List, [], ◌∷◌, ◌++◌, map, length,
  arith,
}
use v_machine.Prelude.Exec.{Result, ok, pure, ◌>>=◌}
use v_machine.Prelude.Ends.{Ends, Ends-imp, bind-Ends}
use v_machine.Vmware.Vim.{VirtualMachine, Datastore, Network}
use v_machine.Vmware.Client.Detail.{get_or, get_vm_detail, get_datastore_detail, get_network_detail}
use v_machine.Vmware.Factory.{Failure, Vsphere, VcenterWorld, opened, get_all_objects}
use v_machine.Vmware.Factory as Factory
use v_machine.Vmware.Discovery.{
  Snapshot, RawData, machine_data, datastore_data, network_data, World, upsert_snapshot, sync_each,
}
use v_machine.Vmware.Discovery.Caching.{Aside, Answer, listing_Ends}

module _ {Float : Type 0} (to_gb : ℕ → Float) (none_gb : Float) (vsphere : Vsphere) where
  -- the arguments of the upserts
  abbrev pub machine_snapshot : VirtualMachine → Snapshot Float
  machine_snapshot vm = record {
    resource_type = "vmware_vm";
    external_id = get_or "" vm.id;
    resource_name = (get_vm_detail vm).name;
    raw_data = machine_data (get_vm_detail vm);
  }

  abbrev pub datastore_snapshot : Datastore → Snapshot Float
  datastore_snapshot ds = record {
    resource_type = "vmware_datastore";
    external_id = get_or "" ds.id;
    resource_name = (get_datastore_detail to_gb none_gb ds).name;
    raw_data = datastore_data (get_datastore_detail to_gb none_gb ds);
  }

  abbrev pub network_snapshot : Network → Snapshot Float
  network_snapshot net = record {
    resource_type = "vmware_network";
    external_id = get_or "" net.id;
    resource_name = (get_network_detail net).name;
    raw_data = network_data (get_network_detail net);
  }

  abbrev pub W : Type 0
  W = World to_gb none_gb vsphere

  -- Since `w`, these writes were scheduled, and the caches are as they were.
  pub record Scheduled (w : W) (added : List (Snapshot Float)) (w' : W) : Type 0 where
    pub scheduled : w'.rest.scheduled ≡ w.rest.scheduled ++ added
    pub vm_cache : w'.rest.vm_cache ≡ w.rest.vm_cache
    pub ds_cache : w'.rest.ds_cache ≡ w.rest.ds_cache
    pub net_cache : w'.rest.net_cache ≡ w.rest.net_cache

  abbrev pub Partly : W → W → Type 0
  Partly w w' = (added : List (Snapshot Float)) × Scheduled w added w'

  pub later :
      (w w' w'' : W) (added more : List (Snapshot Float))
      → Scheduled w added w'
      → Scheduled w' more w''
      → Scheduled w (added ++ more) w''
  later w w' w'' added more h k = record {
    scheduled =
        k.scheduled ∙ ap (λ l. l ++ more) h.scheduled ∙ append_assoc w.rest.scheduled added more;
    vm_cache = k.vm_cache ∙ h.vm_cache;
    ds_cache = k.ds_cache ∙ h.ds_cache;
    net_cache = k.net_cache ∙ h.net_cache;
  }

  pub unmoved : (w w' : W) → Aside w w' → Scheduled w [] w'
  unmoved w w' h = record {
    scheduled = ap (λ r. r.scheduled) h.1 ∙ sym (append-nil w.rest.scheduled);
    vm_cache = ap (λ r. r.vm_cache) h.1;
    ds_cache = ap (λ r. r.ds_cache) h.1;
    net_cache = ap (λ r. r.net_cache) h.1;
  }

  pub upsert_Ends :
      (resource_type name : String) (id : Option String) (raw : RawData Float) (w : W)
      → let out = upsert_snapshot to_gb none_gb vsphere resource_type id name raw w in
        Ends
          (λ x w'.
            Scheduled w
              (record {
                resource_type = resource_type;
                external_id = get_or "" id;
                resource_name = name;
                raw_data = raw;
              }
                ∷ [])
              w')
          (λ e w'. Scheduled w [] w')
          out.0
          out.1
  unfolding upsert_snapshot
  upsert_Ends resource_type name (some id) raw w = record {
    scheduled = refl;
    vm_cache = refl;
    ds_cache = refl;
    net_cache = refl;
  }
  upsert_Ends resource_type name none raw w = unmoved w w (refl, refl)

  -- a loop of upserts
  module _ {A : Type 0} (body : A → W → Result Failure (Unit {0}) × W)
      (snapshot : A → Snapshot Float)
      (upserts : (x : A) (w : W)
        → Ends
            (λ u w'. Scheduled w (snapshot x ∷ []) w')
            (λ e w'. Scheduled w [] w')
            (body x w).0
            (body x w).1) where
    sync_each_Ends :
        (xs : List A) (w : W)
        → let out = sync_each to_gb none_gb vsphere body xs w in
          Ends
            (λ n w'. (n ≡ length xs) × Scheduled w (map snapshot xs) w')
            (λ e w'. Partly w w')
            out.0
            out.1
    unfolding sync_each
    sync_each_Ends [] w = (refl, unmoved w w (refl, refl))
    sync_each_Ends (x ∷ xs) w =
        bind-Ends (λ u w'. Scheduled w (snapshot x ∷ []) w')
          (λ n w'. (n ≡ length (x ∷ xs)) × Scheduled w (map snapshot (x ∷ xs)) w')
          (λ e w'. Partly w w') (body x) _ w
          (Ends-imp (λ u w'. Scheduled w (snapshot x ∷ []) w')
            (λ u w'. Scheduled w (snapshot x ∷ []) w') (λ e w'. Scheduled w [] w')
            (λ e w'. Partly w w') (body x w).0 (body x w).1 (λ u w' h. h) (λ e w' h. ([], h))
            (upserts x w))
          (λ u w' h.
            bind-Ends (λ n w''. (n ≡ length xs) × Scheduled w' (map snapshot xs) w'')
              (λ n w''. (n ≡ length (x ∷ xs)) × Scheduled w (map snapshot (x ∷ xs)) w'')
              (λ e w''. Partly w w'') (sync_each to_gb none_gb vsphere body xs) (λ n. pure (n + 1))
              w'
              (Ends-imp (λ n w''. (n ≡ length xs) × Scheduled w' (map snapshot xs) w'')
                (λ n w''. (n ≡ length xs) × Scheduled w' (map snapshot xs) w'')
                (λ e w''. Partly w' w'') (λ e w''. Partly w w'')
                (sync_each to_gb none_gb vsphere body xs w').0
                (sync_each to_gb none_gb vsphere body xs w').1 (λ n w'' k. k)
                (λ e w'' k. (snapshot x ∷ k.0, later w w' w'' (snapshot x ∷ []) k.0 h k.1))
                (sync_each_Ends xs w'))
              (λ n w'' k.
                (omega (arith, k.0), later w w' w'' (snapshot x ∷ []) (map snapshot xs) h k.1)))

  -- what a step schedules, whether it returns or raises
  abbrev pub Runs :
      {A : Type 0} → (W → Result Failure A × W) → (A → List (Snapshot Float) → Type 0) → Type 0
  Runs m P =
      (w : W)
      → Ends (λ a w'. (added : List (Snapshot Float)) × (P a added × Scheduled w added w'))
          (λ e w'. Partly w w') (m w).0 (m w).1

  pub next :
      {A B : Type 0} (m : W → Result Failure A × W) (f : A → W → Result Failure B × W)
      (P : A → List (Snapshot Float) → Type 0) (Final : B → W → Type 0) (w w' : W)
      (added : List (Snapshot Float))
      → Scheduled w added w'
      → Runs m P
      → ((a : A) (more : List (Snapshot Float)) (w'' : W)
          → P a more
          → Scheduled w (added ++ more) w''
          → Ends Final (λ e t. Partly w t) (f a w'').0 (f a w'').1)
      → let out = (m >>= f) w' in Ends Final (λ e t. Partly w t) out.0 out.1
  next m f P Final w w' added h runs k =
      bind-Ends (λ a t. (more : List (Snapshot Float)) × (P a more × Scheduled w' more t)) Final
        (λ e t. Partly w t) m f w'
        (Ends-imp (λ a t. (more : List (Snapshot Float)) × (P a more × Scheduled w' more t))
          (λ a t. (more : List (Snapshot Float)) × (P a more × Scheduled w' more t))
          (λ e t. Partly w' t) (λ e t. Partly w t) (m w').0 (m w').1 (λ a t q. q)
          (λ e t q. (added ++ q.0, later w w' t added q.0 h q.1)) (runs w'))
        (λ a t q. k a q.0 t q.1.0 (later w w' t added q.0 h q.1.1))

  -- a listing schedules nothing, and returns what vCenter answers to a view
  abbrev pub Viewed : {A : Type 0} → (ℕ → Result String (List A)) → List A → Type 0
  Viewed view xs = (i : ℕ) × (view i ≡ ok xs)

  unfoldable pub Empty :
      {A : Type 0} → (ℕ → Result String (List A)) → List A → List (Snapshot Float) → Type 0
  Empty view xs added = Viewed view xs × (added ≡ [])

  pub listing_runs :
      {A : Type 0} (operation : String) (view : ℕ → Result String (List A))
      → Runs (Factory.instrument operation (get_all_objects vsphere view)) (Empty view)
  unfolding Empty
  listing_runs operation view w =
      let m = Factory.instrument operation (get_all_objects vsphere view) in
      Ends-imp (Answer view w)
        (λ xs w'. (added : List (Snapshot Float)) × (Empty view xs added × Scheduled w added w'))
        (λ e w'. Aside w w') (λ e w'. Partly w w') (m w).0 (m w).1
        (λ xs w' h. ([], ((h.1, refl), unmoved w w' h.0))) (λ e w' h. ([], unmoved w w' h))
        (listing_Ends view w operation vsphere)

  pub loop_runs :
      {A : Type 0} (body : A → W → Result Failure (Unit {0}) × W) (snapshot : A → Snapshot Float)
      (xs : List A)
      → ((x : A) (w : W)
          → Ends
              (λ u w'. Scheduled w (snapshot x ∷ []) w')
              (λ e w'. Scheduled w [] w')
              (body x w).0
              (body x w).1)
      → Runs
          (sync_each to_gb none_gb vsphere body xs)
          (λ n added. (n ≡ length xs) × (added ≡ map snapshot xs))
  loop_runs body snapshot xs upserts w =
      let m = sync_each to_gb none_gb vsphere body xs in
      Ends-imp (λ n w'. (n ≡ length xs) × Scheduled w (map snapshot xs) w') _ (λ e w'. Partly w w')
        (λ e w'. Partly w w') (m w).0 (m w).1 (λ n w' h. (map snapshot xs, ((h.0, refl), h.1)))
        (λ e w' h. h) (sync_each_Ends body snapshot upserts xs w)
