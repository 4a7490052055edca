-- ===== src/Vmware/Discovery/Syncing.antt =====
-- app/services/vmware/inventory_service.py, sync_inventory.
use v_machine.Prelude.{ℕ, ◌≡◌, refl, ap, ◌∙◌, String, Option, List, [], ◌++◌, map, length}
use v_machine.Prelude.Exec.{Result, pure, ◌>>=◌, ◌>>◌}
use v_machine.Prelude.Ends.{Ends}
use v_machine.Cache.{invalidate_all}
use v_machine.Vmware.Vim.{VirtualMachine, Datastore, Network}
use v_machine.Vmware.Client.Detail.{get_vm_detail, get_datastore_detail, get_network_detail}
use v_machine.Vmware.Factory.{Failure, Vsphere, VcenterWorld, opened, get_all_objects}
use v_machine.Vmware.Factory as Factory
use v_machine.Vmware.Discovery.{
  InventorySyncResponse, Snapshot, machine_data, datastore_data, network_data, World, sync_vm,
  sync_datastore, sync_network, sync_each, drop_caches, sync_inventory,
}
use v_machine.Vmware.Discovery.Scheduling.{
  machine_snapshot, datastore_snapshot, network_snapshot, Scheduled, Partly, unmoved, upsert_Ends,
  next, Viewed, Empty, listing_runs, loop_runs,
}

module _ {Float : Type 0} (to_gb : ℕ → Float) (none_gb : Float) (vsphere : Vsphere) where
  abbrev W : Type 0
  W = World to_gb none_gb vsphere

  -- what a synchronisation that returns has done
  pub record Synced (w : W) (response : InventorySyncResponse) (w' : W) : Type 0 where
    pub machines : List VirtualMachine
    pub datastores : List Datastore
    pub networks : List Network
    pub machines_viewed : (Viewed to_gb none_gb vsphere) vsphere.virtual_machines machines
    pub datastores_viewed : (Viewed to_gb none_gb vsphere) vsphere.datastores datastores
    pub networks_viewed : (Viewed to_gb none_gb vsphere) vsphere.networks networks
    pub scheduled :
        w'.rest.scheduled
        ≡ w.rest.scheduled
          ++ (map (machine_snapshot to_gb none_gb vsphere) machines
              ++ map (datastore_snapshot to_gb none_gb vsphere) datastores
              ++ map (network_snapshot to_gb none_gb vsphere) networks)
    pub counted_vms : response.synced_vms ≡ length machines
    pub counted_datastores : response.synced_datastores ≡ length datastores
    pub counted_networks : response.synced_networks ≡ length networks
    pub vm_cache : w'.rest.vm_cache ≡ invalidate_all w.rest.vm_cache
    pub ds_cache : w'.rest.ds_cache ≡ invalidate_all w.rest.ds_cache
    pub net_cache : w'.rest.net_cache ≡ invalidate_all w.rest.net_cache

  module _ (operation_task_id : Option String) (w : W) where
    -- the steps of sync_inventory from each of its calls on
    abbrev finish : ℕ → ℕ → ℕ → W → Result Failure InventorySyncResponse × W
    finish synced_vms synced_ds synced_net = do
      drop_caches to_gb none_gb vsphere
      pure (record {
        synced_vms = synced_vms;
        synced_datastores = synced_ds;
        synced_networks = synced_net;
        operation_task_id = operation_task_id;
      })

    abbrev write_networks : List Network → ℕ → ℕ → W → Result Failure InventorySyncResponse × W
    write_networks nets synced_vms synced_ds = do
      synced_net ← sync_each to_gb none_gb vsphere (sync_network to_gb none_gb vsphere) nets
      finish synced_vms synced_ds synced_net

    abbrev write_datastores :
        List Datastore → List Network → ℕ → W → Result Failure InventorySyncResponse × W
    write_datastores dss nets synced_vms = do
      synced_ds ← sync_each to_gb none_gb vsphere (sync_datastore to_gb none_gb vsphere) dss
      write_networks nets synced_vms synced_ds

    abbrev write_machines :
        List VirtualMachine
        → List Datastore
        → List Network
        → W
        → Result Failure InventorySyncResponse × W
    write_machines vms dss nets = do
      synced_vms ← sync_each to_gb none_gb vsphere (sync_vm to_gb none_gb vsphere) vms
      write_datastores dss nets synced_vms

    abbrev view_networks :
        List VirtualMachine → List Datastore → W → Result Failure InventorySyncResponse × W
    view_networks vms dss = do nets ← Factory.list_networks vsphere; write_machines vms dss nets

    abbrev view_datastores : List VirtualMachine → W → Result Failure InventorySyncResponse × W
    view_datastores vms = do dss ← Factory.list_datastores vsphere; view_networks vms dss

    together :
        {added l1 l2 l3 a b c : List (Snapshot Float)}
        → added ≡ []
        → l1 ≡ a
        → l2 ≡ b
        → l3 ≡ c
        → added ++ l1 ++ l2 ++ l3 ≡ a ++ b ++ c
    together e1 e2 e3 e4 = rw (e1, e2, e3, e4) refl

    written :
        (vms : List VirtualMachine) (dss : List Datastore) (nets : List Network)
        → (Viewed to_gb none_gb vsphere) vsphere.virtual_machines vms
        → (Viewed to_gb none_gb vsphere) vsphere.datastores dss
        → (Viewed to_gb none_gb vsphere) vsphere.networks nets
        → (w' : W) (added : List (Snapshot Float)) → added ≡ []
        → (Scheduled to_gb none_gb vsphere) w added w'
        → let out = write_machines vms dss nets w' in
          Ends (Synced w) (λ e t. (Partly to_gb none_gb vsphere) w t) out.0 out.1
    unfolding sync_vm sync_datastore sync_network drop_caches
    written vms dss nets h1 h2 h3 w' added empty k =
        (next to_gb none_gb vsphere)
          (sync_each to_gb none_gb vsphere (sync_vm to_gb none_gb vsphere) vms)
          (write_datastores dss nets)
          (λ n l. (n ≡ length vms) × (l ≡ map (machine_snapshot to_gb none_gb vsphere) vms))
          (Synced w) w w' added k
          (loop_runs to_gb none_gb vsphere (sync_vm to_gb none_gb vsphere)
            (machine_snapshot to_gb none_gb vsphere) vms
            (λ vm t.
              (upsert_Ends to_gb none_gb vsphere) "vmware_vm" (get_vm_detail vm).name vm.id
                (machine_data (get_vm_detail vm)) t))
          (λ n1 l1 w1 q1 k1.
            (next to_gb none_gb vsphere)
              (sync_each to_gb none_gb vsphere (sync_datastore to_gb none_gb vsphere) dss)
              (write_networks nets n1)
              (λ n l. (n ≡ length dss) × (l ≡ map (datastore_snapshot to_gb none_gb vsphere) dss))
              (Synced w) w w1 (added ++ l1) k1
              (loop_runs to_gb none_gb vsphere (sync_datastore to_gb none_gb vsphere)
                (datastore_snapshot to_gb none_gb vsphere) dss
                (λ ds t.
                  (upsert_Ends to_gb none_gb vsphere) "vmware_datastore"
                    (get_datastore_detail to_gb none_gb ds).name ds.id
                    (datastore_data (get_datastore_detail to_gb none_gb ds)) t))
              (λ n2 l2 w2 q2 k2.
                (next to_gb none_gb vsphere)
                  (sync_each to_gb none_gb vsphere (sync_network to_gb none_gb vsphere) nets)
                  (finish n1 n2)
                  (λ n l.
                    (n ≡ length nets) × (l ≡ map (network_snapshot to_gb none_gb vsphere) nets))
                  (Synced w) w w2 (added ++ l1 ++ l2) k2
                  (loop_runs to_gb none_gb vsphere (sync_network to_gb none_gb vsphere)
                    (network_snapshot to_gb none_gb vsphere) nets
                    (λ net t.
                      (upsert_Ends to_gb none_gb vsphere) "vmware_network"
                        (get_network_detail net).name net.id (network_data (get_network_detail net))
                        t))
                  (λ n3 l3 w3 q3 k3. record {
                    machines = vms;
                    datastores = dss;
                    networks = nets;
                    machines_viewed = h1;
                    datastores_viewed = h2;
                    networks_viewed = h3;
                    scheduled =
                        k3.scheduled
                        ∙ ap (λ l. w.rest.scheduled ++ l) (together empty q1.1 q2.1 q3.1);
                    counted_vms = q1.0;
                    counted_datastores = q2.0;
                    counted_networks = q3.0;
                    vm_cache = ap invalidate_all k3.vm_cache;
                    ds_cache = ap invalidate_all k3.ds_cache;
                    net_cache = ap invalidate_all k3.net_cache;
                  })))

    -- A synchronisation that returns has scheduled, after what was scheduled before, one write for each
    -- VM, datastore and network that vCenter listed, in this order; it counts them, and has dropped the
    -- three caches. One that raises keeps the caches, and what it has scheduled until then.
    pub sync_inventory_accounted :
        let out = sync_inventory to_gb none_gb vsphere operation_task_id w in
        Ends (Synced w) (λ e w'. (Partly to_gb none_gb vsphere) w w') out.0 out.1
    unfolding sync_inventory Factory.list_vms Factory.list_datastores Factory.list_networks Empty
    sync_inventory_accounted =
        (next to_gb none_gb vsphere) (Factory.list_vms vsphere) view_datastores
          (Empty to_gb none_gb vsphere vsphere.virtual_machines) (Synced w) w w []
          (unmoved to_gb none_gb vsphere w w (refl, refl))
          (listing_runs to_gb none_gb vsphere "list_vms" vsphere.virtual_machines)
          (λ vms a1 w1 h1 k1.
            (next to_gb none_gb vsphere) (Factory.list_datastores vsphere) (view_networks vms)
              (Empty to_gb none_gb vsphere vsphere.datastores) (Synced w) w w1 a1 k1
              (listing_runs to_gb none_gb vsphere "list_datastores" vsphere.datastores)
              (λ dss a2 w2 h2 k2.
                (next to_gb none_gb vsphere) (Factory.list_networks vsphere)
                  (write_machines vms dss) (Empty to_gb none_gb vsphere vsphere.networks) (Synced w)
                  w w2 (a1 ++ a2) k2
                  (listing_runs to_gb none_gb vsphere "list_networks" vsphere.networks)
                  (λ nets a3 w3 h3 k3.
                    written vms dss nets h1.0 h2.0 h3.0 w3 (a1 ++ a2 ++ a3) (cc (h1.1, h2.1, h3.1))
                      k3)))
