-- ===== src/Orchestration/Clusters/Batches.antt =====
-- app/services/orchestration/cluster_service.py, batch_deploy: the servers that Nova is asked for.
use mathlib.Core.List.{append-nil, append_assoc}
use v_machine.Prelude.{
  ℕ, zero, suc, ◌+◌, ◌≤◌, ◌≡◌, refl, sym, ◌∙◌, ap, String, Bool, true, false, none, List, [], ◌∷◌,
  ◌++◌, ◌⊎◌, inl, inr, arith,
}
use v_machine.Prelude.Exec.{Result, ok, raise}
use v_machine.Prelude.Hoare.{Ended}
use v_machine.Prelude.Text.{f_string, decimal}
use v_machine.Cache.Backend.{Backend}
use v_machine.Openstack.Server.{Exception}
use v_machine.Openstack.Calls.{ComputeCall, ComputeSdk, ComputeWorld}
use v_machine.Openstack.Calls as Calls
use v_machine.Openstack.Summary.{Item, ServerSummary, create_kwargs}
use v_machine.Openstack.Compute.{create_server}
use v_machine.Openstack.Compute.Steps.{asked, asks, Ignores}
use v_machine.Openstack.Compute.Methods.{create_server_Triple}
use v_machine.Database.{Database, found}
use v_machine.Orchestration.Clusters.{
  ClusterDeployment, BatchDeployRequest, BatchDeployResponse, cluster_not_found, server_name,
  server_request, deploy_from, deploy_servers, batch_deploy,
}

-- the names of `n` servers, numbered on from one more than `i`
unfoldable pub names_from : String → ℕ → ℕ → List String
names_from template i zero = []
names_from template i (suc n) =
    f_string (template ∷ "-" ∷ decimal (i + 1) ∷ []) ∷ names_from template (i + 1) n

asked-append : (xs ys : List ComputeCall) → asked (xs ++ ys) ≡ asked xs ++ asked ys
unfolding asked
asked-append [] ys = refl
asked-append (c ∷ xs) ys =
    ap (λ t. asks c ++ t) (asked-append xs ys) ∙ sym (append_assoc (asks c) (asked xs) (asked ys))

module _ (sdk : ComputeSdk) (cache : Backend (List Item)) (list_limit : ℕ) where
  -- Nova has been asked for these names
  abbrev Asked : List String → cache.State → List ComputeCall → Type 0
  Asked names s calls = asked calls ≡ names

  Asked-Ignores : (names : List String) → Ignores sdk (Asked names)
  unfolding asked
  Asked-Ignores names c e s calls h =
      asked-append calls (c ∷ [])
      ∙ ap (λ t. asked calls ++ (t ++ [])) e
      ∙ append-nil (asked calls)
      ∙ h

  -- the servers after the first `i`: so many are asked for that `created` were created, or one more
  pub record Numbered (payload : BatchDeployRequest) (i n created : ℕ)
      (w w' : ComputeWorld cache.State) : Type 0 where
    pub attempts : ℕ
    pub names : asked w'.calls ≡ asked w.calls ++ names_from payload.template_name i attempts
    pub created_at_most : created ≤ attempts
    pub one_more : attempts ≤ created + 1
    pub requested_at_most : attempts ≤ n

  module _ (cluster_id : String) (payload : BatchDeployRequest) where
    abbrev attempt :
        ℕ → ComputeWorld cache.State → Result Exception ServerSummary × ComputeWorld cache.State
    attempt i w = create_server sdk cache list_limit (server_request cluster_id payload i) w

    attempt_lem :
        (i : ℕ) (w : ComputeWorld cache.State)
        → let names = asked w.calls in
          let more = names ++ server_name payload i ∷ [] in
          Ended
            (λ a w'. asked w'.calls ≡ more)
            (λ w'. (asked w'.calls ≡ names) ⊎ (asked w'.calls ≡ more))
            (attempt i w).0
            (attempt i w).1
    unfolding asked
    attempt_lem i w =
        let names = asked w.calls in
        let more = names ++ server_name payload i ∷ [] in
        (create_server_Triple sdk cache list_limit (Asked names) (Asked more) (Asked-Ignores names)
            (Asked-Ignores more) (λ w'. asked w'.calls ≡ more) (server_request cluster_id payload i)
            (λ s calls h.
              asked-append calls
                (Calls.create_server (create_kwargs (server_request cluster_id payload i)) ∷ [])
              ∙ ap (λ t. t ++ server_name payload i ∷ []) h)
            (λ w' h. h)).after
          w refl

    settled :
        (i n : ℕ) (w : ComputeWorld cache.State) (r : Result Exception ServerSummary)
        (w' : ComputeWorld cache.State)
        → let names = asked w.calls in
          let more = names ++ server_name payload i ∷ [] in
          Ended
            (λ a t. asked t.calls ≡ more)
            (λ t. (asked t.calls ≡ names) ⊎ (asked t.calls ≡ more))
            r
            w'
          → let rest = deploy_from sdk cache list_limit cluster_id payload (i + 1) n w' in
            Numbered payload (i + 1) n rest.0 w' rest.1
            → let out : ℕ × ComputeWorld cache.State = elim r [
              | raise e ↦ (0, w')
              | ok server ↦ (rest.0 + 1, rest.1)
            ] in
              Numbered payload i (suc n) out.0 w out.1
    unfolding names_from
    settled i n w (ok a) w' h rest = record {
      attempts = suc rest.attempts;
      names =
          rest.names
          ∙ ap (λ t. t ++ names_from payload.template_name (i + 1) rest.attempts) h
          ∙ append_assoc (asked w.calls) (server_name payload i ∷ [])
              (names_from payload.template_name (i + 1) rest.attempts);
      created_at_most = omega (arith, rest.created_at_most);
      one_more = omega (arith, rest.one_more);
      requested_at_most = omega (arith, rest.requested_at_most);
    }
    settled i n w (raise e) w' (inl h) rest = record {
      attempts = 0;
      names = h ∙ sym (append-nil (asked w.calls));
      created_at_most = omega arith;
      one_more = omega arith;
      requested_at_most = omega arith;
    }
    settled i n w (raise e) w' (inr h) rest = record {
      attempts = 1;
      names = h;
      created_at_most = omega arith;
      one_more = omega arith;
      requested_at_most = omega arith;
    }

    deploy_from_lem :
        (n i : ℕ) (w : ComputeWorld cache.State)
        → let out = deploy_from sdk cache list_limit cluster_id payload i n w in
          Numbered payload i n out.0 w out.1
    unfolding deploy_from names_from
    deploy_from_lem zero i w = record {
      attempts = 0;
      names = sym (append-nil (asked w.calls));
      created_at_most = omega arith;
      one_more = omega arith;
      requested_at_most = omega arith;
    }
    deploy_from_lem (suc n) i w =
        settled i n w (attempt i w).0 (attempt i w).1 (attempt_lem i w)
          (deploy_from_lem n (i + 1) (attempt i w).1)

    deploy_servers_lem :
        (has_compute : Bool) (w : ComputeWorld cache.State)
        → let out = deploy_servers sdk cache list_limit has_compute cluster_id payload w in
          Numbered payload 0 payload.instance_count out.0 w out.1
    unfolding deploy_servers names_from
    deploy_servers_lem true w = deploy_from_lem payload.instance_count 0 w
    deploy_servers_lem false w = record {
      attempts = 0;
      names = sym (append-nil (asked w.calls));
      created_at_most = omega arith;
      one_more = omega arith;
      requested_at_most = omega arith;
    }

    answered :
        (db : Database ClusterDeployment) (has_compute : Bool)
        (r : Result Exception ClusterDeployment) (s' : db.State) (w : ComputeWorld cache.State)
        → let deployed = deploy_servers sdk cache list_limit has_compute cluster_id payload w in
          Numbered payload 0 payload.instance_count deployed.0 w deployed.1
          → let out : Result Exception BatchDeployResponse × (db.State × ComputeWorld cache.State) =
              elim r [
                | raise e ↦ (raise e, (s', w))
                | ok cluster ↦ (
                  ok (record {
                    template_name = payload.template_name;
                    requested = payload.instance_count;
                    created = deployed.0;
                    operation_task_id = none;
                  }),
                  (s', deployed.1),
                )
              ] in
            Ended
              (λ response t. Numbered payload 0 response.requested response.created w t.1)
              (λ t. t.1 ≡ w)
              out.0
              out.1
    answered db has_compute (ok cluster) s' w h = h
    answered db has_compute (raise e) s' w h = refl

    -- A batch asks Nova for servers whose names are numbered from 1 without a gap, in this order, for no
    -- more than are requested, and for as many as the response counts as created, or one more; a batch
    -- that raises leaves OpenStack as it was.
    pub batch_deploy-Numbered :
        (db : Database ClusterDeployment) (has_compute : Bool) (s : db.State)
        (w : ComputeWorld cache.State)
        → let out = batch_deploy sdk cache list_limit db has_compute cluster_id payload (s, w) in
          Ended
            (λ response t. Numbered payload 0 response.requested response.created w t.1)
            (λ t. t.1 ≡ w)
            out.0
            out.1
    unfolding batch_deploy
    batch_deploy-Numbered db has_compute s w =
        let found_cluster = found db cluster_not_found cluster_id s in
        answered db has_compute found_cluster.0 found_cluster.1 w (deploy_servers_lem has_compute w)
