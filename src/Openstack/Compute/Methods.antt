-- ===== src/Openstack/Compute/Methods.antt =====
-- app/services/openstack/compute_service.py: the conditions on the cache and on the calls made that
-- the methods of ComputeService keep or bring about.
use v_machine.Prelude.{
  ℕ, ◌≡◌, refl, String, Bool, true, false, Option, none, some, List, [], ◌∷◌, ◌++◌, ◌⊎◌, inl, inr,
  Option-cases,
}
use v_machine.Prelude.Exec.{pure, ◌>>=◌, ◌>>◌}
use v_machine.Prelude.Hoare.{Triple, bind-Triple, weaken}
use v_machine.Cache.Backend.{Backend}
use v_machine.Openstack.Server.{Server}
use v_machine.Openstack.Calls as Calls
use v_machine.Openstack.Client.{Listing, call}
use v_machine.Openstack.Calls.{
  ComputeCall, get_server, get_image, get_flavor, get_network, get_keypair, get_volume,
  wait_for_server, volume_attachments, create_volume_attachment, delete_volume_attachment,
  Attachment, ComputeSdk, ComputeWorld, ComputeAction, Reply,
}
use v_machine.Openstack.Summary.{
  Item, ServerCreateRequest, serialize_server_summary, unless_empty, create_kwargs,
}
use v_machine.Openstack.Cached.{required, deleted_or, cache_invalidate}
use v_machine.Openstack.Compute.{
  find_server, check_keypair, awaited, create_server, delete_server, attach_volume, detach_volume,
  first_match, attachment_of,
}
use v_machine.Openstack.Compute.Steps.{
  asks, Seen, Ignores, call_lem, call_keeps, required_keeps, keeps_then,
}

module _ (sdk : ComputeSdk) (cache : Backend (List Item)) (list_limit : ℕ) where
  abbrev State : Type 0
  State = cache.State

  module _ (J : State → List ComputeCall → Type 0) (ignores : Ignores sdk J) where
    pub find_server_keeps :
        (server_id : String)
        → Triple
            (Seen sdk J)
            (find_server sdk cache list_limit server_id)
            (λ a. Seen sdk J)
            (Seen sdk J)
    unfolding find_server
    find_server_keeps server_id =
        keeps_then sdk J ignores (call sdk (get_server server_id)) _ (λ w h. h)
          (call_keeps sdk J ignores (get_server server_id) refl)
          (required_keeps sdk J ignores "Server not found" "server_not_found")

    pub check_keypair_keeps :
        (key_name : Option String)
        → Triple
            (Seen sdk J)
            (check_keypair sdk cache list_limit key_name)
            (λ a. Seen sdk J)
            (Seen sdk J)
    unfolding check_keypair
    check_keypair_keeps none = record { after = λ w h. h }
    check_keypair_keeps (some key_name) =
        keeps_then sdk J ignores (call sdk (get_keypair key_name)) _ (λ w h. h)
          (call_keeps sdk J ignores (get_keypair key_name) refl)
          (λ keypair.
            keeps_then sdk J ignores (required "Key pair not found" "keypair_not_found" keypair)
              (λ a. pure tt) (λ w h. h)
              (required_keeps sdk J ignores "Key pair not found" "keypair_not_found" keypair)
              (λ a. record { after = λ w h. h }))

    pub awaited_keeps :
        (wait : Bool) (server : Server)
        → Triple
            (Seen sdk J)
            (awaited sdk cache list_limit wait server)
            (λ a. Seen sdk J)
            (Seen sdk J)
    unfolding awaited
    awaited_keeps true server = call_keeps sdk J ignores (wait_for_server server) refl
    awaited_keeps false server = record { after = λ w h. h }

  -- an invalidation, and what follows it
  abbrev pub Dropped : String → (ComputeWorld State → Type 0) → ComputeWorld State → Type 0
  Dropped resource Q w = Q (record w { cache = cache.invalidate resource w.cache })

  module _ (J K : State → List ComputeCall → Type 0) (keepsJ : Ignores sdk J)
      (keepsK : Ignores sdk K) (Q : ComputeWorld State → Type 0) where
    abbrev Ends : ComputeWorld State → Type 0
    Ends w = Seen sdk J w ⊎ Seen sdk K w

    module _ {A B : Type 0} where
      first :
          (m : ComputeAction State A) (f : A → ComputeAction State B)
          → Triple (Seen sdk J) m (λ a. Seen sdk J) (Seen sdk J)
          → ((a : A) → Triple (Seen sdk J) (f a) (λ b. Q) Ends)
          → Triple (Seen sdk J) (m >>= f) (λ b. Q) Ends
      first m f = keeps_then sdk J keepsJ m f (λ w. inl)

    first_call :
        {B : Type 0} (c : ComputeCall)
        → asks c ≡ []
        → (f : Reply c → ComputeAction State B)
        → ((a : Reply c) → Triple (Seen sdk J) (f a) (λ b. Q) Ends)
        → Triple (Seen sdk J) (call sdk c >>= f) (λ b. Q) Ends
    first_call c e f = first (call sdk c) f (call_keeps sdk J keepsJ c e)

    first_required :
        {A B : Type 0} (message code : String) (o : Option A) (f : A → ComputeAction State B)
        → ((a : A) → Triple (Seen sdk J) (f a) (λ b. Q) Ends)
        → Triple (Seen sdk J) (required message code o >>= f) (λ b. Q) Ends
    first_required message code o f =
        first (required message code o) f (required_keeps sdk J keepsJ message code o)

    pub create_server_Triple :
        (payload : ServerCreateRequest)
        → ((s : State) (calls : List ComputeCall)
            → J s calls
            → K s (calls ++ Calls.create_server (create_kwargs payload) ∷ []))
        → ((w : ComputeWorld State) → Seen sdk K w → Dropped "servers" Q w)
        → Triple (Seen sdk J) (create_server sdk cache list_limit payload) (λ a. Q) Ends
    unfolding create_server cache_invalidate
    create_server_Triple payload step drop =
        first_call (get_image payload.image_id) refl _ (λ image.
          first_required "Image not found" "image_not_found" image _ (λ i.
            first_call (get_flavor payload.flavor_id) refl _ (λ flavor.
              first_required "Flavor not found" "flavor_not_found" flavor _ (λ f.
                first_call (get_network payload.network_id) refl _ (λ network.
                  first_required "Network not found" "network_not_found" network _ (λ n.
                    first (check_keypair sdk cache list_limit (unless_empty payload.key_name)) _
                      (check_keypair_keeps J keepsJ (unless_empty payload.key_name))
                      (λ k.
                        bind-Triple (call sdk (Calls.create_server (create_kwargs payload))) _
                          (call_lem sdk J K (Calls.create_server (create_kwargs payload)) step)
                          (λ server.
                            bind-Triple (awaited sdk cache list_limit payload.wait server)
                              (λ s.
                                cache_invalidate cache "servers"
                                >> pure (serialize_server_summary s))
                              (weaken _ (λ a t q. q) (λ t. inr)
                                (awaited_keeps K keepsK payload.wait server))
                              (λ s. record { after = drop })))))))))

    guarded :
        (deleted : Bool)
        → Triple
            (Seen sdk J)
            (deleted_or "Server not found" "server_not_found" deleted)
            (λ a. Seen sdk J)
            (Seen sdk J)
    unfolding deleted_or
    guarded true = record { after = λ w h. h }
    guarded false = record { after = λ w h. h }

    pub delete_server_Triple :
        (server_id : String)
        → ((w : ComputeWorld State) → Seen sdk J w → Dropped "servers" Q w)
        → Triple (Seen sdk J) (delete_server sdk cache list_limit server_id) (λ a. Q) Ends
    unfolding delete_server cache_invalidate
    delete_server_Triple server_id drop =
        first_call (Calls.delete_server server_id) refl _ (λ deleted.
          first (deleted_or "Server not found" "server_not_found" deleted)
            (λ a. cache_invalidate cache "servers") (guarded deleted)
            (λ a. record { after = drop }))

    -- both lists are dropped
    abbrev pub BothDropped : ComputeWorld State → Type 0
    BothDropped w = Dropped "servers" (Dropped "volumes" Q) w

    pub attach_volume_Triple :
        (server_id volume_id : String)
        → ((w : ComputeWorld State) → Seen sdk J w → BothDropped w)
        → Triple (Seen sdk J) (attach_volume sdk cache list_limit server_id volume_id) (λ a. Q) Ends
    unfolding attach_volume cache_invalidate
    attach_volume_Triple server_id volume_id drop =
        first (find_server sdk cache list_limit server_id) _ (find_server_keeps J keepsJ server_id)
          (λ server. first_call (get_volume volume_id) refl _ (λ found.
            first_required "Volume not found" "volume_not_found" found _ (λ volume.
              first_call (create_volume_attachment server volume) refl
                (λ a. cache_invalidate cache "servers" >> cache_invalidate cache "volumes")
                (λ a. record { after = drop }))))

    first_match_keeps :
        (volume_id : String) (listing : Listing Attachment)
        → Triple (Seen sdk J) (first_match volume_id listing) (λ a. Seen sdk J) (Seen sdk J)
    unfolding first_match
    first_match_keeps volume_id (items, failure) = record {
      after = λ w h. elim (Option-cases (attachment_of volume_id items)) [
        | inr (a, e) ↦ rw (e, first_match) h
        | inl e ↦ elim (Option-cases failure) [
          | inl n ↦ rw (e, n, first_match) h
          | inr (x, n) ↦ rw (e, n, first_match) h
        ]
      ];
    }

    pub detach_volume_Triple :
        (server_id volume_id : String)
        → ((w : ComputeWorld State) → Seen sdk J w → BothDropped w)
        → Triple (Seen sdk J) (detach_volume sdk cache list_limit server_id volume_id) (λ a. Q) Ends
    unfolding detach_volume cache_invalidate
    detach_volume_Triple server_id volume_id drop =
        first (find_server sdk cache list_limit server_id) _ (find_server_keeps J keepsJ server_id)
          (λ server. first_call (volume_attachments server) refl _ (λ listing.
            first (first_match volume_id listing) _ (first_match_keeps volume_id listing) (λ found.
              first_required "Volume attachment not found" "attachment_not_found" found _
                (λ attachment.
                  first_call (delete_volume_attachment attachment server) refl
                    (λ a. cache_invalidate cache "servers" >> cache_invalidate cache "volumes")
                    (λ a. record { after = drop })))))
