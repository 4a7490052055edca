-- ===== src/Openstack/Keypairs.antt =====
-- app/services/openstack/keypair_service.py, KeypairService, with app/schemas/openstack/keypair.py.
use v_machine.Prelude.{String, Bool, Option, none, some, List, [], ◌∷◌, map}
use v_machine.Prelude.Exec.{pure, throw, ◌>>=◌, ◌>>◌}
use v_machine.Prelude.Text.{f_string}
use v_machine.Openstack.Server.{app, sdk_error}
use v_machine.Openstack.Client.{Api, Listing, Sdk, Action, call, listed}
use v_machine.Openstack.Cached.{required, deleted_or, attribute}

-- The attributes that are read of a keypair of the SDK, and kept.
pub record Keypair : Type 0 where
  pub name : Option String
  pub fingerprint : Option (Option String)

pub record KeypairSummary : Type 0 where
  pub name : Option String
  pub public_key : Option String
  pub fingerprint : Option String

pub record KeypairCreateRequest : Type 0 where
  pub name : String
  pub public_key : Option String

-- A call; `find_keypair` and `delete_keypair` have ignore_missing=True.
pub data KeypairCall : Type 0 where
  keypairs : KeypairCall
  find_keypair delete_keypair : String → KeypairCall

abbrev operation_of : KeypairCall → String
operation_of keypairs = "keypairs"
operation_of (find_keypair name) = "find_keypair"
operation_of (delete_keypair name) = "delete_keypair"

abbrev Reply : KeypairCall → Type 0
Reply keypairs = Listing Keypair
Reply (find_keypair name) = Option Keypair
Reply (delete_keypair name) = Bool

abbrev pub keypair_api : Api
keypair_api = record {
  Call = KeypairCall;
  service_of = λ c. "compute";
  operation_of = operation_of;
  Reply = Reply;
}

-- KeypairSummary has no field for the type, and drops it.
abbrev pub keypair_summary : Keypair → KeypairSummary
keypair_summary kp = record {
  name = kp.name;
  public_key = none;
  fingerprint = attribute (some "") kp.fingerprint;
}

module _ {S : Type 0} (sdk : Sdk keypair_api) where
  unfoldable pub list_keypairs : Action keypair_api S (List KeypairSummary)
  list_keypairs = do
    listing ← call sdk keypairs
    items ← listed listing
    pure (map keypair_summary items)

  unfoldable pub get_keypair_summary : String → Action keypair_api S KeypairSummary
  get_keypair_summary keypair_name = do
    kp ← call sdk (find_keypair keypair_name)
    kp ← required "Keypair not found" "keypair_not_found" kp
    pure (keypair_summary kp)

  -- `if existing: raise AppException(…, 409, …)`
  unfoldable pub refuse_keypair : String → Option Keypair → Action keypair_api S (Unit {0})
  refuse_keypair name none = pure tt
  refuse_keypair name (some existing) =
      throw
        (app (f_string ("Keypair '" ∷ name ∷ "' already exists" ∷ [])) 409 "keypair_already_exists")

  -- The request has no attribute `type`, which is read next.
  unfoldable pub create_keypair : KeypairCreateRequest → Action keypair_api S KeypairSummary
  create_keypair payload = do
    existing ← call sdk (find_keypair payload.name)
    refuse_keypair payload.name existing
    throw (sdk_error "AttributeError")

  unfoldable pub remove_keypair : String → Action keypair_api S (Unit {0})
  remove_keypair keypair_name = do
    deleted ← call sdk (delete_keypair keypair_name)
    deleted_or "Keypair not found" "keypair_not_found" deleted
