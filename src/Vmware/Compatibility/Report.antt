-- ===== src/Vmware/Compatibility/Report.antt =====
-- app/services/vmware/compatibility.py: the report that the checks extend, the tables of guest
-- systems, and the readings of optional fields that the checks share.
use v_machine.Prelude.{
  ℕ, String, Bool, true, false, ◌||◌, Option, none, some, List, [], ◌∷◌, ◌++◌, map, any, sum,
  str_eq,
}
use v_machine.Prelude.Text.{contains}
use v_machine.Prelude.Dict.{Counter, incr}
use v_machine.Vmware.Inventory.{VmDisk}
use v_machine.Vmware.Assessment.{Issue}

pub record Report : Type 0 where
  pub issues : List Issue
  pub unsupported : Counter

-- `guest_os or ""`
abbrev pub or_empty : Option String → String
or_empty none = ""
or_empty (some s) = s

unfoldable pub supported_os_prefixes : List String
supported_os_prefixes =
    "centos" ∷ "debian" ∷ "ubuntu" ∷ "red hat" ∷ "rhel" ∷ "suse" ∷ "sles" ∷ "oracle linux"
    ∷ "rocky linux" ∷ "almalinux" ∷ "fedora" ∷ "freebsd" ∷ "windows server" ∷ "windows 10"
    ∷ "windows 11" ∷ "windows 8" ∷ "windows 2012" ∷ "windows 2016" ∷ "windows 2019" ∷ "windows 2022"
    ∷ []

unfoldable pub unsupported_os_prefixes : List String
unsupported_os_prefixes =
    "solaris" ∷ "hp-ux" ∷ "aix" ∷ "darwin" ∷ "mac os" ∷ "os/2" ∷ "netware" ∷ []

-- `_add_issue`; its default is `compatible = false`
unfoldable pub add_issue : String → String → String → Bool → Report → Report
add_issue severity category message compatible r = record r {
  issues =
      r.issues
      ++ record {
        severity = severity;
        category = category;
        message = message;
        compatible = compatible;
      }
        ∷ [];
}

-- vmw_unsupported_hardware_total.labels(category=…).inc()
unfoldable pub count_unsupported : String → Report → Report
count_unsupported category r = record r { unsupported = incr category r.unsupported }

-- the two loops over the prefixes: the first hit returns
unfoldable pub os_is_unsupported : String → Bool
unfolding unsupported_os_prefixes
os_is_unsupported os_lower = any (λ part. contains part os_lower) unsupported_os_prefixes

unfoldable pub os_is_supported : String → Bool
unfolding supported_os_prefixes
os_is_supported os_lower = any (λ part. contains part os_lower) supported_os_prefixes

-- sum(d.capacity_gb for d in disks)
abbrev pub total_capacity : List VmDisk → ℕ
total_capacity disks = sum (map (λ d. d.capacity_gb) disks)

-- `not hw.disks`, and so on
abbrev pub is_empty {ℓ} : {A : Type ℓ} → List A → Bool
is_empty [] = true
is_empty (x ∷ xs) = false

abbrev pub truthy : Option Bool → Bool
truthy none = false
truthy (some b) = b

-- item in seen
unfoldable pub member : String → List String → Bool
member s [] = false
member s (x ∷ xs) = str_eq x s || member s xs
