-- ===== src/InteractionModel/Status.antt =====
-- matter/src/interaction_model/core.rs: the status codes, and `Result<T, IMStatusCode>` with the
-- panics of the language as a third case.
use matter_rs.Base.{
  ℕ, ◌==◌, Bool, Result, ok, err, panic, Error, endpoint_not_found, cluster_not_found,
  attribute_not_found, command_not_found,
}
use matter_rs.Base.Exec.{Exec}
use matter_rs.Base.Bytes.{LittleEndian}
use matter_rs.WriteBuf.{WriteBuf}
use matter_rs.Tlv.Tag.{TagType}
use matter_rs.Tlv.Writer

pub data ImStatusCode : Type 0 where
  success failure invalid_subscription unsupported_access unsupported_endpoint : ImStatusCode
  invalid_action unsupported_command invalid_command unsupported_attribute : ImStatusCode
  constraint_error unsupported_write resource_exhausted not_found : ImStatusCode
  unreportable_attribute invalid_data_type unsupported_read data_version_mismatch : ImStatusCode
  timeout busy unsupported_cluster no_upstream_subscription : ImStatusCode
  needs_timed_interaction : ImStatusCode

-- The discriminants.
unfoldable pub status_number : ImStatusCode → ℕ
status_number success = 0
status_number failure = 1
status_number invalid_subscription = 0x7d
status_number unsupported_access = 0x7e
status_number unsupported_endpoint = 0x7f
status_number invalid_action = 0x80
status_number unsupported_command = 0x81
status_number invalid_command = 0x85
status_number unsupported_attribute = 0x86
status_number constraint_error = 0x87
status_number unsupported_write = 0x88
status_number resource_exhausted = 0x89
status_number not_found = 0x8b
status_number unreportable_attribute = 0x8c
status_number invalid_data_type = 0x8d
status_number unsupported_read = 0x8f
status_number data_version_mismatch = 0x92
status_number timeout = 0x94
status_number busy = 0x9c
status_number unsupported_cluster = 0xc3
status_number no_upstream_subscription = 0xc5
status_number needs_timed_interaction = 0xc6

-- The derived `PartialEq`, which compares discriminants.
unfoldable pub status_eq : ImStatusCode → ImStatusCode → Bool
unfolding status_number
status_eq a b = status_number a == status_number b

unfoldable pub from_error : Error → ImStatusCode
from_error endpoint_not_found = unsupported_endpoint
from_error cluster_not_found = unsupported_cluster
from_error attribute_not_found = unsupported_attribute
from_error command_not_found = unsupported_command
from_error _ = failure

module _ ⦃le : LittleEndian⦄ where
  unfoldable pub to_tlv : TagType → ImStatusCode → Exec WriteBuf (Unit {0})
  unfolding status_number Writer.u16
  to_tlv tag status = Writer.u16 tag (status_number status)

pub data ImResult {ℓ} (A : Type ℓ) : Type ℓ where
  done : A → ImResult A
  refused : ImStatusCode → ImResult A
  crashed : ImResult A

-- A method on `&mut self`, or a closure with state, that answers a status code where it fails.
abbrev pub ImExec {ℓ κ} : Type ℓ → Type κ → Type (ℓ ⊔ κ)
ImExec S A = S → ImResult A × S

-- The `?` operator, from an `Error` to a status code.
abbrev pub converted {ℓ} : {A : Type ℓ} → Result A → ImResult A
converted (ok a) = done a
converted (err e) = refused (from_error e)
converted panic = crashed

-- `map_err(|_| status)`.
abbrev pub or_status {ℓ} : {A : Type ℓ} → ImStatusCode → Result A → ImResult A
or_status status (ok a) = done a
or_status status (err e) = refused status
or_status status panic = crashed

module _ {ℓ κ} {A : Type ℓ} {B : Type κ} where
  -- The `?` operator, on a value that carries no state.
  abbrev pub im_then : ImResult A → (A → ImResult B) → ImResult B
  im_then (done a) f = f a
  im_then (refused x) f = refused x
  im_then crashed f = crashed
