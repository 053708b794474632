-- ===== src/Base/Errors.antt =====
-- matter/src/error.rs: the error codes, and `Result<T, Error>` with the panics of the language as
-- a third case: a panic is no value of the source, it ends the thread.
use mathlib.Core.Bool.{Bool, true, false}
use mathlib.Core.Option.{Option, none, some}

pub data Error : Type 0 where
  attribute_not_found attribute_is_custom cluster_not_found command_not_found : Error
  endpoint_not_found crypto tls_stack mdns_error network no_command no_endpoint : Error
  no_exchange no_fabric_id no_handler no_network_interface no_node_id no_session : Error
  no_space no_space_ack_table no_space_retrans_table no_tag_found not_found : Error
  packet_pool_exhaust std_io_error sys_time_fail invalid invalid_aad invalid_data : Error
  invalid_key_length invalid_opcode invalid_peer_addr invalid_auth_key : Error
  invalid_signature invalid_state rw_lock tlv_not_found tlv_type_mismatch : Error
  truncated_packet : Error

pub data Result {ℓ} (A : Type ℓ) : Type ℓ where
  ok : A → Result A
  err : Error → Result A
  panic : Result A

-- `Option::ok_or`.
abbrev pub ok_or {ℓ} : {A : Type ℓ} → Option A → Error → Result A
ok_or none e = err e
ok_or (some a) e = ok a

-- The `?` operator, on a value that carries no state.
abbrev pub and_then {ℓ κ} : {A : Type ℓ} {B : Type κ} → Result A → (A → Result B) → Result B
and_then (ok a) f = f a
and_then (err e) f = err e
and_then panic f = panic

abbrev pub is_ok {ℓ} : {A : Type ℓ} → Result A → Bool
is_ok (ok a) = true
is_ok (err e) = false
is_ok panic = false
