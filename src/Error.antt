-- ===== src/Error.antt =====
-- src/tree/error.rs: the errors of the service. `X` is the type of the error values of other crates.

pub data TreeAvailabilityError (X : Type 0) : Type 0 where
  missing_transaction : TreeAvailabilityError X
  unrecognized_transaction : TreeAvailabilityError X
  transaction_hash_not_found : TreeAvailabilityError X
  block_number_not_found : TreeAvailabilityError X
  transaction_not_found : TreeAvailabilityError X
  unrecognized_function_selector : TreeAvailabilityError X
  middleware_error : X → TreeAvailabilityError X
  provider_error : X → TreeAvailabilityError X
  contract_error : X → TreeAvailabilityError X
  abi_codec_error : X → TreeAvailabilityError X
  eth_abi_error : X → TreeAvailabilityError X
  hyper_error : X → TreeAvailabilityError X
  send_log_error : X → TreeAvailabilityError X

pub data TreeError : Type 0 where
  tree_not_synced : TreeError
