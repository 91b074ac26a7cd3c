-- ===== src/Store/Errors.antt =====
-- internal/store/errors.go, and the error of internal/store/store.go: the texts of the errors.
use quorum_quest.Prelude.{String, ◌<>◌}
use quorum_quest.Registry.{NewStoreError, unknown_constructor, failed}
use quorum_quest.Registry.Stores.{ConstructError, invalid_configuration, refused}

-- The errors that are compared by identity.
pub data Sentinel : Type 0 where
  not_reachable cannot_lock key_modified key_not_found not_found : Sentinel

unfoldable pub sentinel_text : Sentinel → String
sentinel_text not_reachable = "api not reachable"
sentinel_text cannot_lock = "error acquiring the lock"
sentinel_text key_modified = "unable to complete atomic operation, key modified"
sentinel_text key_not_found = "key not found in store"
sentinel_text not_found = "record not found"

-- `InvalidConfigurationError.Error`, where `type_name` is the name of the configuration's type; `describe`
-- is the text of an error of the store's own.
unfoldable pub construct_error_text :
    {E : Type 0} → (E → String) → String → ConstructError E → String
construct_error_text describe type_name (invalid_configuration store) =
    store <> ": invalid configuration type: " <> type_name
construct_error_text describe type_name (refused e) = describe e

-- `UnknownConstructorError.Error`, where `quote` is Go's %q.
unfoldable pub new_store_error_text :
    {E : Type 0} → (String → String) → (E → String) → NewStoreError E → String
new_store_error_text quote describe (unknown_constructor store) =
    "unknown constructor " <> quote store <> " (forgotten import?)"
new_store_error_text quote describe (failed e) = describe e
