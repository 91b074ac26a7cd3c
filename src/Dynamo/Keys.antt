-- ===== src/Dynamo/Keys.antt =====
-- The primary keys of internal/store/dynamodb/dynamodb_store.go: service and domain, joined by a colon.
use quorum_quest.Prelude.{String, ◌<>◌, ◌≡◌, ◌≢◌}
use quorum_quest.Prelude.Colon.{NoColon, split_colon, regroup_colon, extended_ne}
use quorum_quest.Dynamo.{lock_key}

-- Two locks have one primary key only if they are the same lock, where no service name holds a colon.
pub primary_key_injective :
    (service service' domain domain' : String)
    → NoColon service
    → NoColon service'
    → lock_key service domain ≡ lock_key service' domain'
    → (service ≡ service') × (domain ≡ domain')
unfolding lock_key
primary_key_injective service service' domain domain' = split_colon service service' domain domain'

-- A service `a:b` with domain `d` is another lock than service `a` with domain `b:d`, and has its
-- primary key.
pub primary_key_collision :
    (a b d : String)
    → (lock_key (a <> ":" <> b) d ≡ lock_key a (b <> ":" <> d)) × (a <> ":" <> b ≢ a)
unfolding lock_key
primary_key_collision a b d = (regroup_colon a b d, extended_ne a b)
