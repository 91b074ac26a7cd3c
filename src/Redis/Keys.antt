-- ===== src/Redis/Keys.antt =====
-- The keys of internal/store/redis/redis_store.go: prefix, service and domain, joined by colons.
use text.Mathlib.TextLemmas.{append_cancel_left}
use quorum_quest.Prelude.{String, ◌<>◌, ◌≡◌, ◌≢◌, ap}
use quorum_quest.Prelude.Colon.{NoColon, split_colon, regroup_colon, extended_ne}
use quorum_quest.Redis.{Store, lock_key}

-- Two locks have one key only if they are the same lock, where no service name holds a colon.
pub lock_key_injective :
    (s : Store) (service service' domain domain' : String)
    → NoColon service
    → NoColon service'
    → lock_key s service domain ≡ lock_key s service' domain'
    → (service ≡ service') × (domain ≡ domain')
unfolding lock_key
lock_key_injective s service service' domain domain' p q h =
    split_colon service service' domain domain' p q
      (append_cancel_left ":" _ _ (append_cancel_left s.key_prefix _ _ h))

-- A service `a:b` with domain `d` is another lock than service `a` with domain `b:d`, and has its key.
pub lock_key_collision :
    (s : Store) (a b d : String)
    → (lock_key s (a <> ":" <> b) d ≡ lock_key s a (b <> ":" <> d)) × (a <> ":" <> b ≢ a)
unfolding lock_key
lock_key_collision s a b d =
    (ap (λ k. s.key_prefix <> ":" <> k) (regroup_colon a b d), extended_ne a b)
