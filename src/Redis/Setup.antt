-- ===== src/Redis/Setup.antt =====
-- Configuration and construction: internal/store/redis/redisconfig.go, and `New` of redis_store.go.
use quorum_quest.Prelude.{
  ℤ, pos, is_positive, is_negative, true, false, String, text_ne, some, ◌≡◌, refl, ◌≢◌, arith,
}
use quorum_quest.Program.{Server, execute, ok}
use quorum_quest.Redis.{Request, Reply, Store, new, resolve_ttl}
use quorum_quest.Redis.Config.{Config, validate}

-- After `Validate` no field that has a default is empty or zero.
pub validate_complete :
    (c : Config)
    → ((validate c).host ≢ "")
      × ((validate c).port ≢ pos 0)
      × ((validate c).ttl ≢ pos 0)
      × ((validate c).key_prefix ≢ "")
      × ((validate c).table_name ≢ "")
unfolding validate
validate_complete c =
    ground (arith, text_ne "localhost" "" refl, text_ne "lock" "" refl, text_ne "locks" "" refl)

-- `Validate` twice is `Validate` once.
pub validate_idempotent : (c : Config) → validate (validate c) ≡ validate c
unfolding validate
validate_idempotent c = ground arith

-- If the configured TTL is not negative, every lock call of a store that `New` returns works with a
-- positive lease, whatever TTL the caller asks for.
pub new_ttl_positive :
    (S : Server Request Reply) (format_int : ℤ → String) (given : Config) (st : S.State) (s : Store)
    (ttl : ℤ)
    → is_negative given.ttl ≡ false
    → (execute S (new format_int (some given)) st).0 ≡ ok s
    → is_positive (resolve_ttl s ttl) ≡ true
unfolding new resolve_ttl validate
new_ttl_positive S format_int given st s ttl h e = ground arith

-- `Validate` lets a negative TTL pass: a call that asks for no TTL then works with a negative lease.
pub new_ttl_negative :
    (S : Server Request Reply) (format_int : ℤ → String) (given : Config) (st : S.State) (s : Store)
    → is_negative given.ttl ≡ true
    → (execute S (new format_int (some given)) st).0 ≡ ok s
    → resolve_ttl s (pos 0) ≡ given.ttl
unfolding new resolve_ttl validate
new_ttl_negative S format_int given st s h e = ground arith
