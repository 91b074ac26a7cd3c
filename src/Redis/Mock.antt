-- ===== src/Redis/Mock.antt =====
-- internal/store/redis/mock_redis.go: the store that the tests run, over a mocked client, and what of it
-- stands for the store of redis_store.go.
use quorum_quest.Prelude.{
  ℤ, pos, is_negative, Bool, true, false, String, str_eq, ◌<>◌, [], ◌≡◌, refl, ap, sym, ◌∙◌, arith,
  if◌then◌else◌,
}
use quorum_quest.Program.{error, ok, err, done, ◌>>=◌, ◌>>◌, request, logs, call_ext}
use quorum_quest.Lease.{seconds, no_lease, unless_zero, unless_zero_lem}
use quorum_quest.Redis.{
  Request, Reply, set_nx, get, del, expire, close, Error, nil, other, error_text, Handler, Store,
  resolve_ttl,
}
use quorum_quest.Redis
use quorum_quest.Redis.Config.{Config}

-- `MockStore` has the fields of `Store`.
abbrev pub MockStore : Type 0
MockStore = Store

unfoldable pub lock_key : MockStore → String → String → String
lock_key s service domain = s.key_prefix <> ":" <> service <> ":" <> domain

-- TryAcquireLock past SET NX.
unfoldable pub refresh_owned : String → String → ℤ → Handler Bool
refresh_owned key client_id lock_ttl = do
  existing_owner ← request (get key)
  elim existing_owner [
    | err nil ↦ done false
    | err (other m) ↦ logs error ("Error checking lock ownership: " <> m) >> done false
    | ok owner ↦ if str_eq owner client_id then refresh else done false
  ]
  where
    refresh : Handler Bool
    refresh = do
      reply ← request (expire key (seconds lock_ttl))
      elim reply [
        | err e ↦ logs error ("Error refreshing lock TTL: " <> error_text e) >> done false
        | ok b ↦ done true
      ]

acquire_key : String → String → ℤ → Handler Bool
unfolding refresh_owned
acquire_key key client_id lock_ttl = do
  success ← request (set_nx key client_id (seconds lock_ttl))
  elim success [
    | err e ↦ logs error ("Error acquiring lock: " <> error_text e) >> done false
    | ok true ↦ done true
    | ok false ↦ refresh_owned key client_id lock_ttl
  ]

unfoldable pub try_acquire_lock : MockStore → String → String → String → ℤ → Handler Bool
unfolding lock_key acquire_key
try_acquire_lock s service domain client_id ttl =
    acquire_key (lock_key s service domain) client_id (unless_zero ttl s.ttl)

delete_owned : String → Handler (Unit {0})
delete_owned key = do
  reply ← request (del key)
  elim reply [ err e ↦ logs error ("Error releasing lock: " <> error_text e) | ok n ↦ done tt ]

unfoldable pub release_lock : MockStore → String → String → String → Handler (Unit {0})
unfolding lock_key delete_owned
release_lock s service domain client_id = do
  let key = lock_key s service domain
  existing_owner ← request (get key)
  elim existing_owner [
    | err nil ↦ done tt
    | err (other m) ↦ logs error ("Error checking lock ownership: " <> m)
    | ok owner ↦ if str_eq owner client_id then delete_owned key else done tt
  ]

extend_owned : String → ℤ → Handler ℤ
extend_owned key lock_ttl = do
  reply ← request (expire key (seconds lock_ttl))
  elim reply [
    | err e ↦ logs error ("Error refreshing lock TTL: " <> error_text e) >> done no_lease
    | ok false ↦ logs error "Failed to refresh lock TTL: key no longer exists" >> done no_lease
    | ok true ↦ done (seconds lock_ttl)
  ]

renew_key : String → String → ℤ → Handler ℤ
unfolding extend_owned
renew_key key client_id lock_ttl = do
  existing_owner ← request (get key)
  elim existing_owner [
    | err nil ↦ done no_lease
    | err (other m) ↦ logs error ("Error checking lock for keep-alive: " <> m) >> done no_lease
    | ok owner ↦ if str_eq owner client_id then extend_owned key lock_ttl else done no_lease
  ]

unfoldable pub keep_alive : MockStore → String → String → String → ℤ → Handler ℤ
unfolding lock_key renew_key
keep_alive s service domain client_id ttl =
    renew_key (lock_key s service domain) client_id (unless_zero ttl s.ttl)

unfoldable pub close_store : Handler (Unit {0})
close_store = do
  reply ← request close
  elim reply [
    | err e ↦ logs error ("Error closing Redis connection: " <> error_text e)
    | ok n ↦ done tt
  ]

abbrev test_config : Config
test_config = record {
  host = "localhost";
  port = pos 6379;
  password = "";
  db = pos 0;
  ttl = pos 15;
  key_prefix = "lock";
  endpoints = [];
  table_name = "locks";
}

-- `SetupMockStore`
unfoldable pub setup_mock_store : MockStore
setup_mock_store = record {
  ttl = test_config.ttl;
  key_prefix = test_config.key_prefix;
  config = test_config;
}

ttl_resolves :
    (s : Store) (ttl : ℤ) → is_negative ttl ≡ false → unless_zero ttl s.ttl ≡ resolve_ttl s ttl
unfolding resolve_ttl
ttl_resolves s ttl h = unless_zero_lem ttl s.ttl h

refresh_agrees :
    (key client_id : String) (lock_ttl : ℤ)
    → refresh_owned key client_id lock_ttl ≡ Redis.refresh_lock_if_owned key client_id lock_ttl
unfolding refresh_owned Redis.refresh_lock_if_owned
refresh_agrees key client_id lock_ttl = call_ext λ owner. ground arith

module _ (s : Store) (service domain client_id : String) where
  acquire_agrees :
      (ttl : ℤ)
      → Redis.try_acquire_lock s service domain client_id ttl
        ≡ acquire_key (lock_key s service domain) client_id (resolve_ttl s ttl)
  unfolding acquire_key lock_key Redis.try_acquire_lock
  acquire_agrees ttl = call_ext λ success.
      ground (arith, refresh_agrees (lock_key s service domain) client_id (resolve_ttl s ttl))

  release_agrees :
      release_lock s service domain client_id ≡ Redis.release_lock s service domain client_id
  unfolding release_lock Redis.release_lock
  release_agrees = call_ext λ owner. ground arith

  renew_agrees :
      (ttl : ℤ)
      → Redis.keep_alive s service domain client_id ttl
        ≡ renew_key (lock_key s service domain) client_id (resolve_ttl s ttl)
  unfolding renew_key lock_key Redis.keep_alive
  renew_agrees ttl = call_ext λ owner. ground arith

close_agrees : close_store ≡ Redis.close_store
unfolding close_store Redis.close_store
close_agrees = refl

-- For a TTL that is not negative the mocked store is the store: each lock call sends the same requests,
-- treats every reply alike, and logs and answers the same.
pub mock_store_agrees :
    (s : Store) (service domain client_id : String) (ttl : ℤ)
    → is_negative ttl ≡ false
    → (try_acquire_lock s service domain client_id ttl
        ≡ Redis.try_acquire_lock s service domain client_id ttl)
      × (release_lock s service domain client_id ≡ Redis.release_lock s service domain client_id)
      × (keep_alive s service domain client_id ttl
          ≡ Redis.keep_alive s service domain client_id ttl)
      × (close_store ≡ Redis.close_store)
unfolding try_acquire_lock keep_alive
mock_store_agrees s service domain client_id ttl h = (
  ap (acquire_key (lock_key s service domain) client_id) (ttl_resolves s ttl h)
      ∙ sym (acquire_agrees s service domain client_id ttl),
  release_agrees s service domain client_id,
  ap (renew_key (lock_key s service domain) client_id) (ttl_resolves s ttl h)
      ∙ sym (renew_agrees s service domain client_id ttl),
  close_agrees,
)
