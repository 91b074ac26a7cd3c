-- ===== src/Scylla/Setup.antt =====
-- Configuration and construction: internal/store/scylladb/scylladbconfig.go, and `New` of
-- scylladb_store.go.
use quorum_quest.Prelude.{
  ℤ, is_positive, true, String, text_ne, none, some, [], ◌≡◌, refl, sym, subst, ◌≢◌, ◌↔◌, arith,
}
use quorum_quest.Program.{Server, execute, ok}
use quorum_quest.Scylla.{
  Request, Reply, Store, new, init_session, fresh_store, prepare_queries, parse_consistency, quorum,
}
use quorum_quest.Scylla.Config.{Config, validate, new_config}
use quorum_quest.Scylla.Server.{IsPrepared}

pub record IsConfigured (c : Config) : Type 0 where
  pub host_given : c.host ≢ ""
  pub port_positive : is_positive c.port ≡ true
  pub keyspace_given : c.keyspace ≢ ""
  pub table_given : c.table ≢ ""
  pub ttl_positive : is_positive c.ttl ≡ true
  pub consistency_given : c.consistency ≢ ""
  pub endpoint_given : c.endpoints ≢ []

-- `Validate` returns no error exactly for the configurations with a host, a keyspace, a table, a
-- consistency level and an endpoint, and with a positive port and a positive TTL.
pub validate_iff_one_endpoint : (c : Config) → (validate c ≡ none) ↔ IsConfigured c
unfolding validate
validate_iff_one_endpoint c = (λ h. ground arith, λ h. ground arith)

new_config_valid : validate new_config ≡ none
unfolding validate new_config
new_config_valid = ground (
  arith,
  text_ne "127.0.0.1" "" refl,
  text_ne "quorum-quest" "" refl,
  text_ne "services" "" refl,
  text_ne "CONSISTENCY_QUORUM" "" refl,
)

init_session_result :
    (S : Server Request Reply) (format_int : ℤ → String) (s : Store) (st : S.State)
    → (execute S (init_session format_int s) st).0 ≡ prepare_queries s
unfolding init_session
init_session_result S format_int s st = ground arith

prepare_queries-IsPrepared : (s : Store) → IsPrepared (prepare_queries s)
unfolding prepare_queries
prepare_queries-IsPrepared s = record { inserts = refl; selects = refl; deletes = refl }

-- A store that `New` returns has its statements ready for the quoted name of the configured table, even
-- if the keyspace, the table or the index could not be created.
pub new-IsPrepared :
    (S : Server Request Reply) (format_int : ℤ → String) (c : Config) (st : S.State) (s : Store)
    → (execute S (new format_int (some c)) st).0 ≡ ok s
    → IsPrepared s × (s ≡ prepare_queries (fresh_store c))
unfolding new
new-IsPrepared S format_int c st s e =
    let same : s ≡ prepare_queries (fresh_store c) = ground arith in
    (subst IsPrepared (sym same) (prepare_queries-IsPrepared (fresh_store c)), same)

-- Unknown names of consistency levels mean a quorum.
pub parse_consistency_default :
    (c : String) → c ≢ "CONSISTENCY_ONE" → c ≢ "CONSISTENCY_ALL" → parse_consistency c ≡ quorum
unfolding parse_consistency
parse_consistency_default c p q = ground arith
