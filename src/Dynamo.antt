-- ===== src/Dynamo.antt =====
-- internal/store/dynamodb/dynamodb_store.go. A method is a program over the client's requests.
-- `now` is what `time.Now().Unix()` gives at the method's first line: the TTL is a whole number of
-- seconds, so `now.Add(ttl).Unix()` is `now + ttl`.
pub mod Config
pub mod Server
pub mod Leases
pub mod Refinement
pub mod History
pub mod Races
pub mod Keys
pub mod Setup
pub mod Memory
pub mod Mock
pub mod MockClient
mod Tests
use quorum_quest.Prelude.{
  ℕ, ℤ, plus, is_positive, Bool, true, false, not, ◌&&◌, String, str_eq, ◌<>◌, Option, none, some,
  List, [], ◌∷◌, ◌++◌, pos, if◌then◌else◌,
}
use quorum_quest.Program.{
  Level, debug, error, Result, ok, err, Program, done, call, log, ◌>>=◌, ◌>>◌, request, logs,
}
use quorum_quest.Lease.{seconds, no_lease}
use Config.{validate}

-- `types.AttributeValue`: a text, a number (the client sends its decimal digits), or another kind.
pub data Attribute : Type 0 where
  text : String → Attribute
  number : ℤ → Attribute
  binary : Attribute

-- `map[string]types.AttributeValue`.
abbrev pub Item : Type 0
Item = String → Option Attribute

abbrev pub no_attributes : Item
no_attributes name = none

abbrev pub assign : String → Attribute → Item → Item
assign name v item other = if str_eq other name then some v else item other

-- The condition expressions that the store writes, with the values of `:now` and `:clientId`.
pub data Condition : Type 0 where
  attribute_not_exists : String → Condition
  less equal at_least : String → Attribute → Condition
  either both : Condition → Condition → Condition

-- What the store tells the AWS library to load.
pub data LoadOption : Type 0 where
  with_endpoint : String → LoadOption
  with_credentials : String → String → LoadOption
  with_region : String → LoadOption

-- Each request names the table. `get_item` asks for no consistent read. `create_table` asks for a
-- table whose only key is the text attribute "PK", billed by request.
pub data Request : Type 0 where
  put_item : String → Item → Condition → Request
  get_item : String → String → Request
  delete_item : String → String → Request
  update_item : String → String → String → Attribute → Condition → Request
  describe_table : String → Request
  create_table : String → Request
  wait_for_table : String → ℤ → Request
  load_config : List LoadOption → Request

pub data Error : Type 0 where
  condition_failed : Error
  other : String → Error

abbrev error_text : Error → String
error_text condition_failed = "ConditionalCheckFailedException: The conditional request failed"
error_text (other m) = m

abbrev pub Reply : Request → Type 0
Reply (put_item t i c) = Result Error (Unit {0})
Reply (get_item t k) = Result Error (Option Item)
Reply (delete_item t k) = Result Error (Unit {0})
Reply (update_item t k n v c) = Result Error (Unit {0})
Reply (describe_table t) = Result Error (Unit {0})
Reply (create_table t) = Result Error (Unit {0})
Reply (wait_for_table t d) = Result Error (Unit {0})
Reply (load_config os) = Result Error (Unit {0})

abbrev pub Handler : Type 0 → Type 0
Handler = Program Request Reply

pub record Store : Type 0 where
  pub table_name : String
  pub ttl : ℤ
  pub config : Config.Config

-- `GetConfig`
abbrev pub get_config : Store → Config.Config
get_config s = s.config

-- `fmt.Sprintf("%s:%s", service, domain)`
unfoldable pub lock_key : String → String → String
lock_key service domain = service <> ":" <> domain

unfoldable pub resolve_ttl : Store → ℤ → ℤ
resolve_ttl s ttl = if is_positive ttl then ttl else s.ttl

-- The item that `TryAcquireLock` puts.
abbrev pub lock_item : String → String → ℤ → Item
lock_item pk client_id expiry =
    assign "PK" (text pk)
      (assign "ClientID" (text client_id) (assign "ExpiresAt" (number expiry) no_attributes))

-- Its condition: no lock, an expired lock, or the client's own lock.
abbrev pub may_take : String → ℕ → Condition
may_take client_id now =
    either (either (attribute_not_exists "PK") (less "ExpiresAt" (number (pos now))))
      (both (equal "ClientID" (text client_id)) (at_least "ExpiresAt" (number (pos now))))

unfoldable pub try_acquire_lock : Store → ℕ → String → String → String → ℤ → Handler Bool
unfolding lock_key resolve_ttl
try_acquire_lock s now service domain client_id ttl = do
  let pk = lock_key service domain
  let lock_ttl = resolve_ttl s ttl
  let expiry_time = plus now lock_ttl
  reply ←
      request (put_item s.table_name (lock_item pk client_id expiry_time) (may_take client_id now))
  elim reply [ ok u ↦ done true | err e ↦ done false ]

-- `ownsLock`; `none` is the nil map.
unfoldable pub owns_lock : Option Item → String → Bool
owns_lock none client_id = false
owns_lock (some item) client_id = elim (item "ClientID") [
  | none ↦ false
  | some a ↦ elim a [ text owner ↦ str_eq owner client_id | _ ↦ false ]
]

unfoldable pub get_lock_item : Store → String → Handler (Result Error (Option Item))
get_lock_item s pk = request (get_item s.table_name pk)

delete_lock : Store → String → Handler (Unit {0})
delete_lock s pk = do
  reply ← request (delete_item s.table_name pk)
  elim reply [ ok u ↦ done tt | err e ↦ logs error ("Error releasing lock: " <> error_text e) ]

unfoldable pub release_lock : Store → String → String → String → Handler (Unit {0})
unfolding lock_key owns_lock get_lock_item delete_lock
release_lock s service domain client_id = do
  let pk = lock_key service domain
  reply ← get_lock_item s pk
  elim reply [
    | err e ↦ logs error ("Error checking lock ownership: " <> error_text e)
    | ok item ↦ if not (owns_lock item client_id) then done tt else delete_lock s pk
  ]

unfoldable pub keep_alive : Store → ℕ → String → String → String → ℤ → Handler ℤ
unfolding lock_key resolve_ttl
keep_alive s now service domain client_id ttl = do
  let pk = lock_key service domain
  let lock_ttl = resolve_ttl s ttl
  let expiry_time = plus now lock_ttl
  reply ← request (
      update_item s.table_name pk "ExpiresAt" (number expiry_time)
        (equal "ClientID" (text client_id)))
  elim reply [
    | err e ↦ logs debug ("Failed to keep lock alive: " <> error_text e) >> done no_lease
    | ok u ↦ done (seconds lock_ttl)
  ]

-- `Close`
unfoldable pub close_store : Handler (Unit {0})
close_store = done tt

pub data NewError : Type 0 where
  nil_config nil_logger : NewError
  invalid : String → NewError
  load_failed create_failed wait_failed : Error → NewError

unfoldable pub create_table_request : Store → Handler (Option NewError)
create_table_request s = do
  reply ← request (create_table s.table_name)
  elim reply [
    | ok u ↦ done none
    | err e ↦
        logs error ("Failed to create table: " <> error_text e) >> done (some (create_failed e))
  ]

-- Waits for five minutes at most.
unfoldable pub wait_for_table_active : Store → Handler (Option NewError)
wait_for_table_active s = do
  reply ← request (wait_for_table s.table_name (seconds (pos 300)))
  elim reply [
    | ok u ↦ done none
    | err e ↦
        logs error ("Failed to wait for table creation: " <> error_text e)
        >> done (some (wait_failed e))
  ]

unfoldable pub ensure_table_exists : Store → Handler (Option NewError)
unfolding create_table_request wait_for_table_active
ensure_table_exists s = do
  described ← request (describe_table s.table_name)
  elim described [
    | ok u ↦ done none
    | err e ↦ do
      created ← create_table_request s
      elim created [ some failure ↦ done (some failure) | none ↦ wait_for_table_active s ]
  ]

endpoint_option : List String → List LoadOption
endpoint_option [] = []
endpoint_option (e ∷ es) = with_endpoint e ∷ []

credentials_option : Config.Config → List LoadOption
credentials_option c =
    if not (str_eq c.access_key_id "") && not (str_eq c.secret_access_key "")
    then with_credentials c.access_key_id c.secret_access_key ∷ []
    else []

-- The options of `createDynamoDBClient`, in their order.
unfoldable pub client_options : Config.Config → List LoadOption
unfolding endpoint_option credentials_option
client_options c =
    endpoint_option c.endpoints ++ (credentials_option c ++ (with_region c.region ∷ []))

unfoldable pub create_client : Config.Config → Handler (Option NewError)
unfolding client_options
create_client c = do
  reply ← request (load_config (client_options c))
  elim reply [
    | ok u ↦ done none
    | err e ↦
        logs error ("Failed to load AWS config: " <> error_text e) >> done (some (load_failed e))
  ]

start_store : Config.Config → Handler (Result NewError Store)
unfolding create_client ensure_table_exists
start_store config = do
  failed ← create_client config
  elim failed [
    | some failure ↦ done (err failure)
    | none ↦ do
      let store : Store = record { table_name = config.table; ttl = config.ttl; config = config }
      missing ← ensure_table_exists store
      elim missing [ some failure ↦ done (err failure) | none ↦ done (ok store) ]
  ]

-- `NewStore`; the Boolean says whether there is a logger.
unfoldable pub new_store : Option Config.Config → Bool → Handler (Result NewError Store)
unfolding start_store
new_store none logger = done (err nil_config)
new_store (some config) false = done (err nil_logger)
new_store (some config) true = elim (validate config) [
  | some message ↦ done (err (invalid message))
  | none ↦ start_store config
]
