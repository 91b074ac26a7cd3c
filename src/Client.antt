-- ===== src/Client.antt =====
-- client/go/quorum-quest-client/client.go: what a client keeps of its own leadership, and the callbacks
-- that it starts. A method takes the server's answer to its one request.
pub mod Leadership
pub mod Notifications
pub mod Construction
pub mod Shutdown
mod Tests
use quorum_quest.Prelude.{
  ℕ, suc, ℤ, pos, negsuc, sub_ℕ, ◌/◌, is_positive, is_negative, ltb_ℤ, Bool, true, false, not,
  String, str_eq, Option, none, some, List, [], ◌∷◌, ◌++◌, if◌then◌else◌,
}
use quorum_quest.Program.{Result, ok, err}
use quorum_quest.Lease.{seconds}

-- The leadership callbacks, in the order in which they are started.
pub data Event : Type 0 where
  elected : Bool → Event
  lost : Event

-- The object that gets the callbacks, and the one that sends the requests: the client's own, or one
-- that an option gives, known by a number.
pub data Callbacks : Type 0 where
  no_op : Callbacks
  given : ℕ → Callbacks

pub data Stub : Type 0 where
  dialled : String → Stub
  injected : ℕ → Stub

-- `running` says that `notifyStop` is not nil.
pub record Client : Type 0 where
  pub running : Bool
  pub ttl : ℤ
  pub remaining_lease : ℤ
  pub service : String
  pub domain : String
  pub id : String
  pub stub : Stub
  pub callbacks : Callbacks
  pub is_leader : Bool

pub record LockRequest : Type 0 where
  pub client_id : String
  pub service : String
  pub domain : String
  pub ttl : ℤ

pub record ReleaseRequest : Type 0 where
  pub client_id : String
  pub service : String
  pub domain : String

pub data Error : Type 0 where
  acquire_failed release_failed keep_alive_failed : String → Error
  empty_service empty_domain ttl_not_positive empty_address already_running : Error
  not_connected : String → Error

-- `time.Duration(-1)`, one nanosecond below zero.
abbrev pub no_remaining : ℤ
no_remaining = negsuc 0

-- Division of an integer by a positive number, towards zero.
abbrev pub quotient : ℤ → ℕ → ℤ
quotient (pos n) d = pos (n / d)
quotient (negsuc n) d = sub_ℕ 0 (suc n / d)

-- `int32(d.Seconds())`, for durations of less than 2^22 seconds, where no rounding of the floating
-- point number reaches the next second.
abbrev pub to_seconds : ℤ → ℤ
to_seconds d = quotient d 1000000000

unfoldable pub lock_request : Client → LockRequest
lock_request q = record {
  client_id = q.id;
  service = q.service;
  domain = q.domain;
  ttl = to_seconds q.ttl;
}

unfoldable pub release_request : Client → ReleaseRequest
release_request q = record { client_id = q.id; service = q.service; domain = q.domain }

-- The callback for a change of leadership, in `TryAcquireLock`.
unfoldable pub announce : Bool → Bool → List Event
announce true true = []
announce false false = []
announce was_leader leader =
    if leader then elected true ∷ [] else if was_leader then lost ∷ [] else elected false ∷ []

abbrev pub lost_if : Bool → List Event
lost_if was_leader = if was_leader then lost ∷ [] else []

-- The client that leads no more.
abbrev pub reset : Client → Client
reset q = record q { is_leader = false; remaining_lease = no_remaining }

-- `TryAcquireLock`
unfoldable pub try_acquire_lock :
    (LockRequest → Result String Bool) → Client → Result Error Bool × Client × List Event
unfolding announce lock_request
try_acquire_lock send q = elim (send (lock_request q)) [
  | err m ↦ (err (acquire_failed m), q, [])
  | ok leader ↦ (
    ok leader,
    record q { is_leader = leader; remaining_lease = if leader then q.ttl else no_remaining },
    announce q.is_leader leader,
  )
]

-- `ReleaseLock`. The state is reset before the request is sent.
unfoldable pub release_lock :
    (ReleaseRequest → Result String (Unit {0}))
    → Client
    → Result Error (Unit {0}) × Client × List Event
unfolding release_request
release_lock send q = elim (send (release_request q)) [
  | err m ↦ (err (release_failed m), reset q, [])
  | ok u ↦ (ok tt, reset q, lost_if q.is_leader)
]

-- `keepAlive`, with the lease's length as the answer.
unfoldable pub keep_alive :
    (LockRequest → Result String ℤ) → Client → Result Error ℤ × Client × List Event
unfolding lock_request
keep_alive send q = elim (send (lock_request q)) [
  | err m ↦ (err (keep_alive_failed m), q, [])
  | ok lease ↦
      if is_negative lease
      then (ok lease, reset q, lost_if q.is_leader)
      else (ok lease, record q { remaining_lease = lease }, [])
]

-- What the goroutine does when its ticker fires: whether it goes on, the client, the callbacks.
unfoldable pub tick : (LockRequest → Result String ℤ) → Client → Bool × Client × List Event
unfolding keep_alive
tick send q =
    let (answer, q', es) = keep_alive send q in
    elim answer [
      | err e ↦ (false, reset q', es ++ lost_if q'.is_leader)
      | ok lease ↦
          if is_negative lease
          then (false, reset q', es ++ lost_if q'.is_leader)
          else (true, q', es)
    ]

-- `GetRemainingLease` and `IsLeader`
unfoldable pub get_remaining_lease : Client → ℤ
get_remaining_lease q = q.remaining_lease

unfoldable pub is_leader : Client → Bool
is_leader q = q.is_leader

-- The ticker's interval.
unfoldable pub refresh_interval : Client → ℤ
refresh_interval q =
    if ltb_ℤ (quotient q.ttl 3) (seconds (pos 3)) then seconds (pos 3) else quotient q.ttl 3

-- `StartKeepAlive`, but for the goroutine.
unfoldable pub start_keep_alive : Client → Result Error (Unit {0}) × Client
start_keep_alive q =
    if q.running then (err already_running, q) else (ok tt, record q { running = true })

-- `StopKeepAlive`, when it returns.
unfoldable pub stop_keep_alive : Client → Client
stop_keep_alive q = record q { running = false }

-- `Close` of a client with a connection, when it returns: `closed` is the error of closing that.
unfoldable pub close_client : Option String → Client → Option String × Client
unfolding stop_keep_alive
close_client closed q = (closed, stop_keep_alive q)

pub data ClientOption : Type 0 where
  with_server_stub : Stub → ClientOption
  with_client_id : String → ClientOption
  with_callbacks : Option Callbacks → ClientOption

unfoldable pub apply : ClientOption → Client → Client
apply (with_server_stub s) q = record q { stub = s }
apply (with_client_id i) q = if str_eq i "" then q else record q { id = i }
apply (with_callbacks none) q = q
apply (with_callbacks (some c)) q = record q { callbacks = c }

unfoldable pub apply_all : List ClientOption → Client → Client
unfolding apply
apply_all [] q = q
apply_all (o ∷ os) q = apply_all os (apply o q)

-- `NewQuorumQuestClient`. `dial` is `grpc.Dial`, with the text of its error, and `uuid` the new name.
unfoldable pub new_client :
    (String → Option String)
    → String
    → String
    → String
    → ℤ
    → String
    → List ClientOption
    → Result Error Client
unfolding apply_all
new_client dial uuid service domain ttl address options =
    if str_eq service ""
    then err empty_service
    else if str_eq domain ""
    then err empty_domain
    else if not (is_positive ttl)
    then err ttl_not_positive
    else if str_eq address ""
    then err empty_address
    else elim (dial address) [
      | some m ↦ err (not_connected m)
      | none ↦ ok (
          apply_all options (record {
            running = false;
            ttl = ttl;
            remaining_lease = no_remaining;
            service = service;
            domain = domain;
            id = uuid;
            stub = dialled address;
            callbacks = no_op;
            is_leader = false;
          }))
    ]
