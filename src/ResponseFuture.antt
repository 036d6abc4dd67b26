-- ===== src/ResponseFuture.antt =====
-- `ResponseFuture` of cassandra/cluster.py: a request walks down its query plan, is retried as the
-- retry policy says, and is prepared again where a host does not know its statement. Hosts are
-- numbers. What the pools and the servers do is the environment's choice: the outcome of each
-- `_query`, each response, and the order in which the executor runs the submitted tasks.
pub mod Sending
pub mod Steps
pub mod Progress
pub mod Attempts
pub mod Late
pub mod Keyspaces
pub mod Changes
use python_driver.Prelude.{
  ◌≡◌, ℕ, zero, suc, ◌+◌, ◌-◌, Bool, true, false, ◌||◌, leb, Option, none, some, List, [], ◌∷◌,
  ◌++◌, if◌then◌else◌,
}
use python_driver.Policies.Retry.{
  ConsistencyLevel, Failure, Verdict, Decision, retry, rethrow, ignore, retry_next_host,
}

pub data Cause : Type 0 where
  no_pool pool_is_shutdown at_capacity query_failed : Cause
  server_error connection_error no_host_available timed_out keyspace_errors unexpected : Cause

-- Whose callback is registered under the stream id that the request has kept: that of its own message at a place
-- in flight, or, after the message was answered, that of another request which was given the id. A place
-- that is not in flight stands for no callback.
pub data Registered : Type 0 where
  own_message : ℕ → Registered
  other_request : Registered

-- What `_query` meets at a host: the message is written, or why it is not. With `late` the time of the
-- request has run out by then.
pub data Outcome : Type 0 where
  written : Outcome
  refused : Cause → Outcome
  late : Cause → Registered → Outcome

-- A message that waits for its response: the request itself, or a PREPARE message.
pub data Message : Type 0 where
  execute prepare : ℕ → Message

-- Responses to the request. `unprepared b` is PreparedQueryNotFound; `b` says that the statement is
-- known to the session and its keyspace fits.
pub data Response : Type 0 where
  rows set_keyspace schema_change overloaded is_bootstrapping : Response
  error_message connection_exception exception unexpected_message : Response
  failed : Failure → Response
  unprepared : Bool → Response

-- Responses to a PREPARE message.
pub data Preparation : Type 0 where
  prepared other_result prepare_error prepare_connection_exception prepare_unexpected : Preparation

-- A task submitted to the session's executor.
pub data Task : Type 0 where
  retry_task : Bool → ℕ → Task
  reprepare : ℕ → Task
  execute_after_prepare : ℕ → Preparation → Task
  finish_schema : Task

-- `errors` is `_errors`, the latest first. `results` and `exceptions` count the calls of
-- `_set_final_result` and `_set_final_exception`, each of which runs the callbacks or errbacks.
-- `keyspace_changes` are the calls of `_set_keyspace_for_all_pools` that have not called back.
pub record Future : Type 0 where
  pub query_plan : List ℕ
  pub errors : List (ℕ × Cause)
  pub attempted_hosts : List ℕ
  pub query_retries : ℕ
  pub consistency : ConsistencyLevel
  pub final_exception : Option Cause
  pub results : ℕ
  pub exceptions : ℕ
  pub in_flight : List Message
  pub tasks : List Task
  pub keyspace_changes : ℕ

abbrev pub Pools : Type 0
Pools = ℕ → Outcome

abbrev pub is_late : Outcome → Bool
is_late written = false
is_late (refused c) = false
is_late (late c i) = true

-- The time of the request does not run out while these hosts are tried.
abbrev pub InTime : Pools → Type 0
InTime pools = (h : ℕ) → is_late (pools h) ≡ false

unfoldable pub init : List ℕ → ConsistencyLevel → Future
init plan consistency = record {
  query_plan = plan;
  errors = [];
  attempted_hosts = [];
  query_retries = 0;
  consistency = consistency;
  final_exception = none;
  results = 0;
  exceptions = 0;
  in_flight = [];
  tasks = [];
  keyspace_changes = 0;
}

unfoldable pub set_final_result : Future → Future
set_final_result f = record f { results = f.results + 1 }

unfoldable pub set_final_exception : Future → Cause → Future
set_final_exception f c = record f { final_exception = some c; exceptions = f.exceptions + 1 }

unfoldable pub submit : Future → Task → Future
submit f t = record f { tasks = f.tasks ++ t ∷ [] }

abbrev pub host_of : Message → ℕ
host_of (execute h) = h
host_of (prepare h) = h

-- `_query`: whether the message was written, that is, whether a request id is returned.
unfoldable pub query : Pools → Future → Message → Future × Bool
query pools f m = elim (pools (host_of m)) [
  | written ↦ (
    record f {
      attempted_hosts = f.attempted_hosts ++ host_of m ∷ [];
      in_flight = f.in_flight ++ m ∷ [];
    },
    true,
  )
  | refused c ↦ (record f { errors = (host_of m, c) ∷ f.errors }, false)
  | late c i ↦ (record f { errors = (host_of m, c) ∷ f.errors }, false)
]

-- A member of a list taken out by its place.
unfoldable pub take_out {ℓ} : {A : Type ℓ} → ℕ → List A → Option (A × List A)
take_out i [] = none
take_out zero (x ∷ xs) = some (x, xs)
take_out (suc i) (x ∷ xs) = elim (take_out i xs) [ none ↦ none | some (y, ys) ↦ some (y, x ∷ ys) ]

-- `_on_timeout`, which takes out whatever callback is registered under the stream id, or returns.
unfoldable pub on_timeout : Future → Registered → Future
on_timeout f other_request = set_final_exception f timed_out
on_timeout f (own_message i) = elim (take_out i f.in_flight) [
  | none ↦ f
  | some (m, rest) ↦ set_final_exception (record f { in_flight = rest }) timed_out
]

-- What `send_request` does after a host that it could not write to: go on, unless it is late.
unfoldable pub unless_late : Outcome → Future → Future → Future
unless_late written f next = next
unless_late (refused c) f next = next
unless_late (late c i) f next = on_timeout f i

-- The loop of `send_request` over what is left of the plan.
unfoldable pub send_over : Pools → Bool → Future → List ℕ → Future
send_over pools error_no_hosts f [] =
    let f' = record f { query_plan = [] } in
    if error_no_hosts then set_final_exception f' no_host_available else f'
send_over pools error_no_hosts f (h ∷ hs) =
    let (f', sent) = query pools f (execute h) in
    let next = send_over pools error_no_hosts f' hs in
    if sent
    then record f' { query_plan = hs }
    else unless_late (pools h) (record f' { query_plan = hs }) next

unfoldable pub send_request : Pools → Bool → Future → Future
send_request pools error_no_hosts f = send_over pools error_no_hosts f f.query_plan

abbrev pub is_some : Option Cause → Bool
is_some none = false
is_some (some _) = true

-- `_retry`
unfoldable pub retry_request : Future → Bool → Option ConsistencyLevel → ℕ → Future
retry_request f reuse level h =
    if is_some f.final_exception
    then f
    else submit (elim level [ none ↦ f | some c ↦ record f { consistency = c } ])
        (retry_task reuse h)

-- The end of the ErrorMessage branch of `_set_result`: what the policy's verdict does.
unfoldable pub decide : Future → ℕ → Decision → Option ConsistencyLevel → Future
decide f h retry level =
    retry_request (record f { query_retries = f.query_retries + 1 }) true level h
decide f h retry_next_host level =
    retry_request (record f { query_retries = f.query_retries + 1 }) false level h
decide f h rethrow level = set_final_exception f server_error
decide f h ignore level = set_final_result f

unfoldable pub obey : Future → ℕ → Verdict → Future
obey f h verdict =
    let g = decide f h verdict.0 verdict.1 in record g { errors = (h, server_error) ∷ g.errors }

-- `_set_result`
unfoldable pub set_result : (Failure → ℕ → Verdict) → Future → ℕ → Response → Future
set_result policy f h rows = set_final_result f
set_result policy f h set_keyspace = record f { keyspace_changes = f.keyspace_changes + 1 }
set_result policy f h schema_change = submit f finish_schema
set_result policy f h overloaded = retry_request f false none h
set_result policy f h is_bootstrapping = retry_request f false none h
set_result policy f h (failed failure) = obey f h (policy failure f.query_retries)
set_result policy f h (unprepared true) = submit f (reprepare h)
set_result policy f h (unprepared false) = set_final_exception f server_error
set_result policy f h error_message = set_final_exception f server_error
set_result policy f h connection_exception = retry_request f false none h
set_result policy f h exception = set_final_exception f server_error
set_result policy f h unexpected_message = set_final_exception f unexpected

-- `_execute_after_prepare`
unfoldable pub after_prepare : Pools → Future → ℕ → Preparation → Future
after_prepare pools f h prepared =
    let (f', sent) = query pools f (execute h) in if sent then f' else send_request pools true f'
after_prepare pools f h other_result = set_final_exception f unexpected
after_prepare pools f h prepare_error = set_final_exception f server_error
after_prepare pools f h prepare_connection_exception =
    send_request pools true (record f { errors = (h, connection_error) ∷ f.errors })
after_prepare pools f h prepare_unexpected = set_final_exception f unexpected

-- What the executor does for a task.
unfoldable pub run_task : Pools → Future → Task → Future
run_task pools f (retry_task reuse h) =
    if is_some f.final_exception
    then f
    else if reuse
    then (let (f', sent) = query pools f (execute h) in
        if sent then f' else send_request pools true f')
    else send_request pools true f
run_task pools f (reprepare h) =
    let (f', sent) = query pools f (prepare h) in if sent then f' else send_request pools true f'
run_task pools f (execute_after_prepare h p) =
    if is_some f.final_exception then f else after_prepare pools f h p
run_task pools f finish_schema = set_final_result f

-- `_set_keyspace_completed`; `ok` says that no pool reported an error.
unfoldable pub keyspace_completed : Future → Bool → Future
keyspace_completed f ok = if ok then set_final_result f else set_final_exception f keyspace_errors

-- The message at a place in flight is answered, the task at a place is run, a speculative execution
-- is due, the timer fires, or the pools call back that they have set the keyspace, or not.
pub data Event : Type 0 where
  answered : ℕ → Response → Preparation → Event
  runs : ℕ → Pools → Event
  speculates : Pools → Event
  times_out : Registered → Event
  keyspace_set : Bool → Event

unfoldable pub receive :
    (Failure → ℕ → Verdict) → Future → Message → Response → Preparation → Future
receive policy f (execute h) r p = set_result policy f h r
receive policy f (prepare h) r p = submit f (execute_after_prepare h p)

abbrev pub is_finished : Future → Bool
is_finished f = is_some f.final_exception || leb 1 f.results

unfoldable pub step : (Failure → ℕ → Verdict) → Future → Event → Future
step policy f (answered i r p) = elim (take_out i f.in_flight) [
  | none ↦ f
  | some (m, rest) ↦ receive policy (record f { in_flight = rest }) m r p
]
step policy f (runs i pools) = elim (take_out i f.tasks) [
  | none ↦ f
  | some (t, rest) ↦ run_task pools (record f { tasks = rest }) t
]
step policy f (times_out i) = on_timeout f i
step policy f (keyspace_set ok) =
    if leb 1 f.keyspace_changes
    then keyspace_completed (record f { keyspace_changes = f.keyspace_changes - 1 }) ok
    else f
step policy f (speculates pools) = if is_finished f then f else send_request pools false f

unfoldable pub run : (Failure → ℕ → Verdict) → Future → List Event → Future
run policy f [] = f
run policy f (e ∷ es) = run policy (step policy f e) es
