-- ===== src/Peserver/LoadBalancer.antt =====
-- The load balancer of peserver/src/lb.rs: which requests it forwards, and the permits that a
-- forwarded request holds. A semaphore is the number of permits that are left. The crate pingora
-- calls the filters, and writes the answers; the rate limiter of pingora_limits gives the number of
-- requests of the client in the current window.
pub mod Permits
pub mod Filter
use program_explorer.Prelude.{
  ℕ, zero, suc, ◌+◌, Bool, true, false, Option, none, some, List, [], ◌∷◌, length, ltb, ◌&&◌,
  if◌then◌else◌,
}
use program_explorer.Prelude.Bytes.{Bytes, bytes_eq, codes}
use program_explorer.Prelude.Result.{Result, ok, err, ◌>>=◌}
use program_explorer.Squash.Deletions.{strip_prefix}
use program_explorer.Peserver.Api.{
  max_body_size, max_req_per_sec, parse_path, prefix, ParsedPath, split_once,
}

-- `WorkerId::MAX`, of a u16.
abbrev pub worker_id_max : ℕ
worker_id_max = 65535

pub record Worker (Peer : Type 0) : Type 0 where
  pub peer : Peer
  pub max_conn : ℕ

pub record Lb (Peer : Type 0) : Type 0 where
  pub workers : List (Worker Peer)
  pub max_conn : ℕ

-- The worker of a forwarded request, by its number; it holds a permit of the load balancer and one
-- of that worker.
pub record Inner : Type 0 where
  pub worker : ℕ

-- The answers that the load balancer has at hand.
pub data Status : Type 0 where
  bad_request payload_too_large internal_server_error service_unavailable too_many_requests
        not_found :
      Status

pub record Request : Type 0 where
  pub is_post : Bool
  pub path : Bytes
  pub content_length : Option ℕ
  pub curr_window_requests : ℕ

-- `timeout(MAX_WAIT_TIMEOUT, acquire_owned())`: a permit of the worker comes, or the time is over. While
-- the request waits, others take permits and give theirs back; what is left of both is part of the
-- answer: of the load balancer's, and of the worker's, without the one that has come.
pub data Wait : Type 0 where
  acquired elapsed : ℕ → ℕ → Wait

-- What a filter does: what it writes to the client, what it returns, the context of the request and
-- the load balancer. `true` is that the request is done.
pub record Filtered (Peer E : Type 0) : Type 0 where
  pub written : Option Status
  pub returned : Result E Bool
  pub ctx : Option Inner
  pub lb : Lb Peer

pub data PeerParseError : Type 0 where
  uds_error bad_fmt bad_kind : PeerParseError

-- `try_acquire_owned` on a semaphore.
unfoldable pub try_acquire_owned : ℕ → Option ℕ
try_acquire_owned zero = none
try_acquire_owned (suc n) = some n

unfoldable pub rate_limit : Request → Bool
rate_limit request = ltb max_req_per_sec request.curr_window_requests

unfoldable pub starts_with : Bytes → Bytes → Bool
starts_with s p = elim (strip_prefix s p) [ none ↦ false | some rest ↦ true ]

unfoldable pub content_length_exceeds : Option ℕ → Bool
content_length_exceeds none = false
content_length_exceeds (some l) = ltb max_body_size l

module _ {Peer : Type 0} where
  abbrev pub nth : List (Worker Peer) → ℕ → Option (Worker Peer)
  nth [] n = none
  nth (w ∷ workers) zero = some w
  nth (w ∷ workers) (suc n) = nth workers n

  abbrev pub set_permits : List (Worker Peer) → ℕ → ℕ → List (Worker Peer)
  set_permits [] n permits = []
  set_permits (w ∷ workers) zero permits = record w { max_conn = permits } ∷ workers
  set_permits (w ∷ workers) (suc n) permits = w ∷ set_permits workers n permits

  unfoldable pub workers_new : List (Worker Peer) → Option (List (Worker Peer))
  workers_new [] = none
  workers_new (w ∷ workers) =
      if ltb worker_id_max (length (w ∷ workers)) then none else some (w ∷ workers)

  unfoldable pub get_worker : Lb Peer → ℕ → Option (Worker Peer)
  get_worker lb id = nth lb.workers id

  -- The first answer of at most 20 attempts to ask a worker for its number of connections.
  abbrev pub attempts : (Peer → ℕ → Option ℕ) → Peer → ℕ → ℕ → Option ℕ
  attempts get_max_conn peer zero tried = none
  attempts get_max_conn peer (suc left) tried =
      let rest = attempts get_max_conn peer left (suc tried) in
      elim (get_max_conn peer tried) [ none ↦ rest | some n ↦ some n ]

  -- `worker.max_conn.add_permits(max_conn)`
  abbrev pub add_permits : Worker Peer → Option ℕ → Worker Peer
  add_permits worker none = worker
  add_permits worker (some n) = record worker { max_conn = worker.max_conn + n }

  unfoldable pub start : (Peer → ℕ → Option ℕ) → List (Worker Peer) → List (Worker Peer)
  start get_max_conn [] = []
  start get_max_conn (w ∷ workers) =
      add_permits w (attempts get_max_conn w.peer 20 0) ∷ start get_max_conn workers

  abbrev pub set_counts : Lb Peer → ℕ → ℕ → ℕ → Lb Peer
  set_counts lb id lb_permits worker_permits = record {
    workers = set_permits lb.workers id worker_permits;
    max_conn = lb_permits;
  }

  -- How the wait for the worker's permit ends. Without it the load balancer's goes back.
  unfoldable pub after_wait : Lb Peer → ℕ → Wait → Option Inner × Lb Peer
  after_wait lb id (acquired lb_permits worker_permits) =
      (some (record { worker = id }), set_counts lb id lb_permits worker_permits)
  after_wait lb id (elapsed lb_permits worker_permits) =
      (none, set_counts lb id (suc lb_permits) worker_permits)

  -- Behind the load balancer's permit, of which `left` are left: the wait, which starts with the
  -- permits of the worker.
  unfoldable pub get_permits_from :
      (ℕ → ℕ → Wait) → Lb Peer → ℕ → Worker Peer → Option ℕ → Option Inner × Lb Peer
  get_permits_from wait lb id worker none = (none, lb)
  get_permits_from wait lb id worker (some left) = after_wait lb id (wait left worker.max_conn)

  unfoldable pub get_permits : (ℕ → ℕ → Wait) → Lb Peer → ℕ → Worker Peer → Option Inner × Lb Peer
  get_permits wait lb id worker = get_permits_from wait lb id worker (try_acquire_owned lb.max_conn)

  module _ {E Arch Os : Type 0} (read_error : E)
      (write_response_header_ref : Status → Result E (Unit {0})) (arch_from : Bytes → Option Arch)
      (os_from : Bytes → Option Os) where
    abbrev pub answer : Lb Peer → Status → Filtered Peer E
    answer lb status = record {
      written = some status;
      returned = write_response_header_ref status >>= λ _. ok true;
      ctx = none;
      lb = lb;
    }

    abbrev pub with_permits : Option Inner × Lb Peer → Filtered Peer E
    with_permits (some inner, lb) = record {
      written = none;
      returned = ok false;
      ctx = some inner;
      lb = lb;
    }
    with_permits (none, lb) = answer lb service_unavailable

    unfoldable pub to_worker : (ℕ → ℕ → Wait) → Lb Peer → Option (Worker Peer) → Filtered Peer E
    to_worker wait lb none = answer lb internal_server_error
    to_worker wait lb (some worker) = with_permits (get_permits wait lb 0 worker)

    abbrev pub too_large : Lb Peer → Filtered Peer E
    too_large lb = record {
      written = some payload_too_large;
      returned = write_response_header_ref payload_too_large >>= λ _. err read_error;
      ctx = none;
      lb = lb;
    }

    unfoldable pub sized_request :
        (ℕ → ℕ → Wait) → Lb Peer → Request → Option (ParsedPath Arch Os) → Filtered Peer E
    sized_request wait lb request none = answer lb bad_request
    sized_request wait lb request (some p) =
        if content_length_exceeds request.content_length
        then too_large lb
        else to_worker wait lb (get_worker lb 0)

    unfoldable pub apiv2_runi : (ℕ → ℕ → Wait) → Lb Peer → Request → Filtered Peer E
    apiv2_runi wait lb request =
        sized_request wait lb request (parse_path arch_from os_from request.path)

    unfoldable pub request_filter : (ℕ → ℕ → Wait) → Lb Peer → Request → Filtered Peer E
    request_filter wait lb request =
        if rate_limit request
        then answer lb too_many_requests
        else if request.is_post && starts_with request.path prefix
        then apiv2_runi wait lb request
        else answer lb not_found

-- `proxy_upstream_filter`, and `upstream_peer` of a request that has a context.
unfoldable pub proxy_upstream_filter : Option Inner → Bool
proxy_upstream_filter none = false
proxy_upstream_filter (some inner) = true

module _ {Peer : Type 0} where
  abbrev pub peer_of : Option (Worker Peer) → Option Peer
  peer_of none = none
  peer_of (some worker) = some worker.peer

  unfoldable pub upstream_peer : Lb Peer → Option Inner → Option Peer
  upstream_peer lb none = none
  upstream_peer lb (some inner) = peer_of (get_worker lb inner.worker)

  abbrev pub new_worker : Peer → Worker Peer
  new_worker peer = record { peer = peer; max_conn = 0 }

  -- The peers that pingora makes of an address are parameters.
  module _ (new_uds : Bytes → Option Peer) (new_tcp : Bytes → Peer) where
    abbrev pub uds_worker : Option Peer → Result PeerParseError (Worker Peer)
    uds_worker none = err uds_error
    uds_worker (some peer) = ok (new_worker peer)

    unfoldable pub parse_peer : Option (Bytes × Bytes) → Result PeerParseError (Worker Peer)
    parse_peer none = err bad_fmt
    parse_peer (some p) =
        if bytes_eq p.0 (codes "uds")
        then uds_worker (new_uds p.1)
        else if bytes_eq p.0 (codes "tcp")
        then ok (new_worker (new_tcp p.1))
        else err bad_kind

    unfoldable pub parse_peers : List Bytes → Result PeerParseError (List (Worker Peer))
    parse_peers [] = ok []
    parse_peers (arg ∷ args) =
        let rest = parse_peers args in
        do worker ← parse_peer (split_once 58 arg); workers ← rest; ok (worker ∷ workers)
