-- ===== src/Peserver/Tests.antt =====
-- The theorems on the servers at concrete requests and bodies.
use program_explorer.Prelude.{
  ℕ, zero, suc, ◌+◌, ◌≤◌, ◌≡◌, ◌↔◌, ◌⊎◌, refl, arith, true, false, Option, none, some, [], ◌∷◌,
  ◌==◌, if◌then◌else◌, ◌++◌,
}
use program_explorer.Prelude.Bytes.{Bytes, bytes_eq, codes}
use program_explorer.Prelude.Result.{Result, ok, err}
use program_explorer.Squash.Deletions.{strip_prefix}
use program_explorer.Peinit.Types.{Response, panic}
use program_explorer.Peinit.IoFile.{read_io_file_response_archive_bytes}
use program_explorer.Peinit.IoFile.MemFile.{MemFile, reader}
use program_explorer.Peinit.IoFile.RoundTrip.{sizes}
use program_explorer.Peserver.Api.{parse_path, parse_response, ParsedPath, split_once, parsed_path}
use program_explorer.Peserver.Api.Path.{IsPath, parse_path_iff}
use program_explorer.Peserver.Api.Bodies.{parse_response-read}
use program_explorer.Peserver.LoadBalancer.{
  apiv2_runi, bad_fmt, bad_kind, content_length_exceeds, Filtered, get_permits, get_permits_from,
  after_wait, acquired, elapsed, Wait, get_worker, Lb, parse_peer, parse_peers, rate_limit, Request,
  request_filter, sized_request, start, starts_with, Status, to_worker, try_acquire_owned, Worker,
}
use program_explorer.Peserver.LoadBalancer.Permits.{
  done, initial, next, State, Steps, Steps-IsBounded, add, take_lb, take_worker,
}
use program_explorer.Peserver.LoadBalancer.Filter.{
  IsAdmissible, IsAnswered, IsForwarded, request_filter-IsDecided,
}

-- An architecture and an operating system that are their names, of which one is known each.
abbrev arch_from : Bytes → Option Bytes
arch_from s = if bytes_eq s (codes "amd64") then some s else none

abbrev os_from : Bytes → Option Bytes
os_from s = if bytes_eq s (codes "linux") then some s else none

abbrev path : Bytes
path = codes "/api/v2/runi/amd64/linux/index.docker.io/library/gcc:13"

abbrev parsed : ParsedPath Bytes Bytes
parsed = record {
  reference = codes "index.docker.io/library/gcc:13";
  arch = codes "amd64";
  os = codes "linux";
}

parse_path_iff_example :
    (parse_path arch_from os_from path ≡ some parsed) ↔ IsPath arch_from os_from path parsed
parse_path_iff_example = parse_path_iff arch_from os_from path parsed

path_parsed : parse_path arch_from os_from path ≡ some parsed
unfolding parse_path strip_prefix split_once parsed_path bytes_eq
path_parsed = refl

abbrev from_slice : Bytes → Option Response
from_slice bs = if bytes_eq bs (codes "json") then some (panic []) else none

abbrev response_file : MemFile
response_file = record {
  bytes = sizes 7 4 ++ ((codes "json" ++ codes "archive") ++ codes "rest");
  at = 5;
}

parse_response-read_example :
    (body : Bytes) × (file' : MemFile) × (read_io_file_response_archive_bytes reader response_file
      ≡ ok (body, file'))
    × (parse_response from_slice body ≡ some (panic [], codes "archive"))
unfolding bytes_eq
parse_response-read_example =
    parse_response-read from_slice (panic []) (codes "json") (codes "archive") (codes "rest") 5 refl
      (omega arith)

abbrev worker : Worker Bytes
worker = record { peer = codes "worker0"; max_conn = 4 }

abbrev lb : Lb Bytes
lb = record { workers = worker ∷ []; max_conn = 1024 }

abbrev post : Request
post = record { is_post = true; path = path; content_length = some 65536; curr_window_requests = 2 }

-- No other request makes a step.
abbrev at_once : ℕ → ℕ → Wait
at_once left zero = elapsed left 0
at_once left (suc n) = acquired left n

-- A client that has gone.
abbrev write_response_header_ref : Status → Result Bytes (Unit {0})
write_response_header_ref status = err (codes "closed")

request_filter-IsDecided_example :
    let r : Filtered Bytes Bytes =
      request_filter (codes "read") write_response_header_ref arch_from os_from at_once lb post in
    IsAnswered (codes "read") write_response_header_ref arch_from os_from lb at_once r
    ⊎ (IsForwarded (codes "read") write_response_header_ref arch_from os_from lb at_once r
        × IsAdmissible (codes "read") write_response_header_ref arch_from os_from lb at_once post)
request_filter-IsDecided_example =
    request_filter-IsDecided (codes "read") write_response_header_ref arch_from os_from lb at_once
      post

post_forwarded :
    request_filter (codes "read") write_response_header_ref arch_from os_from at_once lb post
    ≡ record {
      written = none;
      returned = ok false;
      ctx = some (record { worker = 0 });
      lb = record { workers = record worker { max_conn = 3 } ∷ []; max_conn = 1023 };
    }
unfolding request_filter rate_limit starts_with strip_prefix apiv2_runi parse_path split_once
    parsed_path bytes_eq sized_request content_length_exceeds to_worker get_worker get_permits
    get_permits_from after_wait try_acquire_owned
post_forwarded = refl

-- A worker without permits, all of which other requests hold, of which one ends.
abbrev busy : Worker Bytes
busy = record worker { max_conn = 0 }

abbrev busy_lb : Lb Bytes
busy_lb = record { workers = busy ∷ []; max_conn = 2 }

abbrev others : State
others = record { lb_permits = 2; worker_permits = 0; waiting = 0; holding = 4; added = 4 }

abbrev one_ends : ℕ → ℕ → Wait
one_ends left n = acquired (suc left) n

permits_given : get_permits one_ends busy_lb 0 busy ≡ (some (record { worker = 0 }), busy_lb)
unfolding get_permits get_permits_from after_wait try_acquire_owned
permits_given = refl

-- One request under way, with four permits added.
abbrev first : State
first = record { lb_permits = 2; worker_permits = 4; waiting = 0; holding = 0; added = 4 }

abbrev second : State
second = record { lb_permits = 1; worker_permits = 4; waiting = 1; holding = 0; added = 4 }

abbrev third : State
third = record { lb_permits = 1; worker_permits = 3; waiting = 0; holding = 1; added = 4 }

steps : Steps (initial 2) third
unfolding try_acquire_owned
steps = next (initial 2) first third (add (initial 2) 4) (
    next first second third (take_lb first 1 refl)
      (next second third third (take_worker second 3 0 refl refl) (done third)))

Steps-IsBounded_example :
    (third.waiting + third.holding ≤ 2)
    × (third.holding ≤ third.added)
    × (third.waiting + third.holding ≡ 0
        → (third.lb_permits ≡ 2) × (third.worker_permits ≡ third.added))
Steps-IsBounded_example = Steps-IsBounded 2 third steps

abbrev uds_peer : Bytes → Option Bytes
uds_peer s = some s

abbrev tcp_peer : Bytes → Bytes
tcp_peer s = s

abbrev idle : Bytes → Worker Bytes
idle peer = record { peer = peer; max_conn = 0 }

parse_peers_examples :
    (parse_peers uds_peer tcp_peer (codes "uds:/run/w" ∷ codes "tcp:host:80" ∷ [])
      ≡ ok (idle (codes "/run/w") ∷ idle (codes "host:80") ∷ []))
    × (parse_peers uds_peer tcp_peer (codes "uds" ∷ []) ≡ err bad_fmt)
    × (parse_peers uds_peer tcp_peer (codes "udp:x" ∷ []) ≡ err bad_kind)
unfolding parse_peers parse_peer split_once bytes_eq
parse_peers_examples = (refl, refl, refl)

-- A worker that answers at the third attempt.
abbrev third_time : Bytes → ℕ → Option ℕ
third_time peer n = if n == 2 then some 8 else none

start_example :
    start third_time (record worker { max_conn = 0 } ∷ []) ≡ record worker { max_conn = 8 } ∷ []
unfolding start
start_example = refl
