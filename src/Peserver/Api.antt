-- ===== src/Peserver/Api.antt =====
-- The interface of peserver/src/api.rs: paths, content types and bodies. The architecture and the
-- operating system of the crate oci_spec, and the JSON of the crate serde_json, are parameters.
pub mod Path
pub mod Bodies
use program_explorer.Prelude.{
  ℕ, zero, suc, ◌+◌, Bool, true, false, Option, none, some, List, [], ◌∷◌, ◌++◌, length, take, drop,
  ltb, leb, ◌==◌, if◌then◌else◌,
}
use program_explorer.Prelude.Bytes.{Bytes, bytes_eq, codes, from_le_bytes}
use program_explorer.Prelude.Result.{Result, ok, err}
use program_explorer.Squash.Deletions.{strip_prefix}
use program_explorer.Peinit.Types.{Response}

abbrev pub application_json_str : Bytes
application_json_str = codes "application/json"

abbrev pub application_x_pe_archivev1_str : Bytes
application_x_pe_archivev1_str = codes "application/x.pe.archivev1"

-- Requests per second and client, and the size of a body.
abbrev pub max_req_per_sec : ℕ
max_req_per_sec = 2

abbrev pub max_body_size : ℕ
max_body_size = 65536

pub data ContentType : Type 0 where
  application_json pe_archive_v1 : ContentType

unfoldable pub content_type_from : Bytes → Result (Unit {0}) ContentType
content_type_from s =
    if bytes_eq s application_json_str
    then ok application_json
    else if bytes_eq s application_x_pe_archivev1_str
    then ok pe_archive_v1
    else err tt

unfoldable pub content_type_str : ContentType → Bytes
content_type_str application_json = application_json_str
content_type_str pe_archive_v1 = application_x_pe_archivev1_str

abbrev pub prefix : Bytes
prefix = codes "/api/v2/runi/"

abbrev pub slash : ℕ
slash = 47

pub record Request : Type 0 where
  pub stdin : Option Bytes
  pub entrypoint : Option (List Bytes)
  pub cmd : Option (List Bytes)
  pub env : Option (List Bytes)

-- `?` on an option.
abbrev pub and_then {ℓ κ} : {A : Type ℓ} {B : Type κ} → Option A → (A → Option B) → Option B
and_then none k = none
and_then (some a) k = k a

-- `s.split_once(sep)`
abbrev pub with_front : ℕ → Option (Bytes × Bytes) → Option (Bytes × Bytes)
with_front b none = none
with_front b (some p) = some (b ∷ p.0, p.1)

unfoldable pub split_once : ℕ → Bytes → Option (Bytes × Bytes)
split_once sep [] = none
split_once sep (b ∷ s) =
    let rest = split_once sep s in if b == sep then some ([], s) else with_front b rest

pub record ParsedPath (Arch Os : Type 0) : Type 0 where
  pub reference : Bytes
  pub arch : Arch
  pub os : Os

module _ {Arch Os : Type 0} (arch_from : Bytes → Option Arch) (os_from : Bytes → Option Os) where
  -- The check of the reference, and the conversions behind it.
  unfoldable pub parsed_path : Bytes → Bytes → Bytes → Option (ParsedPath Arch Os)
  parsed_path arch os reference =
      if ltb 255 (length reference)
      then none
      else and_then (arch_from arch) (λ a.
        and_then (os_from os) (λ o. some (record { reference = reference; arch = a; os = o })))

  unfoldable pub parse_path : Bytes → Option (ParsedPath Arch Os)
  parse_path s = and_then (strip_prefix s prefix) (λ rest.
      and_then (split_once slash rest)
        (λ p. and_then (split_once slash p.1) (λ q. parsed_path p.0 q.0 q.1)))

-- `bytes.get(from..from + n)` and `bytes.get(from..)`
unfoldable pub get_slice : Bytes → ℕ → ℕ → Option Bytes
get_slice bytes from n =
    if leb (from + n) (length bytes) then some (take n (drop from bytes)) else none

unfoldable pub get_rest : Bytes → ℕ → Option Bytes
get_rest bytes from = if leb from (length bytes) then some (drop from bytes) else none

-- The size at the front of a body, which has at least four bytes, and the JSON behind it.
unfoldable pub sized_json : Bytes → Option (ℕ × Bytes)
sized_json body =
    if ltb (length body) 4
    then none
    else let json_size = from_le_bytes (take 4 body) in
      and_then (get_slice body 4 json_size) (λ slice. some (json_size, slice))

unfoldable pub parse_request : (Bytes → Option Request) → Bytes → ContentType → Option (ℕ × Request)
parse_request from_slice body application_json = and_then (from_slice body) (λ req. some (0, req))
parse_request from_slice body pe_archive_v1 =
    and_then (sized_json body) (λ p. and_then (from_slice p.1) (λ req. some (4 + p.0, req)))

unfoldable pub parse_response : (Bytes → Option Response) → Bytes → Option (Response × Bytes)
parse_response from_slice body = and_then (sized_json body) (λ p.
    and_then (from_slice p.1)
      (λ response. and_then (get_rest body (4 + p.0)) (λ rem. some (response, rem))))
