-- ===== src/Peserver/Api/Bodies.antt =====
-- What the servers read from bodies, and what the guest wrote into them.
use program_explorer.Prelude.{
  ℕ, ◌+◌, ◌^◌, ◌<◌, ◌≤◌, ◌≡◌, refl, sym, ap, arith, Bool-cases, true, false, Option, none, some,
  ◌++◌, length, take, drop, ltb, leb, inl, inr, le→leb, length-append, append_assoc, take-front,
  drop-front,
}
use program_explorer.Prelude.Bytes.{
  Bytes, to_le_bytes, from_le_bytes, length-to_le_bytes, from-to_le_bytes,
}
use program_explorer.Prelude.Result.{ok}
use program_explorer.Peinit.Types.{Response}
use program_explorer.Peinit.IoFile.{read_io_file_response_archive_bytes}
use program_explorer.Peinit.IoFile.MemFile.{MemFile, behind, reader}
use program_explorer.Peinit.IoFile.RoundTrip.{sizes, read_io_file_response_archive_bytes-sizes}
use program_explorer.Peserver.Api.{
  and_then, ContentType, application_json, pe_archive_v1, get_slice, get_rest, parse_request,
  parse_response, Request, sized_json,
}

-- A body of a size, JSON of that size, and more.
abbrev pub sized : Bytes → Bytes → Bytes
sized json rest = to_le_bytes 4 (length json) ++ (json ++ rest)

length-sized : (json rest : Bytes) → length (sized json rest) ≡ 4 + length json + length rest
length-sized json rest = omega (
  arith,
  length-append (to_le_bytes 4 (length json)) (json ++ rest),
  length-append json rest,
  length-to_le_bytes 4 (length json),
)

sized_json-sized :
    (json rest : Bytes)
    → length json < 2 ^ 32
    → sized_json (sized json rest) ≡ some (length json, json)
unfolding sized_json get_slice
sized_json-sized json rest h =
    let n = length-to_le_bytes 4 (length json) in
    let long : ltb (length (sized json rest)) 4 ≡ false =
      let e = length-sized json rest in ground (arith, e) in
    let inside : leb (4 + length json) (length (sized json rest)) ≡ true =
      le→leb (4 + length json) (length (sized json rest)) (omega (arith, length-sized json rest)) in
    rw
      (
        long,
        take-front 4 (to_le_bytes 4 (length json)) (json ++ rest) (sym n),
        from-to_le_bytes (length json) h,
        inside,
        drop-front 4 (to_le_bytes 4 (length json)) (json ++ rest) (sym n),
        take-front (length json) json rest refl,
      )
      refl

drop-sized : (json rest : Bytes) → drop (4 + length json) (sized json rest) ≡ rest
drop-sized json rest = rw (sym (append_assoc (to_le_bytes 4 (length json)) json rest)) (
    drop-front (4 + length json) (to_le_bytes 4 (length json) ++ json) rest (
      omega (
        arith,
        length-append (to_le_bytes 4 (length json)) json,
        length-to_le_bytes 4 (length json),
      )))

-- A request that is sent as a size, JSON and an archive is read back: the JSON is what the parser of
-- JSON is given, and behind the offset that comes out, the body is the archive. That is so if the
-- length of the JSON fits a u32.
pub parse_request-sized :
    (from_slice : Bytes → Option Request) (req : Request) (json archive : Bytes)
    → from_slice json ≡ some req
    → length json < 2 ^ 32
    → (parse_request from_slice (sized json archive) pe_archive_v1 ≡ some (4 + length json, req))
      × (drop (4 + length json) (sized json archive) ≡ archive)
unfolding parse_request
parse_request-sized from_slice req json archive e h =
    (rw (sized_json-sized json archive h, e) refl, drop-sized json archive)

-- A response and its archive go from the guest's file to the client: what the worker reads out of
-- the file is a body which the client splits into the response and the archive. That is so if
-- the parser of JSON reads the response, and the two with the size fit a u32.
pub parse_response-read :
    (from_slice : Bytes → Option Response) (response : Response) (json archive back : Bytes)
    (cursor : ℕ)
    → from_slice json ≡ some response
    → 4 + length json + length archive < 2 ^ 32
    → let file : MemFile = record {
      bytes = sizes (length archive) (length json) ++ ((json ++ archive) ++ back);
      at = cursor;
    } in
      (body : Bytes) × (file' : MemFile) × (read_io_file_response_archive_bytes reader file
        ≡ ok (body, file'))
      × (parse_response from_slice body ≡ some (response, archive))
unfolding parse_response get_rest
parse_response-read from_slice response json archive back cursor e h =
    let short : length json < 2 ^ 32 = omega arith in
    let inside : leb (4 + length json) (length (sized json archive)) ≡ true =
      le→leb (4 + length json) (length (sized json archive))
        (omega (arith, length-sized json archive)) in
    (
      sized json archive,
      behind (sizes (length archive) (length json) ++ (json ++ archive)) back,
      (read_io_file_response_archive_bytes-sizes json archive back cursor short (omega arith)).0 h,
      rw (sized_json-sized json archive short, e, inside, drop-sized json archive) refl,
    )

-- The offset is in the body.
abbrev pub IsWithin : {A : Type 0} → Bytes → Option (ℕ × A) → Type 0
IsWithin body none = Unit
IsWithin body (some p) = p.0 ≤ length body

whole-IsWithin :
    {A : Type 0} (body : Bytes) (n : ℕ) (r : Option A)
    → n ≤ length body
    → IsWithin body (and_then r (λ req. some (n, req)))
whole-IsWithin body n none h = tt
whole-IsWithin body n (some req) h = h

behind-IsWithin :
    {A : Type 0} (from_slice : Bytes → Option A) (body : Bytes) (o : Option (ℕ × Bytes))
    → ((p : ℕ × Bytes) → o ≡ some p → 4 + p.0 ≤ length body)
    → IsWithin body (and_then o (λ p. and_then (from_slice p.1) (λ req. some (4 + p.0, req))))
behind-IsWithin from_slice body none h = tt
behind-IsWithin from_slice body (some p) h =
    whole-IsWithin body (4 + p.0) (from_slice p.1) (h p refl)

sized_json-some : (body : Bytes) (p : ℕ × Bytes) → sized_json body ≡ some p → 4 + p.0 ≤ length body
unfolding sized_json get_slice
sized_json-some body p e =
    let n : ℕ = from_le_bytes (take 4 body) in
    elim (Bool-cases (ltb (length body) 4)) [
      | inl h ↦ let k : none ≡ some p = rw h at e in absurd (cc)
      | inr h ↦ elim (Bool-cases (leb (4 + n) (length body))) [
        | inl k ↦
            let r : some (n, take n (drop 4 body)) ≡ some p = rw (h, k) at e in
            let le : 4 + n ≤ length body = ground (arith, k) in
            let pair : (n, take n (drop 4 body)) ≡ p = cc in rw (ap (λ q. q.0) pair) at le
        | inr k ↦ let r : none ≡ some p = rw (h, k) at e in absurd (cc)
      ]
    ]

-- Whatever the body and the type, the offset that `parse_request` gives is not behind the end of the body:
-- the worker's subtraction and its slice behind that offset do not panic.
pub parse_request-IsWithin :
    (from_slice : Bytes → Option Request) (body : Bytes) (content_type : ContentType)
    → IsWithin body (parse_request from_slice body content_type)
unfolding parse_request
parse_request-IsWithin from_slice body application_json =
    whole-IsWithin body 0 (from_slice body) (omega arith)
parse_request-IsWithin from_slice body pe_archive_v1 =
    behind-IsWithin from_slice body (sized_json body) (sized_json-some body)
