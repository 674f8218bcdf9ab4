-- ===== src/Peserver/LoadBalancer/Filter.antt =====
-- Which requests the load balancer forwards.
use program_explorer.Prelude.{
  ℕ, suc, ◌≤◌, ◌≡◌, ◌≢◌, refl, arith, Bool, true, false, Bool-cases, ◌&&◌, ◌⊎◌, Option, none, some,
  inl, inr, Option-cases, ltb,
}
use program_explorer.Prelude.Bytes.{Bytes}
use program_explorer.Prelude.Result.{Result, ok, err, ◌>>=◌}
use program_explorer.Squash.Deletions.{strip_prefix}
use program_explorer.Peserver.Api.{max_body_size, max_req_per_sec, parse_path, prefix, ParsedPath}
use program_explorer.Peserver.LoadBalancer.{
  answer, apiv2_runi, bad_request, content_length_exceeds, Filtered, get_permits, get_permits_from,
  set_counts, after_wait, acquired, elapsed, Wait, try_acquire_owned, get_worker, Inner,
  internal_server_error, Lb, not_found, payload_too_large, rate_limit, Request, request_filter,
  service_unavailable, sized_request, starts_with, Status, to_worker, too_large, too_many_requests,
  upstream_peer, Worker, with_permits,
}
use program_explorer.Peserver.LoadBalancer.Permits.{nth-set_permits}

-- The length, if the request names it, is at most `max_body_size`.
abbrev pub IsSmall : Option ℕ → Type 0
IsSmall none = Unit
IsSmall (some l) = l ≤ max_body_size

module _ {Peer E Arch Os : Type 0} (read_error : E)
    (write_response_header_ref : Status → Result E (Unit {0})) (arch_from : Bytes → Option Arch)
    (os_from : Bytes → Option Os) (lb : Lb Peer) (wait : ℕ → ℕ → Wait) where
  -- No permit is taken: the load balancer is as it was, or, where the request waited for a permit until
  -- the time was over, it is as the others left it, with the load balancer's permit given back.
  abbrev pub IsKept : Lb Peer → Type 0
  IsKept lb' =
      (lb' ≡ lb)
      ⊎ ((w : Worker Peer) × (left : ℕ) × (l : ℕ) × (n : ℕ) × (get_worker lb 0 ≡ some w)
          × (try_acquire_owned lb.max_conn ≡ some left)
          × (wait left w.max_conn ≡ elapsed l n)
          × (lb' ≡ set_counts lb 0 (suc l) n))

  -- The filter has answered: it has written, it does not say that the request is to be
  -- forwarded, and no permit is taken.
  abbrev pub IsAnswered : Filtered Peer E → Type 0
  IsAnswered r =
      (status : Status) × (r.written ≡ some status)
      × (r.returned ≢ ok false)
      × (r.ctx ≡ none)
      × IsKept r.lb

  -- The filter has written nothing, and the request goes to the peer of the first worker.
  abbrev pub IsForwarded : Filtered Peer E → Type 0
  IsForwarded r =
      (r.written ≡ none)
      × (r.returned ≡ ok false)
      × (inner : Inner) × (w : Worker Peer) × (r.ctx ≡ some inner)
      × (get_worker lb 0 ≡ some w)
      × (upstream_peer r.lb r.ctx ≡ some w.peer)

  -- The request may be forwarded.
  abbrev pub IsAdmissible : Request → Type 0
  IsAdmissible request =
      (request.curr_window_requests ≤ max_req_per_sec)
      × (request.is_post ≡ true)
      × (p : ParsedPath Arch Os) × (parse_path arch_from os_from request.path ≡ some p)
      × IsSmall request.content_length

  not_false :
      (r : Result E (Unit {0})) (k : Unit {0} → Result E Bool)
      → ((u : Unit {0}) → k u ≢ ok false)
      → (r >>= k) ≢ ok false
  not_false (ok u) k h e = h u e
  not_false (err x) k h e = absurd (cc)

  answer-IsAnswered :
      (lb' : Lb Peer) (status : Status)
      → IsKept lb'
      → IsAnswered (answer read_error write_response_header_ref arch_from os_from lb' status)
  answer-IsAnswered lb' status kept = (
    status,
    refl,
    not_false (write_response_header_ref status) (λ _. ok true) (λ u e. absurd (cc)),
    refl,
    kept,
  )

  too_large-IsAnswered :
      IsAnswered (too_large read_error write_response_header_ref arch_from os_from lb)
  too_large-IsAnswered = (
    payload_too_large,
    refl,
    not_false (write_response_header_ref payload_too_large) (λ _. err read_error)
        (λ u e. absurd (cc)),
    refl,
    inl refl,
  )

  -- A context is one of the first worker, which is still there with its peer.
  abbrev IsGiven : Worker Peer → Option Inner × Lb Peer → Type 0
  IsGiven w (none, lb') = IsKept lb'
  IsGiven w (some inner, lb') =
      (inner.worker ≡ 0) × (n : ℕ) × (get_worker lb' 0 ≡ some (record w { max_conn = n }))

  after_wait-IsGiven :
      (w : Worker Peer) (left : ℕ) (o : Wait)
      → get_worker lb 0 ≡ some w
      → try_acquire_owned lb.max_conn ≡ some left
      → wait left w.max_conn ≡ o
      → IsGiven w (after_wait lb 0 o)
  unfolding after_wait get_worker
  after_wait-IsGiven w left (acquired l n) e f g = (refl, n, nth-set_permits lb.workers 0 n w e)
  after_wait-IsGiven w left (elapsed l n) e f g = inr (w, left, l, n, e, f, g, refl)

  get_permits_from-IsGiven :
      (w : Worker Peer) (o : Option ℕ)
      → get_worker lb 0 ≡ some w
      → try_acquire_owned lb.max_conn ≡ o
      → IsGiven w (get_permits_from wait lb 0 w o)
  unfolding get_permits_from
  get_permits_from-IsGiven w none e f = inl refl
  get_permits_from-IsGiven w (some left) e f =
      after_wait-IsGiven w left (wait left w.max_conn) e f refl

  with_permits-IsDecided :
      (w : Worker Peer) (o : Option Inner × Lb Peer)
      → get_worker lb 0 ≡ some w
      → IsGiven w o
      → let r : Filtered Peer E =
          with_permits read_error write_response_header_ref arch_from os_from o in
        IsAnswered r ⊎ IsForwarded r
  unfolding upstream_peer
  with_permits-IsDecided w (none, lb') e h = inl (answer-IsAnswered lb' service_unavailable h)
  with_permits-IsDecided w (some inner, lb') e (h, n, k) =
      inr (refl, refl, inner, w, refl, e, rw (h, k) refl)

  to_worker-IsDecided :
      (o : Option (Worker Peer))
      → get_worker lb 0 ≡ o
      → let r : Filtered Peer E =
          to_worker read_error write_response_header_ref arch_from os_from wait lb o in
        IsAnswered r ⊎ IsForwarded r
  unfolding to_worker get_permits
  to_worker-IsDecided none e = inl (answer-IsAnswered lb internal_server_error (inl refl))
  to_worker-IsDecided (some w) e =
      with_permits-IsDecided w (get_permits wait lb 0 w) e
        (get_permits_from-IsGiven w (try_acquire_owned lb.max_conn) e refl)

  IsSmall-exceeds : (o : Option ℕ) → content_length_exceeds o ≡ false → IsSmall o
  unfolding content_length_exceeds
  IsSmall-exceeds none h = tt
  IsSmall-exceeds (some l) h = ground arith

  rate_limit_lem :
      (request : Request)
      → rate_limit request ≡ false
      → request.curr_window_requests ≤ max_req_per_sec
  unfolding rate_limit
  rate_limit_lem request h = ground arith

  and_left : (a b : Bool) → (a && b) ≡ true → a ≡ true
  and_left true b h = refl
  and_left false b h = h

  sized_request-IsDecided :
      (request : Request) (o : Option (ParsedPath Arch Os))
      → let r : Filtered Peer E =
          sized_request read_error write_response_header_ref arch_from os_from wait lb request o in
        IsAnswered r
        ⊎ (IsForwarded r × (p : ParsedPath Arch Os) × (o ≡ some p) × IsSmall request.content_length)
  unfolding sized_request
  sized_request-IsDecided request none = inl (answer-IsAnswered lb bad_request (inl refl))
  sized_request-IsDecided request (some p) =
      elim (Bool-cases (content_length_exceeds request.content_length)) [
        | inl h ↦ rw h (inl too_large-IsAnswered)
        | inr h ↦ rw h (elim (to_worker-IsDecided (get_worker lb 0) refl) [
          | inl a ↦ inl a
          | inr f ↦ inr (f, p, refl, IsSmall-exceeds request.content_length h)
        ])
      ]

  -- Every request is either answered or forwarded, and only one that may be is forwarded: the client
  -- has made at most two requests in the window, the method is POST, the path parses, and the length,
  -- if it is named, is at most 65536. An answered request has one status written, is not reported as to
  -- be forwarded, has no context and takes no permit: the load balancer is as it was, or, after a wait
  -- until the time was over, as the others left it, with the permit given back. A forwarded one has
  -- nothing written, and its peer is that of the first worker. That is so whatever the permits, however the
  -- wait for one ends, and whether or not writing succeeds.
  pub request_filter-IsDecided :
      (request : Request)
      → let r : Filtered Peer E =
          request_filter read_error write_response_header_ref arch_from os_from wait lb request in
        IsAnswered r ⊎ (IsForwarded r × IsAdmissible request)
  unfolding request_filter apiv2_runi
  request_filter-IsDecided request = elim (Bool-cases (rate_limit request)) [
    | inl h ↦ rw h (inl (answer-IsAnswered lb too_many_requests (inl refl)))
    | inr h ↦ elim (Bool-cases (request.is_post && starts_with request.path prefix)) [
      | inl k ↦
          rw (h, k)
            (elim (sized_request-IsDecided request (parse_path arch_from os_from request.path)) [
              | inl a ↦ inl a
              | inr f ↦ inr (
                f.0,
                (
                  rate_limit_lem request h,
                  and_left request.is_post (starts_with request.path prefix) k,
                  f.1,
                  f.2,
                  f.3,
                ),
              )
            ])
      | inr k ↦ rw (h, k) (inl (answer-IsAnswered lb not_found (inl refl)))
    ]
  ]

  starts_with-parse_path :
      (s : Bytes) (p : ParsedPath Arch Os)
      → parse_path arch_from os_from s ≡ some p
      → starts_with s prefix ≡ true
  unfolding parse_path starts_with strip_prefix
  starts_with-parse_path s p e = elim (Option-cases (strip_prefix s prefix)) [
    | inl h ↦ let k : none ≡ some p = rw h at e in absurd (cc)
    | inr h ↦ rw h.1 refl
  ]

  content_length-IsSmall : (o : Option ℕ) → IsSmall o → content_length_exceeds o ≡ false
  unfolding content_length_exceeds
  content_length-IsSmall none h = refl
  content_length-IsSmall (some l) h = ground arith

  get_permits-some :
      (w : Worker Peer) (n l m : ℕ)
      → try_acquire_owned lb.max_conn ≡ some n
      → wait n w.max_conn ≡ acquired l m
      → get_permits wait lb 0 w ≡ (some (record { worker = 0 }), set_counts lb 0 l m)
  unfolding get_permits get_permits_from after_wait
  get_permits-some w n l m e k = rw (e, k) refl

  -- A request that may be forwarded is, if there is a permit of the load balancer, and one of the
  -- first worker comes in time.
  pub request_filter-IsForwarded :
      (request : Request) (w : Worker Peer) (n l m : ℕ)
      → IsAdmissible request
      → get_worker lb 0 ≡ some w
      → try_acquire_owned lb.max_conn ≡ some n
      → wait n w.max_conn ≡ acquired l m
      → IsForwarded
          (request_filter read_error write_response_header_ref arch_from os_from wait lb request)
  unfolding request_filter apiv2_runi sized_request to_worker rate_limit upstream_peer get_worker
  request_filter-IsForwarded request w n l m a e f k =
      let few : ltb max_req_per_sec request.curr_window_requests ≡ false =
        let few_requests : request.curr_window_requests ≤ max_req_per_sec = a.0 in ground arith in
      let post : (request.is_post && starts_with request.path prefix) ≡ true =
        rw (a.1, starts_with-parse_path request.path a.2 a.3) refl in
      rw
        (
          few,
          post,
          a.3,
          content_length-IsSmall request.content_length a.4,
          e,
          get_permits-some w n l m f k,
        )
        (
          refl,
          refl,
          record { worker = 0 },
          w,
          refl,
          refl,
          rw (nth-set_permits lb.workers 0 m w e) refl,
        )
