-- ===== src/Peserver/LoadBalancer/Permits.antt =====
-- The permits of the load balancer and of the worker that it uses, over every interleaving of
-- requests.
use program_explorer.Prelude.{
  ℕ, zero, suc, ◌+◌, ◌≤◌, ◌≡◌, refl, arith, Option, none, some, List, [], ◌∷◌, ◌⊎◌,
}
use program_explorer.Peserver.LoadBalancer.{
  acquired, elapsed, Wait, get_worker, Inner, Lb, nth, set_permits, try_acquire_owned, Worker,
}

-- The permits that are left, the requests that wait for the worker's and those that hold both, and
-- the permits that were added to the worker's.
pub record State : Type 0 where
  pub lb_permits : ℕ
  pub worker_permits : ℕ
  pub waiting : ℕ
  pub holding : ℕ
  pub added : ℕ

-- A request takes the load balancer's permit, then waits for the worker's, and gets it or gives up;
-- the context of a request that is done is dropped with both; and the worker's
-- number of connections is read.
pub data Step : State → State → Type 0 where
  take_lb :
      (s : State) (n : ℕ)
      → try_acquire_owned s.lb_permits ≡ some n
      → Step s (record s { lb_permits = n; waiting = suc s.waiting })
  take_worker :
      (s : State) (n k : ℕ)
      → s.waiting ≡ suc k
      → try_acquire_owned s.worker_permits ≡ some n
      → Step s (record s { worker_permits = n; waiting = k; holding = suc s.holding })
  time_out :
      (s : State) (k : ℕ)
      → s.waiting ≡ suc k
      → Step s (record s { lb_permits = suc s.lb_permits; waiting = k })
  drop_ctx :
      (s : State) (k : ℕ)
      → s.holding ≡ suc k
      → Step s (record s {
        lb_permits = suc s.lb_permits;
        worker_permits = suc s.worker_permits;
        holding = k;
      })
  add :
      (s : State) (n : ℕ)
      → Step s (record s { worker_permits = s.worker_permits + n; added = s.added + n })

pub data Steps : State → State → Type 0 where
  done : (s : State) → Steps s s
  next : (s t u : State) → Step s t → Steps t u → Steps s u

-- A load balancer of `max_conn` permits and a worker without any.
abbrev pub initial : ℕ → State
initial max_conn = record {
  lb_permits = max_conn;
  worker_permits = 0;
  waiting = 0;
  holding = 0;
  added = 0;
}

-- No permit is lost, and none is made.
abbrev pub IsBalanced : ℕ → State → Type 0
IsBalanced max_conn s =
    (s.lb_permits + (s.waiting + s.holding) ≡ max_conn) × (s.worker_permits + s.holding ≡ s.added)

acquired_lem : (n m : ℕ) → try_acquire_owned n ≡ some m → n ≡ suc m
unfolding try_acquire_owned
acquired_lem zero m h = absurd (cc)
acquired_lem (suc n) m h = cc

Step-IsBalanced :
    (max_conn : ℕ) (s t : State) → Step s t → IsBalanced max_conn s → IsBalanced max_conn t
Step-IsBalanced max_conn _ _ (take_lb s n e) b =
    let p = acquired_lem s.lb_permits n e in (omega (arith, p, b.0), b.1)
Step-IsBalanced max_conn _ _ (take_worker s n k w e) b =
    let p = acquired_lem s.worker_permits n e in (omega (arith, w, b.0), omega (arith, p, b.1))
Step-IsBalanced max_conn _ _ (time_out s k w) b = (omega (arith, w, b.0), b.1)
Step-IsBalanced max_conn _ _ (drop_ctx s k w) b = (omega (arith, w, b.0), omega (arith, w, b.1))
Step-IsBalanced max_conn _ _ (add s n) b = (b.0, omega (arith, b.1))

Steps-IsBalanced :
    (max_conn : ℕ) (s t : State) → Steps s t → IsBalanced max_conn s → IsBalanced max_conn t
Steps-IsBalanced max_conn _ _ (done s) b = b
Steps-IsBalanced max_conn _ _ (next s t u first rest) b =
    Steps-IsBalanced max_conn t u rest (Step-IsBalanced max_conn s t first b)

-- From a start with `max_conn` permits, whatever the order of the steps of all requests: at most
-- `max_conn` requests are under way, no more of them hold the worker's permit than were added for it, and when
-- none is under way all permits are back.
pub Steps-IsBounded :
    (max_conn : ℕ) (s : State)
    → Steps (initial max_conn) s
    → (s.waiting + s.holding ≤ max_conn)
      × (s.holding ≤ s.added)
      × (s.waiting + s.holding ≡ 0 → (s.lb_permits ≡ max_conn) × (s.worker_permits ≡ s.added))
Steps-IsBounded max_conn s steps =
    let b = Steps-IsBalanced max_conn (initial max_conn) s steps (omega arith, refl) in
    (omega (arith, b.0), omega (arith, b.1), λ h. (omega (arith, b.0, h), omega (arith, b.1, h)))

-- The wait is a sequence of steps of all requests, in which this one waits up to the end.
abbrev pub Waited : State → Wait → Type 0
Waited s (acquired lb_permits worker_permits) =
    (t : State) × (k : ℕ) × Steps s t
    × (t.waiting ≡ suc k)
    × (t.lb_permits ≡ lb_permits)
    × (t.worker_permits ≡ suc worker_permits)
Waited s (elapsed lb_permits worker_permits) =
    (t : State) × (k : ℕ) × Steps s t
    × (t.waiting ≡ suc k)
    × (t.lb_permits ≡ lb_permits)
    × (t.worker_permits ≡ worker_permits)

-- A request that waits behind the load balancer's permit, of which `left` are left.
abbrev pub waiting_with : State → ℕ → ℕ → State
waiting_with s left worker_permits = record s {
  lb_permits = left;
  worker_permits = worker_permits;
  waiting = suc s.waiting;
}

module _ {Peer : Type 0} where
  pub nth-set_permits :
      (workers : List (Worker Peer)) (id n : ℕ) (w : Worker Peer)
      → nth workers id ≡ some w
      → nth (set_permits workers id n) id ≡ some (record w { max_conn = n })
  nth-set_permits [] id n w h = absurd (cc)
  nth-set_permits (v ∷ workers) zero n w h = let e : v ≡ w = cc in rw e refl
  nth-set_permits (v ∷ workers) (suc id) n w h = nth-set_permits workers id n w h

  -- The counts of a load balancer and of one of its workers, with those of requests in `s`.
  abbrev pub counts : Lb Peer → Worker Peer → State → State
  counts lb w s = record s { lb_permits = lb.max_conn; worker_permits = w.max_conn }

  -- The counts of the load balancer and of the worker are those of the state, and the worker is the
  -- same but for them.
  pub record HasCounts (lb : Lb Peer) (id : ℕ) (w : Worker Peer) (t : State) : Type 0 where
    pub lb_permits_eq : t.lb_permits ≡ lb.max_conn
    pub worker_eq : get_worker lb id ≡ some (record w { max_conn = t.worker_permits })

  -- With a context, the last step gives the worker's permit to the request; without one, the request
  -- never had any permit, or the last step gives the load balancer's back.
  abbrev pub IsStepped : Lb Peer → ℕ → Worker Peer → State → Option Inner × Lb Peer → Type 0
  IsStepped lb id w s (none, lb') =
      (lb' ≡ lb)
      ⊎ ((t : State) × (k : ℕ) × Steps (counts lb w s) t
          × (t.waiting ≡ suc k)
          × HasCounts lb' id w (record t { lb_permits = suc t.lb_permits; waiting = k }))
  IsStepped lb id w s (some inner, lb') =
      (inner.worker ≡ id)
      × (t : State) × (n : ℕ) × (k : ℕ) × Steps (counts lb w s) t
      × (t.waiting ≡ suc k)
      × (t.worker_permits ≡ suc n)
      × HasCounts lb' id w (record t { worker_permits = n; waiting = k; holding = suc t.holding })
