-- ===== src/TcpServer/Table.antt =====
-- The table of the connections of a server, and what becomes of each connection.
use starry.Common.{
  ℕ, ◌+◌, ◌≤◌, ◌≡◌, ◌≢◌, refl, sym, ap, subst, ◌∙◌, Bool, true, false, List, [], ◌∷◌, ◌++◌, Option,
  none, some, lookup, put, erase, lookup-put, lookup-erase, ◌==◌, ==_refl, ==_iff, ◌⊎◌,
  Option-cases, ne→==_false, Bool-cases, inl, inr, if◌then◌else◌, ok, err, assertion, arith,
}
use starry.LoopPool.Turns.{IsReady, get_next_loop-IsReady}
use starry.TcpServer.{
  Conn, Job, establish, destroy, TcpServer, new_connection, remove_connection_in_loop,
}

-- How often the connection `id` was established and destroyed.
abbrev pub established : ℕ → List Job → ℕ
established id [] = 0
established id (establish l j ∷ jobs) =
    if j == id then 1 + established id jobs else established id jobs
established id (destroy l j ∷ jobs) = established id jobs

abbrev pub destroyed : ℕ → List Job → ℕ
destroyed id [] = 0
destroyed id (establish l j ∷ jobs) = destroyed id jobs
destroyed id (destroy l j ∷ jobs) = if j == id then 1 + destroyed id jobs else destroyed id jobs

abbrev pub alive : Option Conn → ℕ
alive none = 0
alive (some c) = 1

established-append :
    (id : ℕ) (xs ys : List Job) → established id (xs ++ ys) ≡ established id xs + established id ys
established-append id [] ys = omega arith
established-append id (establish l j ∷ xs) ys = ground (arith, established-append id xs ys)
established-append id (destroy l j ∷ xs) ys = established-append id xs ys

destroyed-append :
    (id : ℕ) (xs ys : List Job) → destroyed id (xs ++ ys) ≡ destroyed id xs + destroyed id ys
destroyed-append id [] ys = omega arith
destroyed-append id (destroy l j ∷ xs) ys = ground (arith, destroyed-append id xs ys)
destroyed-append id (establish l j ∷ xs) ys = destroyed-append id xs ys

establish-count :
    (id l n : ℕ) (jobs : List Job)
    → (established id (jobs ++ (establish l n ∷ []))
        ≡ established id jobs + (if n == id then 1 else 0))
      × (destroyed id (jobs ++ (establish l n ∷ [])) ≡ destroyed id jobs)
establish-count id l n jobs = (
  ground (arith, established-append id jobs (establish l n ∷ [])),
  omega (arith, destroyed-append id jobs (establish l n ∷ [])),
)

destroy-count :
    (id l n : ℕ) (jobs : List Job)
    → (destroyed id (jobs ++ (destroy l n ∷ [])) ≡ destroyed id jobs + (if n == id then 1 else 0))
      × (established id (jobs ++ (destroy l n ∷ [])) ≡ established id jobs)
destroy-count id l n jobs = (
  ground (arith, destroyed-append id jobs (destroy l n ∷ [])),
  omega (arith, established-append id jobs (destroy l n ∷ [])),
)

alive-if :
    (b : Bool) (x y : Option Conn) → alive (if b then x else y) ≡ (if b then alive x else alive y)
alive-if true x y = refl
alive-if false x y = refl

alive-put :
    (n id : ℕ) (c : Conn) (m : List (ℕ × Conn))
    → alive (lookup id (put n c m)) ≡ (if n == id then 1 else alive (lookup id m))
alive-put n id c m = ap alive (lookup-put n id c m) ∙ alive-if (n == id) (some c) (lookup id m)

alive-erase :
    (n id : ℕ) (m : List (ℕ × Conn))
    → alive (lookup id (erase n m)) ≡ (if n == id then 0 else alive (lookup id m))
alive-erase n id m = ap alive (lookup-erase n id m) ∙ alive-if (n == id) none (lookup id m)

-- Every connection that was ever made was established once, and was destroyed once exactly when it
-- is no longer in the table; a number is not used before its turn.
pub record Inv (s : TcpServer) : Type 0 where
  pub ready : IsReady s.thread_pool
  pub unused :
      (id : ℕ)
      → s.next_conn_id ≤ id
      → (lookup id s.connections ≡ none) × (established id s.jobs ≡ 0)
  pub once : (id : ℕ) → established id s.jobs ≤ 1
  pub balance :
      (id : ℕ) → established id s.jobs ≡ destroyed id s.jobs + alive (lookup id s.connections)

-- `newConnection` never fails: it puts the connection of the descriptor into the table under a number
-- that no other has, leaves the others there, and has it established in its loop.
pub new_connection_lem :
    (s : TcpServer) (fd : ℕ)
    → Inv s
    → (s' : TcpServer) × (conn : Conn) × (new_connection s fd ≡ ok s')
      × Inv s'
      × (lookup s.next_conn_id s.connections ≡ none)
      × (lookup s.next_conn_id s'.connections ≡ some conn)
      × ((id : ℕ) → s.next_conn_id ≢ id → lookup id s'.connections ≡ lookup id s.connections)
      × (conn.fd ≡ fd)
      × (s'.next_conn_id ≡ s.next_conn_id + 1)
unfolding new_connection
new_connection_lem s fd i =
    let g = get_next_loop-IsReady s.thread_pool i.ready in
    let n = s.next_conn_id in
    let conn : Conn = record { name = n; fd = fd; io_loop = g.0 } in
    (
      record s {
        thread_pool = g.1;
        next_conn_id = n + 1;
        connections = put n conn s.connections;
        jobs = s.jobs ++ (establish g.0 n ∷ []);
      },
      conn,
      rw (new_connection, g.2) refl,
      record {
        ready = g.3;
        unused = λ id h. (
          lookup-put n id conn s.connections
              ∙ ap (λ b. if b then some conn else lookup id s.connections)
                  (ne→==_false n id (λ e. omega (arith, e, h)))
              ∙ (i.unused id (omega (arith, h))).0,
          ground
              (arith, (establish-count id g.0 n s.jobs).0, (i.unused id (omega (arith, h))).1, h),
        );
        once = λ id. made_once id g.0;
        balance = λ id. made_balance id g.0 conn;
      },
      (i.unused n (omega arith)).0,
      rw (lookup-put n n conn s.connections, ==_refl n) refl,
      λ id h. rw (lookup-put n id conn s.connections, ne→==_false n id h) refl,
      refl,
      refl,
    )
  where
    made_once : (id l : ℕ) → established id (s.jobs ++ (establish l s.next_conn_id ∷ [])) ≤ 1
    made_once id l = elim (Bool-cases (s.next_conn_id == id)) [
      | inl e ↦ ground (
        arith,
        (establish-count id l s.next_conn_id s.jobs).0,
        (i.unused id (ground (arith, e))).1,
      )
      | inr e ↦ ground (arith, (establish-count id l s.next_conn_id s.jobs).0, i.once id, e)
    ]

    made_balance :
        (id l : ℕ) (conn : Conn)
        → established id (s.jobs ++ (establish l s.next_conn_id ∷ []))
          ≡ destroyed id (s.jobs ++ (establish l s.next_conn_id ∷ []))
            + alive (lookup id (put s.next_conn_id conn s.connections))
    made_balance id l conn =
        let c = establish-count id l s.next_conn_id s.jobs in
        elim (Bool-cases (s.next_conn_id == id)) [
          | inl e ↦ ground (
            arith,
            c.0,
            c.1,
            alive-put s.next_conn_id id conn s.connections,
            i.balance id,
            ap alive (i.unused id (ground (arith, e))).0,
            e,
          )
          | inr e ↦
              ground
                (arith, c.0, c.1, alive-put s.next_conn_id id conn s.connections, i.balance id, e)
        ]

-- `removeConnectionInLoop` takes a connection of the table out of it, leaves the others there, and
-- queues one job, its destruction in its own loop, so that it is destroyed once; for a connection that is no longer there it stops at the
-- assertion.
pub remove_connection_lem :
    (s : TcpServer) (conn : Conn)
    → Inv s
    → ((lookup conn.name s.connections ≡ none) × (remove_connection_in_loop s conn ≡ err assertion))
      ⊎ ((s' : TcpServer) × (remove_connection_in_loop s conn ≡ ok s')
          × Inv s'
          × (s'.jobs ≡ s.jobs ++ (destroy conn.io_loop conn.name ∷ []))
          × (lookup conn.name s'.connections ≡ none)
          × ((id : ℕ) → conn.name ≢ id → lookup id s'.connections ≡ lookup id s.connections))
unfolding remove_connection_in_loop
remove_connection_lem s conn i = elim (Option-cases (lookup conn.name s.connections)) [
  | inl e ↦ inl (e, rw (remove_connection_in_loop, e) refl)
  | inr (c, e) ↦
      let n = conn.name in
      inr (
        record s {
          connections = erase n s.connections;
          jobs = s.jobs ++ (destroy conn.io_loop n ∷ []);
        },
        rw (remove_connection_in_loop, e) refl,
        record {
          ready = i.ready;
          unused = λ id h. (
            lookup-erase n id s.connections
                ∙ still_none (n == id) (lookup id s.connections) (i.unused id h).0,
            (destroy-count id conn.io_loop n s.jobs).1 ∙ (i.unused id h).1,
          );
          once =
              λ id. subst (λ x. x ≤ 1) (sym (destroy-count id conn.io_loop n s.jobs).1) (i.once id);
          balance = λ id. left_balance id conn.io_loop n (ap alive e);
        },
        refl,
        rw (lookup-erase n n s.connections, ==_refl n) refl,
        λ id h. rw (lookup-erase n id s.connections, ne→==_false n id h) refl,
      )
]
  where
    still_none : (b : Bool) (o : Option Conn) → o ≡ none → (if b then none else o) ≡ none
    still_none true o h = refl
    still_none false o h = h

    left_balance :
        (id l n : ℕ)
        → alive (lookup n s.connections) ≡ 1
        → established id (s.jobs ++ (destroy l n ∷ []))
          ≡ destroyed id (s.jobs ++ (destroy l n ∷ [])) + alive (lookup id (erase n s.connections))
    left_balance id l n a =
        let c = destroy-count id l n s.jobs in
        elim (Bool-cases (n == id)) [
          | inl e ↦
              let here : alive (lookup id s.connections) ≡ 1 =
                ap (λ x. alive (lookup x s.connections)) (sym ((==_iff n id).0 e)) ∙ a in
              ground (arith, c.0, c.1, alive-erase n id s.connections, i.balance id, here, e)
          | inr e ↦ ground (arith, c.0, c.1, alive-erase n id s.connections, i.balance id, e)
        ]
