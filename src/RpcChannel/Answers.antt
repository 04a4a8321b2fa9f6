-- ===== src/RpcChannel/Answers.antt =====
-- Each call is answered at most once, and by the response to its own id.
use starry.Common.{
  ℕ, ◌+◌, ◌^◌, ◌≤◌, ◌<◌, ◌≡◌, ◌≢◌, refl, sym, ap, subst, ◌∙◌, List, [], ◌∷◌, none, some,
  if◌then◌else◌, ◌==◌, ==_refl, ne→==_false, lookup, erase, lookup-put, lookup-erase, Bool-cases,
  inl, inr, arith, Option-cases, ==_iff, ==_false→ne, true, Outcome, ok, err, assertion, ◌⊎◌,
}
use starry.RpcChannel.{
  OutstandingCall, RpcMessage, request, response, error, RpcChannel, has_method, has_null, dispatch,
  next_id, call_method, complete, on_response, on_rpc_message, call_service_method,
}

-- Whether the caller of the id has seen an answer.
abbrev pub times : {Body : Type 0} → ℕ → List (ℕ × Body) → ℕ
times id [] = 0
times id ((j, b) ∷ xs) = (if j == id then 1 else 0) + times id xs

module _ {Name Body : Type 0} where
  -- Ids that were not used yet are neither waited for nor answered; an id that is waited for has no
  -- answer yet; no id has two.
  pub record Inv (c : RpcChannel Name Body) : Type 0 where
    pub fresh : (id : ℕ) → c.id < id → (lookup id c.outstandings ≡ none) × (times id c.answered ≡ 0)
    pub waiting : (id : ℕ) → lookup id c.outstandings ≢ none → times id c.answered ≡ 0
    pub once : (id : ℕ) → times id c.answered ≤ 1

  -- As long as ids stay below 2 ^ 63, a call takes an id that no call waits for; it is then waited
  -- for, the other calls that wait are the same, and the invariant holds again.
  pub call_method_lem :
      (c : RpcChannel Name Body) (service method : Name) (body : Body) (out : OutstandingCall)
      → Inv c
      → c.id + 1 < 2 ^ 63
      → (c' : RpcChannel Name Body) × (call_method c service method body out ≡ c')
        × Inv c'
        × (lookup c'.id c.outstandings ≡ none)
        × (lookup c'.id c'.outstandings ≡ some out)
        × ((other : ℕ) → other ≢ c'.id → lookup other c'.outstandings ≡ lookup other c.outstandings)
  unfolding call_method
  call_method_lem c service method body out v h =
      let n : ℕ = next_id c.id in
      let e : n ≡ c.id + 1 = omega arith in
      (
        call_method c service method body out,
        refl,
        record {
          fresh = λ id k. (
            lookup-put n id out c.outstandings
                ∙ (rw (ne→==_false n id (λ q. omega arith)) (v.fresh id (omega arith)).0),
            (v.fresh id (omega arith)).1,
          );
          waiting = λ id k. elim (Bool-cases (n == id)) [
            | inl hit ↦ (v.fresh id (omega (arith, (==_iff n id).0 hit))).1
            | inr miss ↦ v.waiting id (λ q. k (lookup-put n id out c.outstandings ∙ rw miss q))
          ];
          once = v.once;
        },
        (v.fresh n (omega arith)).0,
        lookup-put n n out c.outstandings ∙ rw (==_refl n) refl,
        λ other away.
            lookup-put n other out c.outstandings
            ∙ rw (ne→==_false n other (λ q. away (sym q))) refl,
      )

  -- What is left when the call of `id` is no longer waited for, and has one more answer or none.
  erased-Inv :
      (c : RpcChannel Name Body) (id : ℕ) (answered : List (ℕ × Body))
      → Inv c
      → lookup id c.outstandings ≢ none
      → ((other : ℕ) → id ≢ other → times other answered ≡ times other c.answered)
      → times id answered ≤ 1
      → Inv (record c { outstandings = erase id c.outstandings; answered = answered })
  erased-Inv c id answered v w same one = record {
    fresh = λ other k. elim (Bool-cases (id == other)) [
      | inl hit ↦
          absurd
            (w (ap (λ i. lookup i c.outstandings) ((==_iff id other).0 hit) ∙ (v.fresh other k).0))
      | inr miss ↦ (
        lookup-erase id other c.outstandings ∙ rw miss (v.fresh other k).0,
        same other (==_false→ne id other miss) ∙ (v.fresh other k).1,
      )
    ];
    waiting = λ other k. elim (Bool-cases (id == other)) [
      | inl hit ↦ absurd (k (lookup-erase id other c.outstandings ∙ rw hit refl))
      | inr miss ↦
          same other (==_false→ne id other miss)
          ∙ v.waiting other (λ q. k (lookup-erase id other c.outstandings ∙ rw miss q))
    ];
    once = λ other. elim (Bool-cases (id == other)) [
      | inl hit ↦ subst (λ i. times i answered ≤ 1) ((==_iff id other).0 hit) one
      | inr miss ↦ omega (arith, same other (==_false→ne id other miss), v.once other)
    ];
  }

  on_response-none :
      (c : RpcChannel Name Body) (id : ℕ) (body : Body)
      → lookup id c.outstandings ≡ none
      → on_response c id body ≡ c
  unfolding on_response
  on_response-none c id body e = rw (on_response, e) refl

  on_response-some :
      (c : RpcChannel Name Body) (id : ℕ) (body : Body) (out : OutstandingCall)
      → lookup id c.outstandings ≡ some out
      → on_response c id body
        ≡ complete (record c { outstandings = erase id c.outstandings }) id body out
  unfolding on_response
  on_response-some c id body out e = rw (on_response, e) refl

  complete-Inv :
      (c : RpcChannel Name Body) (id : ℕ) (body : Body) (out : OutstandingCall)
      → Inv c
      → lookup id c.outstandings ≡ some out
      → Inv (complete (record c { outstandings = erase id c.outstandings }) id body out)
  complete-Inv c id body out v e =
      let w : lookup id c.outstandings ≢ none = λ q. cc in
      let none_yet = v.waiting id w in
      elim (Bool-cases out.has_response) [
        | inr a ↦ rw a (erased-Inv c id c.answered v w (λ other k. refl) (v.once id))
        | inl a ↦ elim (Bool-cases out.has_done) [
          | inr b ↦ rw (a, b) (erased-Inv c id c.answered v w (λ other k. refl) (v.once id))
          | inl b ↦
              rw (a, b)
                (erased-Inv c id ((id, body) ∷ c.answered) v w
                  (λ other k. rw (ne→==_false id other k) (omega arith))
                  (rw (==_refl id) (omega (arith, none_yet))))
        ]
      ]

  -- What stops the process at an assertion: a message of another connection, or a request for a
  -- service whose pointer is null.
  abbrev pub IsRefused : RpcChannel Name Body → ℕ → RpcMessage Name Body → Type 0
  IsRefused c conn m =
      (conn ≢ c.conn)
      ⊎ ((id : ℕ) × (service method : Name) × (body : Body) × (m ≡ request id service method body)
          × (has_null c.services service ≡ true))

  abbrev Kept : Type 0 → Outcome (RpcChannel Name Body) → Type 0
  Kept Bad r = ((c' : RpcChannel Name Body) × (r ≡ ok c') × Inv c') ⊎ (Bad × (r ≡ err assertion))

  call_service_method-Inv :
      (c : RpcChannel Name Body) (id : ℕ) (service method : Name) (body : Body)
      → Inv c
      → Kept (has_null c.services service ≡ true) (call_service_method c id service method body)
  unfolding call_service_method
  call_service_method-Inv c id service method body v =
      elim (Bool-cases (has_null c.services service)) [
        | inl n ↦ inr (n, rw n refl)
        | inr n ↦ elim (Bool-cases (has_method c.services service method)) [
          | inl h ↦ inl (
            record c { invoked = (id, service, method, body) ∷ c.invoked },
            rw (n, h) refl,
            record { fresh = v.fresh; waiting = v.waiting; once = v.once },
          )
          | inr h ↦ inl (c, rw (n, h) refl, v)
        ]
      ]

  pub on_response-Inv :
      (c : RpcChannel Name Body) (id : ℕ) (body : Body) → Inv c → Inv (on_response c id body)
  on_response-Inv c id body v = elim (Option-cases (lookup id c.outstandings)) [
    | inl e ↦ rw (on_response-none c id body e) v
    | inr (out, e) ↦ rw (on_response-some c id body out e) (complete-Inv c id body out v e)
  ]

  dispatch-Inv :
      (c : RpcChannel Name Body) (conn : ℕ) (m : RpcMessage Name Body)
      → Inv c
      → Kept (IsRefused c conn m) (dispatch c m)
  unfolding dispatch
  dispatch-Inv c conn (request id service method body) v =
      elim (call_service_method-Inv c id service method body v) [
        | inl kept ↦ inl kept
        | inr (n, e) ↦ inr (inr (id, service, method, body, refl, n), e)
      ]
  dispatch-Inv c conn (response id body) v =
      inl (on_response c id body, refl, on_response-Inv c id body v)
  dispatch-Inv c conn (error id) v = inl (c, refl, v)

  pub on_rpc_message-own :
      (c : RpcChannel Name Body) (conn : ℕ) (m : RpcMessage Name Body)
      → c.conn ≡ conn
      → on_rpc_message c conn m ≡ dispatch c m
  unfolding on_rpc_message
  on_rpc_message-own c conn m e = rw ((==_iff conn c.conn).1 (sym e)) refl

  -- Any message on any connection, also a response that nobody waits for or that comes again, keeps
  -- the invariant, that every id is answered at most once, and none that is waited for or not used
  -- yet; or it stops the process, if it comes from a connection that is not the channel's, or asks for
  -- a service whose pointer is null.
  pub on_rpc_message-Inv :
      (c : RpcChannel Name Body) (conn : ℕ) (m : RpcMessage Name Body)
      → Inv c
      → ((c' : RpcChannel Name Body) × (on_rpc_message c conn m ≡ ok c') × Inv c')
        ⊎ (IsRefused c conn m × (on_rpc_message c conn m ≡ err assertion))
  unfolding on_rpc_message
  on_rpc_message-Inv c conn m v = elim (Bool-cases (conn == c.conn)) [
    | inr away ↦ inr (inl (==_false→ne conn c.conn away), rw away refl)
    | inl own ↦
        subst (Kept (IsRefused c conn m))
          (sym (on_rpc_message-own c conn m (sym ((==_iff conn c.conn).0 own))))
          (dispatch-Inv c conn m v)
  ]

  complete-outstandings :
      (c : RpcChannel Name Body) (id : ℕ) (body : Body) (out : OutstandingCall)
      → (complete c id body out).outstandings ≡ c.outstandings
  complete-outstandings c id body out = ground arith

  -- After the response to a call, a second response with the same id changes nothing.
  pub on_response-twice :
      (c : RpcChannel Name Body) (id : ℕ) (body again : Body)
      → on_response (on_response c id body) id again ≡ on_response c id body
  on_response-twice c id body again =
      on_response-none (on_response c id body) id again
        (elim (Option-cases (lookup id c.outstandings)) [
          | inl e ↦ rw (on_response-none c id body e) e
          | inr (out, e) ↦ rw (on_response-some c id body out e) (
              ap (lookup id) (
                complete-outstandings (record c { outstandings = erase id c.outstandings }) id body
                  out)
              ∙ lookup-erase id id c.outstandings
              ∙ rw (==_refl id) refl)
        ])
