-- ===== src/RpcChannel/Tests.antt =====
-- A channel with two calls that wait; names and bodies are numbers.
use starry.Common.{
  ℕ, ◌≡◌, refl, true, [], ◌∷◌, none, lookup, put, erase, arith, sym, subst, ok, err, assertion, ◌⊎◌,
}
use starry.RpcChannel.{
  OutstandingCall, response, RpcChannel, call_method, on_response, on_rpc_message,
}
use starry.RpcChannel.Answers.{Inv, IsRefused, call_method_lem, on_rpc_message-Inv}

abbrev empty : RpcChannel ℕ ℕ
empty = record {
  conn = 7;
  id = 0;
  outstandings = [];
  services = none;
  sent = [];
  answered = [];
  invoked = [];
}

abbrev wanted : OutstandingCall
wanted = record { has_response = true; has_done = true }

empty-Inv : Inv empty
unfolding lookup
empty-Inv = record {
  fresh = λ id h. (refl, refl);
  waiting = λ id h. refl;
  once = λ id. omega arith;
}

-- The second of two calls is answered first.
abbrev two_calls : RpcChannel ℕ ℕ
two_calls = call_method (call_method empty 1 2 3 wanted) 1 2 4 wanted

answered-out_of_order :
    (on_response (on_response two_calls 2 40) 1 30).answered ≡ (1, 30) ∷ (2, 40) ∷ []
unfolding call_method on_response lookup put erase
answered-out_of_order = refl

one_call-Inv : Inv (call_method empty 1 2 3 wanted)
one_call-Inv =
    let (c, e, v, free, waits, others) =
      call_method_lem empty 1 2 3 wanted empty-Inv (omega arith) in
    subst Inv (sym e) v

two_calls-Inv : Inv two_calls
unfolding call_method
two_calls-Inv =
    let (c, e, v, free, waits, others) =
      call_method_lem (call_method empty 1 2 3 wanted) 1 2 4 wanted one_call-Inv (omega arith) in
    subst Inv (sym e) v

-- The second call is answered, on the channel's own connection.
on_rpc_message-Inv_example :
    ((c : RpcChannel ℕ ℕ) × (on_rpc_message two_calls 7 (response 2 40) ≡ ok c) × Inv c)
    ⊎ (IsRefused two_calls 7 (response 2 40)
        × (on_rpc_message two_calls 7 (response 2 40) ≡ err assertion))
on_rpc_message-Inv_example = on_rpc_message-Inv two_calls 7 (response 2 40) two_calls-Inv
