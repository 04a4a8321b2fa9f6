-- ===== src/Rpc/Tests.antt =====
-- A call between the two ends of Rpc/Samples, and a message on one connection.
use starry.Common.{◌≡◌, refl, sym, List, [], ◌∷◌, some, arith, ok, lookup}
use starry.Buffer.{Buffer}
use starry.Buffer.Contents.{contents}
use starry.Buffer.Append.{at_hand}
use starry.Buffer.Numbers.{to_be}
use starry.Channel.{is_writing}
use starry.Codec.{on_message}
use starry.Codec.Decode.Stream.{deliveries}
use starry.Connection.{Connection, Wrote, wrote, init, is_idle}
use starry.Connection.Inv.{stream}
use starry.RpcServer.{find, find_method, table}
use starry.Rpc.Frames.{AllAccepted, send_all, send_all-on_message, send_all-stream}
use starry.Rpc.Ends.{Called, Served, Over}
use starry.Rpc.Calls.{IsReady, CanGo, Arrived, call-answered}
use starry.Rpc.Samples.{
  Msg, rpc_library, rpc, rpc-short, same, quiet, quiet-Inv, caller, caller-Inv, server, asks,
  replies, holding, wanted,
}

ready :
    IsReady rpc_library rpc rpc-short same caller 7 quiet server 7 caller quiet
      (101 ∷ [])
      (109 ∷ [])
unfolding init lookup table find find_method
ready = record {
  caller = caller-Inv;
  own_connection = refl;
  ids = omega arith;
  connection = quiet-Inv;
  up = refl;
  fresh = refl;
  channel = refl;
  channel_connection = refl;
  offers = refl;
  back_connection = quiet-Inv;
  back_up = refl;
  back_fresh = refl;
}

asks-CanGo : CanGo rpc_library rpc rpc-short same quiet asks (wrote 18)
unfolding init to_be is_idle is_writing
asks-CanGo = record {
  short_enough = record { initialized = refl; small = omega arith };
  accepted = record { fine = omega arith; room = at_hand (omega arith) };
}

replies-CanGo : CanGo rpc_library rpc rpc-short same quiet replies (wrote 15)
unfolding init to_be is_idle is_writing
replies-CanGo = record {
  short_enough = record { initialized = refl; small = omega arith };
  accepted = record { fine = omega arith; room = at_hand (omega arith) };
}

asks-Arrived : Arrived rpc_library rpc rpc-short same (holding asks) asks 100
unfolding to_be
asks-Arrived = record {
  valid = record {
    ordered = omega arith;
    inside = omega arith;
    reserved = omega arith;
    small = omega arith;
  };
  whole = refl;
  enough = omega arith;
}

replies-Arrived : Arrived rpc_library rpc rpc-short same (holding replies) replies 100
unfolding to_be
replies-Arrived = record {
  valid = record {
    ordered = omega arith;
    inside = omega arith;
    reserved = omega arith;
    small = omega arith;
  };
  whole = refl;
  enough = omega arith;
}

call-answered_example :
    (called : Called rpc_library rpc rpc-short same caller quiet
      (101 ∷ [])
      (109 ∷ [])
      5
      wanted
      (wrote 18))
    × (served : Served rpc_library rpc rpc-short same server 7 caller quiet
        (holding asks)
        100
        1
        (101 ∷ [])
        (109 ∷ [])
        5
        6
        (wrote 15))
    × (over : Over rpc_library rpc rpc-short same called.caller 7 called.connection
        (holding replies)
        100
        1
        6)
    × (contents (holding asks) ≡ stream called.connection)
    × (contents (holding replies) ≡ stream served.connection)
    × (over.caller.answered ≡ (1, 6) ∷ [])
call-answered_example =
    call-answered rpc_library rpc rpc-short same caller 7 quiet server 7 caller quiet (101 ∷ [])
      (109 ∷ []) 5 6 wanted (wrote 18) (wrote 15) (holding asks) (holding replies) 100 ready refl
      refl asks-CanGo replies-CanGo asks-Arrived replies-Arrived

-- The same message over a connection alone.
abbrev one_message : List (Msg × Wrote)
one_message = (asks, wrote 18) ∷ []

one_message-AllAccepted : AllAccepted rpc_library rpc rpc-short quiet one_message
one_message-AllAccepted = (asks-CanGo.short_enough, asks-CanGo.accepted, λ c' e. tt)

abbrev after : Connection
after =
    (send_all-stream rpc_library rpc rpc-short quiet one_message quiet-Inv refl
      one_message-AllAccepted).0

after-sent : send_all rpc_library rpc rpc-short quiet one_message ≡ ok after
after-sent =
    (send_all-stream rpc_library rpc rpc-short quiet one_message quiet-Inv refl
      one_message-AllAccepted).1

after-stream : contents (holding asks) ≡ stream after
unfolding init to_be
after-stream =
    sym
      (send_all-stream rpc_library rpc rpc-short quiet one_message quiet-Inv refl
        one_message-AllAccepted).4

send_all-on_message_example :
    (b' : Buffer) × (on_message rpc_library rpc 100 (holding asks)
      ≡ ok (some (deliveries rpc_library rpc (asks ∷ []), b')))
    × (contents b' ≡ [])
unfolding init
send_all-on_message_example =
    send_all-on_message rpc_library rpc rpc-short quiet after one_message (holding asks) 100
      quiet-Inv refl refl one_message-AllAccepted after-sent asks-Arrived.valid after-stream
      asks-Arrived.enough
