-- ===== src/Rpc/Samples.antt =====
-- Two ends with an encoding of messages that satisfies the laws.
use starry.Common.{
  ℕ, zero, suc, ◌+◌, ◌%◌, ◌^◌, ◌≤◌, ◌<◌, ◌≡◌, refl, ap₂, ◌∙◌, true, List, [], ◌∷◌, ◌++◌, Option,
  none, some, length, take, drop, replicate, arith, take-append_le, take-le, drop-append_ge, lookup,
}
use starry.Buffer.{Buffer}
use starry.Buffer.Contents.{contents}
use starry.Buffer.Contents
use starry.Channel.{is_writing}
use starry.Channel.Mask.{reading}
use starry.Codec.Protobuf.{Library}
use starry.Codec.Frames.{frame}
use starry.Connection.{Connection, connected, init}
use starry.Connection.Inv.{Inv}
use starry.RpcChannel.{RpcChannel, RpcMessage, request, response, error, OutstandingCall}
use starry.RpcChannel.Answers
use starry.RpcServer.{Name, Descriptor, RpcServer}
use starry.Rpc.{Accessors}

abbrev pub Msg : Type 0
Msg = RpcMessage Name ℕ

abbrev pub encode : Msg → List ℕ
encode (request id service method body) = 0 ∷ id ∷ body ∷ length service ∷ (service ++ method)
encode (response id body) = 1 ∷ id ∷ body ∷ []
encode (error id) = 2 ∷ id ∷ []

abbrev pub decode : List ℕ → Option Msg
decode (zero ∷ id ∷ body ∷ n ∷ rest) = some (request id (take n rest) (drop n rest) body)
decode (suc zero ∷ id ∷ body ∷ []) = some (response id body)
decode (suc (suc k) ∷ id ∷ []) = some (error id)
decode other = none

pub decode-encode : (m : Msg) → decode (encode m) ≡ some m
decode-encode (request id service method body) =
    ap₂ (λ x y. some (request id x y body))
      (take-append_le (length service) service method (omega arith)
        ∙ take-le (length service) service (omega arith))
      (drop-append_ge (length service) 0 service method (omega arith))
decode-encode (response id body) = refl
decode-encode (error id) = refl

abbrev pub sum : List ℕ → ℕ
sum [] = 0
sum (x ∷ xs) = x + sum xs

pub sum-lt : (xs : List ℕ) → sum xs % 2 ^ 32 < 2 ^ 32
sum-lt xs = omega arith

abbrev pub rpc_library : Library
rpc_library = record {
  Message = Msg;
  is_initialized = λ m. true;
  byte_size = λ m. length (encode m);
  serialize = encode;
  parse_from_array = decode;
  adler32 = λ bytes. sum bytes % 2 ^ 32;
  byte_size-serialize = λ m. refl;
  parse_from_array-serialize = λ m h. decode-encode m;
  adler32-lt = sum-lt;
}

abbrev pub rpc : List ℕ
rpc = 82 ∷ 80 ∷ 67 ∷ 48 ∷ []

pub rpc-short : length rpc ≤ 512
rpc-short = omega arith

abbrev pub same : Accessors rpc_library ℕ
same = record { write = λ m. m; read = λ m. m; read-write = λ m. refl }

abbrev pub empty_buffer : Buffer
empty_buffer = record { bytes = replicate 16 0; reader_index = 8; writer_index = 8 }

pub empty_buffer-Inv : Contents.Inv empty_buffer
empty_buffer-Inv = record {
  ordered = omega arith;
  inside = omega arith;
  reserved = omega arith;
  small = omega arith;
}

abbrev pub quiet : Connection
quiet = record init {
  state = connected;
  events = 3;
  registered = true;
  tied = true;
  input = empty_buffer;
  output = empty_buffer;
}

pub quiet-Inv : Inv quiet
unfolding init is_writing
quiet-Inv = record {
  input_valid = empty_buffer-Inv;
  output_valid = empty_buffer-Inv;
  mask = reading;
  pending = λ w. absurd (cc);
  empty = λ s w. refl;
  closed = λ s. absurd (cc);
  shut = λ s. absurd (cc);
}

abbrev pub caller : RpcChannel Name ℕ
caller = record {
  conn = 7;
  id = 0;
  outstandings = [];
  services = none;
  sent = [];
  answered = [];
  invoked = [];
}

pub caller-Inv : Answers.Inv caller
unfolding lookup
caller-Inv = record {
  fresh = λ id h. (refl, refl);
  waiting = λ id h. refl;
  once = λ id. omega arith;
}

abbrev pub echo : Descriptor
echo = record {
  full_name = 101 ∷ [];
  methods =
      record {
        name = 109 ∷ [];
        full_name = 101 ∷ 46 ∷ 109 ∷ [];
        input_type = 105 ∷ [];
        output_type = 111 ∷ [];
      }
      ∷ [];
  file = record { name = []; debug_string = [] };
  dependencies = [];
}

abbrev pub server : RpcServer ℕ
server = record { services = (101 ∷ [], echo) ∷ []; channels = (7, caller) ∷ [] }

abbrev pub asks : Msg
asks = request 1 (101 ∷ []) (109 ∷ []) 5

abbrev pub replies : Msg
replies = response 1 6

abbrev pub holding : Msg → Buffer
holding m = record {
  bytes = replicate 8 0 ++ frame rpc_library rpc m;
  reader_index = 8;
  writer_index = 8 + length (frame rpc_library rpc m);
}

abbrev pub wanted : OutstandingCall
wanted = record { has_response = true; has_done = true }
