-- ===== src/Rpc/Frames.antt =====
-- One message over a connection: what `send` hands to the socket is what the other end delivers.
use starry.Common.{
  ℕ, ◌+◌, ◌-◌, ◌≤◌, ◌<◌, ◌≡◌, refl, ap, sym, subst, ◌∙◌, true, List, [], ◌∷◌, ◌++◌, append_assoc,
  append-nil, length, length-append, some, Outcome, ok, ◌>>=◌, arith, lt→leb_false,
}
use starry.Buffer.{Buffer}
use starry.Buffer.Contents.{contents}
use starry.Buffer.Contents
use starry.Buffer.Append.{Fits}
use starry.Buffer.Numbers.{to_be}
use starry.Buffer.Numbers.Laws.{length-to_be}
use starry.Codec.Protobuf.{Library}
use starry.Codec.{Event, delivered, on_message, min_message_len, header_len}
use starry.Codec.Frames.{frame, body, next, wait, length-body}
use starry.Codec.Sending.{frame_to_send_lem}
use starry.Codec.Decode.Stream.{frames, deliveries, AllSendable}
use starry.Codec.Decode.Loop.{on_message-frames}
use starry.Connection.{Connection, connected, Wrote, send_buffer}
use starry.Connection.Inv.{Inv, stream}
use starry.Connection.Sending.{IsFine, taken}
use starry.Connection.Buffers.{send_buffer_lem}
use starry.Rpc.{codec_send, deliver_all, read_messages}

module _ (l : Library) (tag : List ℕ) (short : length tag ≤ 512) where
  open l use {Message, is_initialized, serialize}

  -- A message that `send` can send: protobuf accepts it, and it has fewer than 256 bytes.
  pub record IsShort (m : Message) : Type 0 where
    pub initialized : is_initialized m ≡ true
    pub small : length (serialize m) < 256

  length-frame : (m : Message) → length (frame l tag m) ≡ length tag + length (serialize m) + 8
  length-frame m = omega (
    arith,
    length-append (to_be 4 (length (body l tag m))) (body l tag m),
    length-to_be 4 (length (body l tag m)),
    length-body l tag m,
  )

  -- The socket reports no error, and what it does not take at once fits into the output.
  pub record Accepts (c : Connection) (m : Message) (w : Wrote) : Type 0 where
    pub fine : IsFine w (length (frame l tag m))
    pub room : Fits c.output (length (frame l tag m) - taken c w)

  codec_send-steps :
      (c c' : Connection) (buf buf' : Buffer) (m : Message) (w : Wrote)
      → starry.Codec.frame_to_send l tag m ≡ ok buf
      → send_buffer c buf w ≡ ok (c', buf')
      → codec_send l tag c m w ≡ ok c'
  unfolding codec_send
  codec_send-steps c c' buf buf' m w e f = rw (e, f) refl

  -- On a connected connection the codec's `send` puts exactly the frame of a short message behind
  -- what the connection has accepted before.
  pub codec_send_lem :
      (c : Connection) (m : Message) (w : Wrote)
      → Inv c
      → c.state ≡ connected
      → IsShort m
      → Accepts c m w
      → (c' : Connection) × (codec_send l tag c m w ≡ ok c')
        × Inv c'
        × (c'.state ≡ connected)
        × (stream c' ≡ stream c ++ frame l tag m)
  codec_send_lem c m w v up s a =
      let (buf, e, vb, cb) = frame_to_send_lem l tag short m s.initialized s.small in
      let n : length (contents buf) ≡ length (frame l tag m) = ap length cb in
      let (c', buf', f, v', up', t, _) =
        send_buffer_lem c buf w v up vb (omega (arith, length-frame m, s.small))
          (subst (IsFine w) (sym n) a.fine)
          (subst (λ k. Fits c.output (k - taken c w)) (sym n) a.room) in
      (c', codec_send-steps c c' buf buf' m w e f, v', up', t ∙ ap (λ x. stream c ++ x) cb)

  -- Several messages, sent one after another, each with what the socket answers.
  unfoldable pub send_all : Connection → List (Message × Wrote) → Outcome Connection
  send_all c [] = ok c
  send_all c ((m, w) ∷ rest) = codec_send l tag c m w >>= λ c'. send_all c' rest

  abbrev pub messages : List (Message × Wrote) → List Message
  messages [] = []
  messages ((m, w) ∷ rest) = m ∷ messages rest

  -- Each message is short, and is accepted by the connection that the messages before it leave.
  abbrev pub AllAccepted : Connection → List (Message × Wrote) → Type 0
  AllAccepted c [] = Unit {0}
  AllAccepted c ((m, w) ∷ rest) =
      IsShort m
      × Accepts c m w
      × ((c' : Connection) → codec_send l tag c m w ≡ ok c' → AllAccepted c' rest)

  pub send_all-stream :
      (c : Connection) (ms : List (Message × Wrote))
      → Inv c
      → c.state ≡ connected
      → AllAccepted c ms
      → (c' : Connection) × (send_all c ms ≡ ok c')
        × Inv c'
        × (c'.state ≡ connected)
        × (stream c' ≡ stream c ++ frames l tag (messages ms))
        × AllSendable l tag (messages ms)
  unfolding send_all
  send_all-stream c [] v up a = (c, refl, v, up, sym (append-nil (stream c)), tt)
  send_all-stream c ((m, w) ∷ rest) v up a =
      let (c1, e1, v1, up1, t1) = codec_send_lem c m w v up a.0 a.1 in
      let (c2, e2, v2, up2, t2, good) = send_all-stream c1 rest v1 up1 (a.2 c1 e1) in
      (
        c2,
        rw e1 e2,
        v2,
        up2,
        t2
            ∙ ap (λ x. x ++ frames l tag (messages rest)) t1
            ∙ append_assoc (stream c) (frame l tag m) (frames l tag (messages rest)),
        (a.0.initialized, omega (arith, a.0.small), good),
      )

  next-nil : next l tag [] ≡ wait
  unfolding next
  next-nil = rw (lt→leb_false (min_message_len l tag + header_len) 0 (omega arith)) refl

  ok_eq : {c c' : Connection} → ok c ≡ ok c' → c ≡ c'
  ok_eq h = cc

  -- Messages that one end sends, one after another, on a connected connection that has accepted
  -- nothing before, are delivered at the other end, whole, in order and none twice, once all of
  -- the stream stands in a buffer there; nothing is left over. Needed are that each message is
  -- initialized and has fewer than 256 bytes, with a tag of at most 512 bytes; that the socket reports
  -- no error but EWOULDBLOCK at any of them and takes no more than it is given, and that what is left
  -- fits into the output; and more fuel than bytes.
  pub send_all-on_message :
      (c c' : Connection) (ms : List (Message × Wrote)) (b : Buffer) (fuel : ℕ)
      → Inv c
      → c.state ≡ connected
      → stream c ≡ []
      → AllAccepted c ms
      → send_all c ms ≡ ok c'
      → Contents.Inv b
      → contents b ≡ stream c'
      → length (contents b) < fuel
      → (b' : Buffer) × (on_message l tag fuel b ≡ ok (some (deliveries l tag (messages ms), b')))
        × (contents b' ≡ [])
  send_all-on_message c c' ms b fuel v up fresh a sent vb same enough =
      let (c2, e, _, _, t, good) = send_all-stream c ms v up a in
      let all : List ℕ = frames l tag (messages ms) in
      let (b', r, _, left) =
        on_message-frames l tag (omega arith) fuel b (messages ms) [] vb enough
          (same
            ∙ ap stream (ok_eq (sym sent ∙ e))
            ∙ t
            ∙ ap (λ x. x ++ all) fresh
            ∙ sym (append-nil all))
          good next-nil in
      (b', r, left)

  -- One frame in a buffer is one delivery.
  pub on_message-frame :
      (m : Message) (b : Buffer) (fuel : ℕ)
      → IsShort m
      → Contents.Inv b
      → contents b ≡ frame l tag m
      → length (contents b) < fuel
      → (b' : Buffer) × (on_message l tag fuel b ≡ ok (some (delivered m ∷ [], b')))
        × (contents b' ≡ [])
  on_message-frame m b fuel s vb same enough =
      let all : frames l tag (m ∷ []) ≡ frame l tag m = append-nil (frame l tag m) in
      let (b', r, _, left) =
        on_message-frames l tag (omega arith) fuel b (m ∷ []) [] vb enough
          (same ∙ sym all ∙ sym (append-nil (frames l tag (m ∷ []))))
          (s.initialized, omega (arith, s.small), tt) next-nil in
      (b', r, left)

  -- The callback is then called once.
  pub read_messages-frame :
      {S : Type 0} (callback : S → Message → Outcome S) (on_error : S → S) (s s' : S) (m : Message)
      (b : Buffer) (fuel : ℕ)
      → IsShort m
      → Contents.Inv b
      → contents b ≡ frame l tag m
      → length (contents b) < fuel
      → callback s m ≡ ok s'
      → (b' : Buffer) × (read_messages l tag callback on_error fuel s b ≡ ok (some (s', b')))
        × (contents b' ≡ [])
  unfolding read_messages deliver_all
  read_messages-frame callback on_error s s' m b fuel short_m vb same enough e =
      let (b', r, left) = on_message-frame m b fuel short_m vb same enough in
      (b', rw (r, e) refl, left)
