-- ===== src/Connection/Buffers.antt =====
-- `send(Buffer*)`: the readable bytes of a buffer go out, and the buffer is empty.
use starry.Common.{
  ◌-◌, ◌++◌, ◌∙◌, ◌≤◌, ◌≡◌, refl, inl, inr, [], length, Bool-cases, arith, max_size, Outcome, ok,
  ◌>>=◌, ap, if◌then◌else◌,
}
use starry.Buffer.{Buffer, retrieve_all, readable_bytes, read_at}
use starry.Buffer.Contents.{contents, readable_lem}
use starry.Buffer.Contents
use starry.Buffer.Space.{read_at-ok}
use starry.Buffer.Retrieve.{retrieve_all_lem}
use starry.Buffer.Append.{Fits}
use starry.Connection.{Connection, connected, Wrote, is_connected, send_in_loop, send_buffer}
use starry.Connection.Inv.{Inv, stream}
use starry.Connection.Output.{Sendable}
use starry.Connection.Sending.{IsFine, taken, send_in_loop_lem}

-- A connection on which a user can send.
pub connected-Sendable : (c : Connection) → Inv c → c.state ≡ connected → Sendable c
connected-Sendable c v up = record {
  inv = v;
  open_side = elim (Bool-cases c.write_shut) [
    | inl shut ↦ absurd ((v.shut shut).0 up)
    | inr fine ↦ fine
  ];
  live = λ down. cc;
}

read_contents :
    (b : Buffer)
    → Contents.Inv b
    → read_at b.bytes b.reader_index (readable_bytes b) ≡ ok (contents b)
read_contents b v =
    rw (readable_lem b v)
      (read_at-ok b.bytes b.reader_index (b.writer_index - b.reader_index) (omega arith))

send_buffer-steps :
    (c c' : Connection) (b : Buffer) (w : Wrote)
    → c.state ≡ connected
    → Contents.Inv b
    → send_in_loop c (contents b) w ≡ ok c'
    → send_buffer c b w ≡ ok (c', retrieve_all b)
unfolding send_buffer
send_buffer-steps c c' b w up v e =
    ap (λ s. if is_connected s then sent else ok (c, b)) up ∙ rw (read_contents b v, e) refl
  where
    sent : Outcome (Connection × Buffer)
    sent = do
      bytes ← read_at b.bytes b.reader_index (readable_bytes b)
      c2 ← send_in_loop c bytes w
      ok (c2, retrieve_all b)

-- On a connected connection `send(Buffer*)` accepts all readable bytes of the buffer, in order, behind what was
-- accepted before, and leaves the buffer empty.
pub send_buffer_lem :
    (c : Connection) (b : Buffer) (w : Wrote)
    → Inv c
    → c.state ≡ connected
    → Contents.Inv b
    → length (contents b) ≤ max_size
    → IsFine w (length (contents b))
    → Fits c.output (length (contents b) - taken c w)
    → (c' : Connection) × (b' : Buffer) × (send_buffer c b w ≡ ok (c', b'))
      × Inv c'
      × (c'.state ≡ connected)
      × (stream c' ≡ stream c ++ contents b)
      × (contents b' ≡ [])
send_buffer_lem c b w v up vb small fine room =
    let (c', e, v', s', t) =
      send_in_loop_lem c (contents b) w (connected-Sendable c v up) small fine room in
    (
      c',
      retrieve_all b,
      send_buffer-steps c c' b w up vb e,
      v',
      s' ∙ up,
      t,
      (retrieve_all_lem b vb).1,
    )
