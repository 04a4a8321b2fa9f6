-- ===== src/Codec/Sending.antt =====
-- What `send` hands to the connection: a frame for short messages, a stopped process for others.
use native.Mathlib.Decide.{dec_lt}
use starry.Common.{
  ℕ, ◌+◌, ◌%◌, ◌^◌, ◌≤◌, ◌<◌, ◌≡◌, refl, ap, ap₂, ◌∙◌, ◌⊎◌, inl, inr, true, false, List, ◌++◌,
  length, length-append, arith, ok, err, assertion,
}
use starry.Buffer.{Buffer, init, initial_size}
use starry.Buffer.Contents.{Inv, contents, init-Inv}
use starry.Buffer.Append.{
  extended_by, extended_by-Inv, contents-extended_by, append-at_hand, written, written-Inv,
  contents-written, length-written, ensure-Ensured, Fits, at_hand, grows,
}
use starry.Buffer.Numbers.{to_be}
use starry.Codec.Protobuf.{Library}
use starry.Codec.{minus_one, serialize_to_buffer, seal, fill_empty_buffer, frame_to_send}
use starry.Codec.Frames.{tagged, body, frame, length-body}
use starry.Codec.Encode.{
  seal_lem, seal-assertion, serialize-small, serialize-large, serialize-uninitialized,
}

abbrev fresh : Buffer
fresh = init initial_size

module _ (l : Library) (tag : List ℕ) (short : length tag ≤ 512) where
  open l use {Message, is_initialized, serialize, adler32}

  start : Buffer
  start = extended_by fresh tag

  start-Inv : Inv start
  unfolding start init
  start-Inv = extended_by-Inv fresh tag (init-Inv initial_size (omega arith)) (omega arith)

  contents-start : contents start ≡ tag
  unfolding start init
  contents-start = contents-extended_by fresh tag (init-Inv initial_size (omega arith))

  start_indices :
      (start.reader_index ≡ 8) × (start.writer_index ≡ 8 + length tag) × (length start.bytes ≡ 1032)
  unfolding start init
  start_indices = (refl, refl, length-written fresh tag (omega arith))

  fill-steps :
      (m : Message) (size : ℕ) (filled : Buffer)
      → serialize_to_buffer l tag m start ≡ ok (size, filled)
      → frame_to_send l tag m ≡ seal l tag filled size
  unfolding frame_to_send fill_empty_buffer start init
  fill-steps m size filled e =
      rw (append-at_hand fresh tag (init-Inv initial_size (omega arith)) (omega arith), e) refl

  -- An initialized message of fewer than 256 bytes is sent as its frame, for a tag of at most 512
  -- bytes.
  pub frame_to_send_lem :
      (m : Message)
      → is_initialized m ≡ true
      → length (serialize m) < 256
      → (b : Buffer) × (frame_to_send l tag m ≡ ok b) × Inv b × (contents b ≡ frame l tag m)
  frame_to_send_lem m inited small =
      let n : ℕ = length (serialize m) in
      let (r, w, lb) = start_indices in
      let filled : Buffer = extended_by start (serialize m) in
      let v : Inv filled = extended_by-Inv start (serialize m) start-Inv (omega arith) in
      let c : contents filled ≡ tagged l tag m =
        contents-extended_by start (serialize m) start-Inv
        ∙ ap (λ t. t ++ serialize m) contents-start in
      let lc : length (contents filled) ≡ length tag + n =
        ap length c ∙ length-append tag (serialize m) in
      let lf : length filled.bytes ≡ 1032 = length-written start (serialize m) (omega arith) ∙ lb in
      let e = serialize-small l tag m start inited small start-Inv (omega arith) in
      let (b, s, v', c') = seal_lem l tag filled n v (omega arith) (omega arith) lc (omega arith) in
      let total : (length (contents filled) + 4) % 2 ^ 32 ≡ length (body l tag m) =
        omega (arith, length-body l tag m) in
      (
        b,
        fill-steps m n filled e ∙ s,
        v',
        c' ∙ ap₂ (λ k t. to_be 4 k ++ (t ++ to_be 4 (adler32 t))) total c,
      )

  -- An initialized message of 256 bytes or more, of any size that a message may have, stops the
  -- process at the assertion on the total size, and so does one that is not initialized.
  pub frame_to_send-assertion :
      (m : Message)
      → ((is_initialized m ≡ true) × (256 ≤ length (serialize m)) × (length (serialize m) < 2 ^ 31))
        ⊎ (is_initialized m ≡ false)
      → frame_to_send l tag m ≡ err assertion
  frame_to_send-assertion m (inr inited) =
      let (r, w, lb) = start_indices in
      fill-steps m minus_one start (serialize-uninitialized l tag m start inited)
      ∙ seal-assertion l tag start start-Inv (omega arith) (ap length contents-start)
  frame_to_send-assertion m (inl (inited, large, below)) =
      let n : ℕ = length (serialize m) in
      let (b, e, en) = ensure-Ensured start n start-Inv (omega arith) (fits n below) in
      let room = en.room in
      let filled : Buffer = written b (serialize m) in
      fill-steps m minus_one filled (serialize-large l tag m start b inited large e room)
      ∙ seal-assertion l tag filled (written-Inv b (serialize m) en.valid room)
          (omega (arith, length-written b (serialize m) room))
          (ap length (contents-written b (serialize m) en.valid ∙ en.same ∙ contents-start))
    where
      fits : (n : ℕ) → n < 2 ^ 31 → Fits start n
      fits n below =
          let (r, w, lb) = start_indices in
          elim (dec_lt 1032 (8 + length tag + n)) [
            | yes p ↦ grows (omega arith, omega arith) (omega arith)
            | no p ↦ at_hand (omega arith)
          ]
