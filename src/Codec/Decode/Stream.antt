-- ===== src/Codec/Decode/Stream.antt =====
-- `onMessage` over a whole stream, however it is cut into reads.
use starry.Common.{
  ℕ, ◌+◌, ◌≤◌, ◌<◌, ◌≡◌, refl, ap, sym, ◌∙◌, inl, inr, true, false, List, [], ◌∷◌, ◌++◌, length,
  take, drop, leb, Bool-cases, le→leb, leb→le, append_assoc, length-append, take-append_le, take-le,
  length-drop, drop-append_ge, drop-append_le, arith,
}
use starry.Buffer.Numbers.{to_be, from_be}
use starry.Buffer.Numbers.Laws.{length-to_be, from_be-to_be}
use starry.Codec.Protobuf.{Library}
use starry.Codec.{
  header_len, max_message_len, is_invalid_length, min_message_len, ErrorCode, Event, delivered,
  reported, Parsed, message, rejected,
}
use starry.Codec.Frames.{
  wait, bad, ready, parsed_next, check_frame, check_frame-body, next, body, frame, length-body,
  is_invalid_length-false,
}

module _ (l : Library) (tag : List ℕ) where
  open l use {Message, is_initialized, serialize}

  -- What a stream means: the events that it causes, and the bytes that are left.
  pub data Decodes : List ℕ → List (Event Message) → List ℕ → Type 0 where
    waits : {s : List ℕ} → next l tag s ≡ wait → Decodes s [] s
    fails :
        {s : List ℕ} {code : ErrorCode} → next l tag s ≡ bad code → Decodes s (reported code ∷ []) s
    delivers :
        {s rest left : List ℕ} {m : Message} {events : List (Event Message)}
        → next l tag s ≡ ready m rest
        → Decodes rest events left
        → Decodes s (delivered m ∷ events) left

  next-frame :
      (m : Message) (rest : List ℕ)
      → is_initialized m ≡ true
      → length tag + length (serialize m) + 4 ≤ max_message_len
      → next l tag (frame l tag m ++ rest) ≡ ready m rest
  unfolding next
  next-frame m rest init small =
      let b : List ℕ = body l tag m in
      let n : ℕ = length b in
      let lb : n ≡ length tag + length (serialize m) + 4 = length-body l tag m in
      let head : List ℕ = to_be 4 n in
      let lh : length head ≡ 4 = length-to_be 4 n in
      let assoc : frame l tag m ++ rest ≡ head ++ (b ++ rest) = append_assoc head b rest in
      let len : length (head ++ (b ++ rest)) ≡ 4 + (n + length rest) =
        omega (arith, length-append head (b ++ rest), length-append b rest) in
      let four : take 4 (head ++ (b ++ rest)) ≡ head =
        take-append_le 4 head (b ++ rest) (omega arith) ∙ take-le 4 head (omega arith) in
      let behind : drop 4 (head ++ (b ++ rest)) ≡ b ++ rest =
        drop-append_ge 4 0 head (b ++ rest) (omega arith) in
      let front : take n (b ++ rest) ≡ b =
        take-append_le n b rest (omega arith) ∙ take-le n b (omega arith) in
      let last : drop (header_len + n) (head ++ (b ++ rest)) ≡ rest =
        drop-append_ge (header_len + n) n head (b ++ rest) (omega arith)
        ∙ drop-append_ge n 0 b rest (omega arith) in
      rw
        (
          assoc,
          four,
          from_be-to_be 4 n (omega arith),
          len,
          le→leb (min_message_len l tag + header_len) (4 + (n + length rest)) (omega arith),
          is_invalid_length-false l tag n (omega arith) (omega arith),
          le→leb (header_len + n) (4 + (n + length rest)) (omega arith),
          behind,
          front,
          check_frame-body l tag m init,
          last,
        )
        refl

  abbrev pub AllSendable : List Message → Type 0
  AllSendable [] = Unit {0}
  AllSendable (m ∷ ms) =
      (is_initialized m ≡ true)
      × (length tag + length (serialize m) + 4 ≤ max_message_len)
      × AllSendable ms

  abbrev pub frames : List Message → List ℕ
  frames [] = []
  frames (m ∷ ms) = frame l tag m ++ frames ms

  abbrev pub deliveries : List Message → List (Event Message)
  deliveries [] = []
  deliveries (m ∷ ms) = delivered m ∷ deliveries ms

  -- The frames of any messages decode to those messages, whatever follows.
  pub Decodes-frames :
      (ms : List Message) (rest left : List ℕ) (events : List (Event Message))
      → AllSendable ms
      → Decodes rest events left
      → Decodes (frames ms ++ rest) (deliveries ms ++ events) left
  Decodes-frames [] rest left events h d = d
  Decodes-frames (m ∷ ms) rest left events h d =
      delivers
        (ap (next l tag) (append_assoc (frame l tag m) (frames ms) rest)
          ∙ next-frame m (frames ms ++ rest) h.0 h.1)
        (Decodes-frames ms rest left events h.2 d)

  parsed_next-ready :
      (p : Parsed Message) (tail rest : List ℕ) {m : Message}
      → parsed_next p tail ≡ ready m rest
      → (p ≡ message m) × (rest ≡ tail)
  parsed_next-ready (message x) tail rest e = (cc, cc)
  parsed_next-ready (rejected code) tail rest e = absurd (cc)

  -- What it takes for a frame to stand at the front.
  record Ready (s : List ℕ) (m : Message) (rest : List ℕ) : Type 0 where
    long : min_message_len l tag + header_len ≤ length s
    valid : is_invalid_length l tag (from_be (take 4 s)) ≡ false
    whole : header_len + from_be (take 4 s) ≤ length s
    checked : check_frame l tag (take (from_be (take 4 s)) (drop 4 s)) ≡ message m
    behind : rest ≡ drop (header_len + from_be (take 4 s)) s

  next-Ready : (s rest : List ℕ) (m : Message) → next l tag s ≡ ready m rest → Ready s m rest
  unfolding next
  next-Ready s rest m e = elim (Bool-cases (leb (min_message_len l tag + header_len) (length s))) [
    | inr short ↦ absurd (cc (rw short at e))
    | inl long ↦ elim (Bool-cases (is_invalid_length l tag (from_be (take 4 s)))) [
      | inl invalid ↦ absurd (cc (rw (long, invalid) at e))
      | inr valid ↦ elim (Bool-cases (leb (header_len + from_be (take 4 s)) (length s))) [
        | inr partial ↦ absurd (cc (rw (long, valid, partial) at e))
        | inl whole ↦
            let p =
              parsed_next-ready (check_frame l tag (take (from_be (take 4 s)) (drop 4 s)))
                (drop (header_len + from_be (take 4 s)) s) rest (rw (long, valid, whole) at e) in
            record {
              long = leb→le (min_message_len l tag + header_len) (length s) long;
              valid = valid;
              whole = leb→le (header_len + from_be (take 4 s)) (length s) whole;
              checked = p.0;
              behind = p.1;
            }
      ]
    ]
  ]

  Ready-next : (s rest : List ℕ) (m : Message) → Ready s m rest → next l tag s ≡ ready m rest
  unfolding next
  Ready-next s rest m r =
      rw
        (
          le→leb (min_message_len l tag + header_len) (length s) r.long,
          r.valid,
          le→leb (header_len + from_be (take 4 s)) (length s) r.whole,
          r.checked,
          r.behind,
        )
        refl

  pub next-shorter :
      (s rest : List ℕ) (m : Message) → next l tag s ≡ ready m rest → length rest < length s
  next-shorter s rest m e =
      let r = next-Ready s rest m e in
      let h = r.whole in
      omega (arith, ap length r.behind, length-drop (header_len + from_be (take 4 s)) s)

  -- More bytes do not change the frame at the front.
  next-append :
      (s rest t : List ℕ) (m : Message)
      → next l tag s ≡ ready m rest
      → next l tag (s ++ t) ≡ ready m (rest ++ t)
  next-append s rest t m e =
      let r = next-Ready s rest m e in
      let n : ℕ = from_be (take 4 s) in
      let w : header_len + n ≤ length s = r.whole in
      let lo : min_message_len l tag + header_len ≤ length s = r.long in
      let four : take 4 (s ++ t) ≡ take 4 s = take-append_le 4 s t (omega arith) in
      let la = length-append s t in
      let cut : take n (drop 4 (s ++ t)) ≡ take n (drop 4 s) =
        ap (take n) (drop-append_le 4 s t (omega arith))
        ∙ take-append_le n (drop 4 s) t (omega (arith, length-drop 4 s)) in
      Ready-next (s ++ t) (rest ++ t) m (record {
        long = omega arith;
        valid = rw four r.valid;
        whole = rw four (omega arith);
        checked = rw (four, cut) r.checked;
        behind = rw four (ap (λ u. u ++ t) r.behind ∙ sym (drop-append_le (header_len + n) s t w));
      })

  abbrev pub NoReport : List (Event Message) → Type 0
  NoReport [] = Unit {0}
  NoReport (delivered m ∷ events) = NoReport events
  NoReport (reported code ∷ events) = ⊥

  -- Decoding may stop anywhere and go on when more bytes have come: the events are the same.
  pub Decodes-append :
      (t : List ℕ) {s left left' : List ℕ} {events events' : List (Event Message)}
      → Decodes s events left
      → NoReport events
      → Decodes (left ++ t) events' left'
      → Decodes (s ++ t) (events ++ events') left'
  Decodes-append t (waits w) h d = d
  Decodes-append t (fails f) h d = absurd h
  Decodes-append t (delivers {s = s} {rest = rest} {m = m} e more) h d =
      delivers (next-append s rest t m e) (Decodes-append t more h d)
