-- ===== src/Codec/Decode/Loop.antt =====
-- `onMessage` on a buffer: it ends, it never fails, and what it calls is what the stream means.
use starry.Common.{
  ℕ, zero, suc, ◌≤◌, ◌<◌, ◌≡◌, refl, ap, sym, subst, ap₂, ◌∙◌, List, [], ◌∷◌, ◌++◌, Option, some,
  length, arith, max_size, Outcome, ok, append-nil, length-append,
}
use starry.Buffer.{Buffer, append}
use starry.Buffer.Contents.{Inv, contents}
use starry.Buffer.Outcomes.{append-ok}
use starry.Codec.Protobuf.{Library}
use starry.Codec.{max_message_len, Event, delivered, reported, turn, on_message}
use starry.Codec.Frames.{Next, wait, bad, ready, next}
use starry.Codec.Decode.{Agrees, turn-Agrees}
use starry.Codec.Decode.Stream.{
  Decodes, waits, fails, delivers, Decodes-frames, Decodes-append, AllSendable, NoReport, frames,
  deliveries, next-shorter,
}

module _ (l : Library) (tag : List ℕ) (small : length tag ≤ max_message_len) where
  open l use {Message}

  abbrev pub Read : ℕ → Buffer → Type 0
  Read fuel b =
      (events : List (Event Message)) × (b' : Buffer) × (on_message l tag fuel b
        ≡ ok (some (events, b')))
      × Inv b'
      × Decodes l tag (contents b) events (contents b')

  on_message-turn :
      (fuel : ℕ) (b : Buffer) (n : Next Message)
      → Inv b
      → length (contents b) < suc fuel
      → ((b' : Buffer) → Inv b' → length (contents b') < fuel → Read fuel b')
      → next l tag (contents b) ≡ n
      → Agrees l tag n (turn l tag b)
      → Read (suc fuel) b
  unfolding on_message
  on_message-turn fuel b wait v h again e a = ([], b, rw a refl, v, waits e)
  on_message-turn fuel b (bad code) v h again e a = (reported code ∷ [], b, rw a refl, v, fails e)
  on_message-turn fuel b (ready m rest) v h again e (b1, a, v1, c1) =
      let shorter : length rest < length (contents b) = next-shorter l tag (contents b) rest m e in
      let (events, b2, r, v2, d) = again b1 v1 (omega (arith, ap length c1)) in
      (
        delivered m ∷ events,
        b2,
        rw (a, r) refl,
        v2,
        delivers e (subst (λ s. Decodes l tag s events (contents b2)) c1 d),
      )

  -- With more fuel than there are readable bytes the loop of `onMessage` ends, on every valid
  -- buffer, with no fault; its events and the bytes that it leaves are those of the wire format.
  pub on_message-Decodes :
      (fuel : ℕ) (b : Buffer) → Inv b → length (contents b) < fuel → Read fuel b
  on_message-Decodes zero b v h = absurd (omega arith)
  on_message-Decodes (suc fuel) b v h =
      on_message-turn fuel b (next l tag (contents b)) v h (on_message-Decodes fuel) refl
        (turn-Agrees l tag b v small)

  Decodes-eq :
      {s left left' : List ℕ} {events events' : List (Event Message)}
      → Decodes l tag s events left
      → Decodes l tag s events' left'
      → (events ≡ events') × (left ≡ left')
  Decodes-eq (waits e) (waits e') = (refl, refl)
  Decodes-eq (waits e) (fails e') = absurd (cc)
  Decodes-eq (waits e) (delivers e' d') = absurd (cc)
  Decodes-eq (fails e) (waits e') = absurd (cc)
  Decodes-eq (fails e) (fails e') = (cc, refl)
  Decodes-eq (fails e) (delivers e' d') = absurd (cc)
  Decodes-eq (delivers e d) (waits e') = absurd (cc)
  Decodes-eq (delivers e d) (fails e') = absurd (cc)
  Decodes-eq (delivers {rest = r} {m = m} {events = es} e d)
        (delivers {rest = r'} {left = left'} {m = m'} {events = es'} e' d') =
      let same : ready m r ≡ ready m' r' = sym e ∙ e' in
      let back : r' ≡ r = cc in
      let who : m ≡ m' = cc in
      let (p, q) = Decodes-eq d (subst (λ t. Decodes l tag t es' left') back d') in
      (ap₂ (λ x xs. delivered x ∷ xs) who p, q)

  -- Whatever valid buffer holds the frames of some messages, each initialized and within the
  -- limit of the length, and behind them a part of another frame: with more fuel than readable
  -- bytes `onMessage` delivers exactly those messages in order and leaves exactly that part.
  pub on_message-frames :
      (fuel : ℕ) (b : Buffer) (ms : List Message) (part : List ℕ)
      → Inv b
      → length (contents b) < fuel
      → contents b ≡ frames l tag ms ++ part
      → AllSendable l tag ms
      → next l tag part ≡ wait
      → (b' : Buffer) × (on_message l tag fuel b ≡ ok (some (deliveries l tag ms, b')))
        × Inv b'
        × (contents b' ≡ part)
  on_message-frames fuel b ms part v h e good w =
      let (events, b', r, v', d) = on_message-Decodes fuel b v h in
      let whole = Decodes-frames l tag ms part part [] good (waits w) in
      let (p, q) = Decodes-eq (subst (λ s. Decodes l tag s events (contents b')) e d) whole in
      (b', r ∙ ap (λ es. ok (some (es, b'))) (p ∙ append-nil (deliveries l tag ms)), v', q)

  Decodes-le :
      {s left : List ℕ} {events : List (Event Message)}
      → Decodes l tag s events left
      → length left ≤ length s
  Decodes-le (waits e) = omega arith
  Decodes-le (fails e) = omega arith
  Decodes-le (delivers {s = s} {rest = rest} {m = m} e d) =
      omega (arith, next-shorter l tag s rest m e, Decodes-le d)

  -- What a run that is known to have ended has done.
  ran :
      (fuel : ℕ) (b b' : Buffer) (events : List (Event Message))
      → Inv b
      → length (contents b) < fuel
      → on_message l tag fuel b ≡ ok (some (events, b'))
      → Inv b' × Decodes l tag (contents b) events (contents b')
  ran fuel b b' events v h e =
      let (events0, b0, r, v0, d) = on_message-Decodes fuel b v h in
      let same : ◌≡◌ {A = List (Event Message) × Buffer} (events0, b0) (events, b') =
        results (sym r ∙ e) in
      subst (λ p. Inv p.1 × Decodes l tag (contents b) p.0 (contents p.1)) same (v0, d)
    where
      results :
          {p q : List (Event Message) × Buffer}
          → ◌≡◌ {A = Outcome (Option (List (Event Message) × Buffer))} (ok (some p)) (ok (some q))
          → p ≡ q
      results h = cc

  -- Cutting the stream into two reads changes nothing: if the first read reports no error
  -- and the second part can be appended, then both reads together call what one read of all the
  -- bytes calls, and leave what it leaves.
  pub on_message-append :
      (fuel : ℕ) (b b1 b2 b3 c : Buffer) (t : List ℕ) (events events' : List (Event Message))
      → Inv b
      → Inv c
      → length t ≤ max_size
      → length (contents c) < fuel
      → contents c ≡ contents b ++ t
      → on_message l tag fuel b ≡ ok (some (events, b1))
      → NoReport l tag events
      → append b1 t ≡ ok b2
      → on_message l tag fuel b2 ≡ ok (some (events', b3))
      → (c' : Buffer) × (on_message l tag fuel c ≡ ok (some (events ++ events', c')))
        × (contents c' ≡ contents b3)
  on_message-append fuel b b1 b2 b3 c t events events' v vc k h e r1 fine a r2 =
      let (v1, d1) =
        ran fuel b b1 events v (omega (arith, ap length e, length-append (contents b) t)) r1 in
      let (v2, c2) = append-ok b1 b2 t v1 k a in
      let (v3, d2) =
        ran fuel b2 b3 events' v2
          (omega (
            arith,
            ap length c2,
            length-append (contents b1) t,
            Decodes-le d1,
            ap length e,
            length-append (contents b) t,
          ))
          r2 in
      let (es, c', r, v', d) = on_message-Decodes fuel c vc h in
      let both =
        Decodes-append l tag t d1 fine (subst (λ s. Decodes l tag s events' (contents b3)) c2 d2) in
      let (p, q) = Decodes-eq (subst (λ s. Decodes l tag s es (contents c')) e d) both in
      (c', r ∙ ap (λ xs. ok (some (xs, c'))) p, q)
