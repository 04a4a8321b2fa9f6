-- ===== src/Logging/Appends.antt =====
-- `append`: the line is put behind all that waits.
use starry.Common.{
  ℕ, ◌-◌, ◌≡◌, refl, sym, ap, ap₂, ◌∙◌, inl, inr, true, false, List, [], ◌∷◌, ◌++◌, append_assoc,
  Option, none, some, length, take, length-append, take-le, min, ltb, ltb→lt, ltb_false→le, ok,
  Bool-cases, arith,
}
use starry.Logging.{
  Bytes, Phase, testing, waiting, writing, finished, AsyncLogging, avail, append_stream, spare,
  append,
}
use starry.Logging.Steps.{bytes_of, data_of, SparesFit, Inv, AreThere-append, data_of-append}

pub take-min : (n : ℕ) (xs : Bytes) → take (min (length xs) n) xs ≡ take n xs
take-min n xs = elim (Bool-cases (ltb n (length xs))) [
  | inl p ↦
      ap (λ k. take k xs) {x = min (length xs) n} {y = n} (omega (arith, ltb→lt n (length xs) p))
  | inr p ↦
      ap (λ k. take k xs) {x = min (length xs) n} {y = length xs}
        (omega (arith, ltb_false→le n (length xs) p))
      ∙ take-le (length xs) xs (omega arith)
      ∙ sym (take-le n xs (ltb_false→le n (length xs) p))
]

append_last : (a b c d t : Bytes) → a ++ (b ++ (c ++ (d ++ t))) ≡ (a ++ (b ++ (c ++ d))) ++ t
append_last a b c d t = simp (append_assoc)

module _ (size : ℕ) where
  -- What a stream takes of a string: all of it when it is shorter than the room, and what fits
  -- into an empty one.
  append_stream-fits :
      (b str : Bytes)
      → ltb (length str) (avail size b) ≡ true
      → append_stream size b str ≡ b ++ take size str
  unfolding append_stream avail
  append_stream-fits b str h =
      let lt = ltb→lt (length str) (size - length b) h in
      ap (λ t. b ++ t)
        (take-min (size - length b) str
          ∙ take-le (size - length b) str (omega (arith, lt))
          ∙ sym (take-le size str (omega (arith, lt))))

  append_stream-nil : (str : Bytes) → append_stream size [] str ≡ take size str
  unfolding append_stream avail
  append_stream-nil str =
      ap (λ k. take (min (length str) k) str) {x = size - 0} {y = size} (omega arith)
      ∙ take-min size str

  SparesFit-append :
      (p : Phase) (l : AsyncLogging) (current next : Option Bytes) (buffers : List (Option Bytes))
      (accepted : Bytes)
      → SparesFit p l
      → SparesFit p
          (record l { current = current; next = next; buffers = buffers; accepted = accepted })
  SparesFit-append testing l current next buffers accepted h = h
  SparesFit-append waiting l current next buffers accepted h = h
  SparesFit-append writing l current next buffers accepted h = h
  SparesFit-append finished l current next buffers accepted h = h

  -- What `append` changes outside the buffers.
  pub record Appended (l l' : AsyncLogging) (str : Bytes) : Type 0 where
    pub accepted : l'.accepted ≡ l.accepted ++ take size str
    pub phase : l'.phase ≡ l.phase
    pub running : l'.running ≡ l.running
    pub output : l'.output ≡ l.output

  -- The line fits into the current buffer.
  append-fits :
      (l : AsyncLogging) (b str : Bytes)
      → Inv l
      → l.current ≡ some b
      → ltb (length str) (avail size b) ≡ true
      → (l' : AsyncLogging) × (append size l str ≡ ok l') × Inv l' × Appended l l' str
  unfolding append avail append_stream
  append-fits l b str i c h =
      let accepted = l.accepted ++ take size str in
      (
        record l { current = some (append_stream size b str); accepted = accepted },
        rw (append, c, h) refl,
        record {
          current = (append_stream size b str, refl);
          buffers = i.buffers;
          next = i.next;
          spares =
              SparesFit-append l.phase l (some (append_stream size b str)) l.next l.buffers accepted
                i.spares;
          ordered = λ d.
              ap (λ x. l.output ++ (data_of l.to_write ++ (data_of l.buffers ++ x)))
                (append_stream-fits b str h)
              ∙ append_last l.output (data_of l.to_write) (data_of l.buffers) b (take size str)
              ∙ ap (λ x. x ++ take size str)
                  (ap (λ x. l.output ++ (data_of l.to_write ++ (data_of l.buffers ++ bytes_of x)))
                      (sym c)
                    ∙ i.ordered d);
        },
        record { accepted = refl; phase = refl; running = refl; output = refl },
      )

  append-full :
      (l : AsyncLogging) (b str : Bytes)
      → Inv l
      → l.current ≡ some b
      → ltb (length str) (avail size b) ≡ false
      → (l' : AsyncLogging) × (append size l str ≡ ok l') × Inv l' × Appended l l' str
  unfolding append avail append_stream spare
  append-full l b str i c h =
      let accepted = l.accepted ++ take size str in
      let fresh : Bytes = append_stream size [] str in
      (
        record l {
          current = some fresh;
          next = none;
          buffers = l.buffers ++ (l.current ∷ []);
          accepted = accepted;
        },
        elim i.next [ inl e ↦ rw (append, c, h, e) refl | inr e ↦ rw (append, c, h, e.0) refl ],
        record {
          current = (fresh, refl);
          buffers = AreThere-append l.buffers l.current i.buffers i.current;
          next = inr (refl, omega (arith, length-append l.buffers (l.current ∷ [])));
          spares =
              SparesFit-append l.phase l (some fresh) none (l.buffers ++ (l.current ∷ [])) accepted
                i.spares;
          ordered = λ d.
              ap₂ (λ x y. l.output ++ (data_of l.to_write ++ (x ++ y)))
                (data_of-append l.buffers l.current) (append_stream-nil str)
              ∙ ap (λ x. l.output ++ (data_of l.to_write ++ x))
                  (append_assoc (data_of l.buffers) (bytes_of l.current) (take size str))
              ∙ append_last l.output (data_of l.to_write) (data_of l.buffers) (bytes_of l.current)
                  (take size str)
              ∙ ap (λ x. x ++ take size str) (i.ordered d);
        },
        record { accepted = refl; phase = refl; running = refl; output = refl },
      )

  pub append-Inv :
      (l : AsyncLogging) (str : Bytes)
      → Inv l
      → (l' : AsyncLogging) × (append size l str ≡ ok l') × Inv l' × Appended l l' str
  append-Inv l str i = elim (Bool-cases (ltb (length str) (avail size i.current.0))) [
    | inl h ↦ append-fits l i.current.0 str i i.current.1 h
    | inr h ↦ append-full l i.current.0 str i i.current.1 h
  ]
