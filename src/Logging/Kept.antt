-- ===== src/Logging/Kept.antt =====
-- What every sequence of steps keeps: no null buffer is used, and the bytes stay in order.
use starry.Common.{
  ℕ, ◌≡◌, refl, sym, ap, subst, ◌∙◌, ◌⊎◌, inl, inr, false, List, [], ◌∷◌, ◌++◌, append_assoc,
  append-nil, take, if◌then◌else◌, ok, ◌>>=◌,
}
use starry.Logging.{Bytes, testing, waiting, finished, AsyncLogging, start, stop}
use starry.Logging.Steps.{
  Event, line, ask_stop, writer, writer_from, step, run, bytes_of, data_of, SparesFit, Inv,
  start-Inv,
}
use starry.Logging.Appends.{append-Inv}
use starry.Logging.Writer.{move-Inv, writer_from-Inv}

module _ (size : ℕ) where
  -- The bytes that a step takes.
  abbrev pub taken_by : Event → Bytes
  taken_by (line b) = take size b
  taken_by ask_stop = []
  taken_by writer = []

  abbrev pub taken : List Event → Bytes
  taken [] = []
  taken (e ∷ es) = taken_by e ++ taken es

  step-Inv :
      (e : Event) (l : AsyncLogging)
      → Inv l
      → (l' : AsyncLogging) × (step size e l ≡ ok l')
        × Inv l'
        × (l'.accepted ≡ l.accepted ++ taken_by e)
  unfolding step stop
  step-Inv (line b) l i = let a = append-Inv size l b i in (a.0, a.1, a.2, a.3.accepted)
  step-Inv ask_stop l i = (
    record l { running = false },
    refl,
    move-Inv size l l.phase false i.spares i,
    sym (append-nil l.accepted),
  )
  step-Inv writer l i =
      let w = writer_from-Inv size l.phase l refl i in
      (w.0, w.1, w.2, w.3 ∙ sym (append-nil l.accepted))

  pub run-Inv :
      (es : List Event) (l : AsyncLogging)
      → Inv l
      → (l' : AsyncLogging) × (run size es l ≡ ok l')
        × Inv l'
        × (l'.accepted ≡ l.accepted ++ taken es)
  unfolding run
  run-Inv [] l i = (l, refl, i, sym (append-nil l.accepted))
  run-Inv (e ∷ es) l i =
      let s = step-Inv e l i in
      let r = run-Inv es s.0 s.2 in
      (
        r.0,
        rw (run, s.1, r.1) refl,
        r.2,
        r.3 ∙ ap (λ t. t ++ taken es) s.3 ∙ append_assoc l.accepted (taken_by e) (taken es),
      )

  -- In every order of the writer's steps and of calls of `append` and `stop` from other threads, no
  -- null pointer is used and `back()` has an element. As long as no buffers are dropped, what is
  -- written, what the writer holds and what waits are, in this order, the lines that were logged,
  -- each cut to the size of a buffer.
  pub run-ordered :
      (es : List Event)
      → (l : AsyncLogging) × (run size es start ≡ ok l)
        × (l.dropped ≡ 0
            → l.output ++ (data_of l.to_write ++ (data_of l.buffers ++ bytes_of l.current))
              ≡ taken es)
  unfolding start
  run-ordered es = let r = run-Inv es start start-Inv in (r.0, r.1, λ d. r.2.ordered d ∙ r.3)

  -- The writer has left its loop, or will at its next test.
  abbrev pub IsEnded : AsyncLogging → Type 0
  IsEnded l = (l.running ≡ false) × ((l.phase ≡ testing) ⊎ (l.phase ≡ finished))

  -- Once `running_` is false and the writer is at its test, nothing more is written, whatever waits
  -- or is logged later.
  pub run-IsEnded :
      (es : List Event) (l : AsyncLogging)
      → Inv l
      → IsEnded l
      → (l' : AsyncLogging) × (run size es l ≡ ok l') × (l'.output ≡ l.output) × IsEnded l'
  unfolding run step stop writer_from
  run-IsEnded [] l i n = (l, refl, refl, n)
  run-IsEnded (line b ∷ es) l i (n, p) =
      let a = append-Inv size l b i in
      let r = run-IsEnded es a.0 a.2 (a.3.running ∙ n, still a.0 p a.3.phase) in
      (r.0, rw (run, step, a.1, r.1) refl, r.2 ∙ a.3.output, r.3)
    where
      still :
          (l' : AsyncLogging)
          → (l.phase ≡ testing) ⊎ (l.phase ≡ finished)
          → l'.phase ≡ l.phase
          → (l'.phase ≡ testing) ⊎ (l'.phase ≡ finished)
      still l' (inl e) p = inl (p ∙ e)
      still l' (inr e) p = inr (p ∙ e)
  run-IsEnded (ask_stop ∷ es) l i (n, p) =
      run-IsEnded es (record l { running = false }) (move-Inv size l l.phase false i.spares i)
        (refl, p)
  run-IsEnded (writer ∷ es) l i (n, inl e) =
      let r =
        run-IsEnded es (record l { phase = finished })
          (move-Inv size l finished l.running (subst (λ x. SparesFit x l) e i.spares) i)
          (n, inr refl) in
      (
        r.0,
        ap (λ x. writer_from size x l >>= λ y. run size es y) e
            ∙ ap
                (λ x.
                  ok (if x then record l { phase = waiting } else record l { phase = finished })
                  >>= λ y. run size es y)
                n
            ∙ r.1,
        r.2,
        r.3,
      )
  run-IsEnded (writer ∷ es) l i (n, inr e) =
      let r = run-IsEnded es l i (n, inr e) in
      (r.0, ap (λ x. writer_from size x l >>= λ y. run size es y) e ∙ r.1, r.2, r.3)
