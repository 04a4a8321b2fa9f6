-- ===== src/Logging/Writer.antt =====
-- The steps of `threadFunc`: what is written, and that the writer gets its spares back.
use starry.Common.{
  ℕ, ◌+◌, ◌-◌, ◌≤◌, ◌≡◌, refl, sym, ap, ap₂, subst, ◌∙◌, ◌⊎◌, inl, inr, Bool, List, [], ◌∷◌, ◌++◌,
  append_assoc, append-nil, Option, none, some, length, take, length-append, length-take, min, ltb,
  ltb→lt, if◌then◌else◌, ok, Bool-cases, if_ind, arith,
}
use starry.Logging.{
  Bytes, Phase, testing, waiting, writing, finished, AsyncLogging, swap, drop_excess, write,
}
use starry.Logging.Steps.{
  writer_from, AreThere, bytes_of, data_of, SparesFit, Inv, AreThere-append, AreThere-take,
  data_of-append, refill_lem, write_buffers_lem,
}

module _ (size : ℕ) where
  swap-Inv : (l : AsyncLogging) → l.phase ≡ waiting → Inv l → Inv (swap size l)
  unfolding swap
  swap-Inv l p i =
      let f : SparesFit waiting l = subst (λ x. SparesFit x l) p i.spares in
      elim i.next [
        | inl e ↦
            rw (swap, e)
              (record {
                current = ([], f.0);
                buffers = subst AreThere (sym f.2) tt;
                next = inl e;
                spares = (
                  refl,
                  inl f.1,
                  size_after l,
                  AreThere-append l.buffers l.current i.buffers i.current,
                );
                ordered = λ d. order l f d (i.ordered d);
              })
        | inr e ↦
            rw (swap, e.0)
              (record {
                current = ([], f.0);
                buffers = subst AreThere (sym f.2) tt;
                next = inl f.1;
                spares = (
                  refl,
                  inr (refl, omega (arith, e.1, length-append l.buffers (l.current ∷ []))),
                  size_after l,
                  AreThere-append l.buffers l.current i.buffers i.current,
                );
                ordered = λ d. order l f d (i.ordered d);
              })
      ]
    where
      size_after : (l : AsyncLogging) → 1 ≤ length (l.buffers ++ (l.current ∷ []))
      size_after l = omega (arith, length-append l.buffers (l.current ∷ []))

      order :
          (l : AsyncLogging)
          → SparesFit waiting l
          → l.dropped ≡ 0
          → l.output ++ (data_of l.to_write ++ (data_of l.buffers ++ bytes_of l.current))
            ≡ l.accepted
          → l.output
              ++ (data_of (l.buffers ++ (l.current ∷ []))
                  ++ (data_of l.to_write ++ bytes_of l.new1))
            ≡ l.accepted
      order l f d h =
          ap₂
            (λ x y.
              l.output ++ (data_of (l.buffers ++ (l.current ∷ [])) ++ (data_of x ++ bytes_of y)))
            f.2 f.0
          ∙ ap (λ x. l.output ++ x)
              (append-nil (data_of (l.buffers ++ (l.current ∷ [])))
                ∙ data_of-append l.buffers l.current)
          ∙ ap (λ x. l.output ++ (data_of x ++ (data_of l.buffers ++ bytes_of l.current))) (sym f.2)
          ∙ h

  swap-accepted : (l : AsyncLogging) → Inv l → (swap size l).accepted ≡ l.accepted
  unfolding swap
  swap-accepted l i = elim i.next [ inl e ↦ rw (swap, e) refl | inr e ↦ rw (swap, e.0) refl ]

  -- What `write` begins with: of more than 25 buffers two are left, else all.
  drop_excess-Inv :
      (l : AsyncLogging)
      → SparesFit writing l
      → Inv l
      → Inv (drop_excess size l) × SparesFit writing (drop_excess size l)
  unfolding drop_excess
  drop_excess-Inv l f i = elim (Bool-cases (ltb 25 (length l.to_write))) [
    | inr p ↦ rw p (i, f)
    | inl p ↦
        let many = ltb→lt 25 (length l.to_write) p in
        let two : length (take 2 l.to_write) ≡ 2 = omega (arith, length-take 2 l.to_write, many) in
        let g : SparesFit writing (record l { to_write = take 2 l.to_write }) =
          (f.0, spare_kept l two f.1, omega (arith, two), AreThere-take 2 l.to_write f.3) in
        rw p (
          record {
            current = i.current;
            buffers = i.buffers;
            next = i.next;
            spares = again l.phase l (l.dropped + (length l.to_write - 2)) g i.spares;
            ordered = λ d. absurd (omega (arith, d, many));
          },
          g,
        )
  ]
    where
      spare_kept :
          (l : AsyncLogging)
          → length (take 2 l.to_write) ≡ 2
          → (l.new2 ≡ some []) ⊎ ((l.new2 ≡ none) × (2 ≤ length l.to_write))
          → (l.new2 ≡ some []) ⊎ ((l.new2 ≡ none) × (2 ≤ length (take 2 l.to_write)))
      spare_kept l two (inl e) = inl e
      spare_kept l two (inr (e, n)) = inr (e, omega (arith, two))

      again :
          (p : Phase) (l : AsyncLogging) (dropped : ℕ)
          → SparesFit writing (record l { to_write = take 2 l.to_write })
          → SparesFit p l
          → SparesFit p (record l { to_write = take 2 l.to_write; dropped = dropped })
      again testing l dropped g (x, y, z) = (x, y, ap (take 2) z)
      again waiting l dropped g (x, y, z) = (x, y, ap (take 2) z)
      again writing l dropped g h = g
      again finished l dropped g (x, y, z) = (x, y, ap (take 2) z)

  drop_excess-accepted : (l : AsyncLogging) → (drop_excess size l).accepted ≡ l.accepted
  unfolding drop_excess
  drop_excess-accepted l =
      if_ind (λ (x : AsyncLogging). x.accepted ≡ l.accepted) (ltb 25 (length l.to_write)) refl refl

  kept_lem :
      (ps : List (Option Bytes))
      → AreThere ps
      → AreThere (if ltb 2 (length ps) then take 2 ps else ps)
        × (min 2 (length ps) ≤ length (if ltb 2 (length ps) then take 2 ps else ps))
  kept_lem ps h = (
    if_ind AreThere (ltb 2 (length ps)) (AreThere-take 2 ps h) h,
    if_ind (λ (x : List (Option Bytes)). min 2 (length ps) ≤ length x) (ltb 2 (length ps))
        (omega (arith, length-take 2 ps)) (omega arith),
  )

  write-Inv :
      (l : AsyncLogging)
      → SparesFit writing l
      → Inv l
      → (l' : AsyncLogging) × (write size l ≡ ok l') × Inv l' × (l'.accepted ≡ l.accepted)
  unfolding write
  write-Inv l f i =
      let l1 = drop_excess size l in
      let (i1, f1) = drop_excess-Inv l f i in
      let kept = if ltb 2 (length l1.to_write) then take 2 l1.to_write else l1.to_write in
      let (there, long) = kept_lem l1.to_write f1.3 in
      let r1 = refill_lem size l1.new1 kept there (inr (f1.0, omega (arith, long, f1.2))) in
      let r2 =
        refill_lem size l1.new2 r1.0 r1.2 (second l1.new2 l1.to_write kept r1.0 long r1.3 f1.1) in
      (
        record l1 {
          phase = testing;
          output = l1.output ++ data_of l1.to_write;
          new1 = some [];
          new2 = some [];
          to_write = [];
        },
        rw (write, write_buffers_lem size l1.to_write l1.output f1.3, r1.1, r2.1) refl,
        record {
          current = i1.current;
          buffers = i1.buffers;
          next = i1.next;
          spares = (refl, refl, refl);
          ordered = λ d.
              append_assoc l1.output (data_of l1.to_write)
                (data_of l1.buffers ++ bytes_of l1.current)
              ∙ i1.ordered d;
        },
        drop_excess-accepted l,
      )
    where
      second :
          (p : Option Bytes) (all kept rest : List (Option Bytes))
          → min 2 (length all) ≤ length kept
          → length kept ≤ length rest + 1
          → (p ≡ some []) ⊎ ((p ≡ none) × (2 ≤ length all))
          → (p ≡ some []) ⊎ ((p ≡ none) × (1 ≤ length rest))
      second p all kept rest a b (inl e) = inl e
      second p all kept rest a b (inr (e, n)) = inr (e, omega (arith, a, b, n))

  -- A step that only moves the writer on.
  pub move-Inv :
      (l : AsyncLogging) (p : Phase) (running : Bool)
      → SparesFit p l
      → Inv l
      → Inv (record l { phase = p; running = running })
  move-Inv l p running f i = record {
    current = i.current;
    buffers = i.buffers;
    next = i.next;
    spares = again p l f;
    ordered = i.ordered;
  }
    where
      again :
          (p : Phase) (l : AsyncLogging)
          → SparesFit p l
          → SparesFit p (record l { phase = p; running = running })
      again testing l f = f
      again waiting l f = f
      again writing l f = f
      again finished l f = f

  pub writer_from-Inv :
      (p : Phase) (l : AsyncLogging)
      → l.phase ≡ p
      → Inv l
      → (l' : AsyncLogging) × (writer_from size p l ≡ ok l') × Inv l' × (l'.accepted ≡ l.accepted)
  unfolding writer_from
  writer_from-Inv testing l e i =
      let f : SparesFit testing l = subst (λ x. SparesFit x l) e i.spares in
      elim (Bool-cases l.running) [
        | inl r ↦ (
          record l { phase = waiting },
          rw (writer_from, r) refl,
          move-Inv l waiting l.running f i,
          refl,
        )
        | inr r ↦ (
          record l { phase = finished },
          rw (writer_from, r) refl,
          move-Inv l finished l.running f i,
          refl,
        )
      ]
  writer_from-Inv waiting l e i = (swap size l, refl, swap-Inv l e i, swap-accepted l i)
  writer_from-Inv writing l e i = write-Inv l (subst (λ x. SparesFit x l) e i.spares) i
  writer_from-Inv finished l e i = (l, refl, i, refl)
