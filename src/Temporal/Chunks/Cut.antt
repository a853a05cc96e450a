-- ===== src/Temporal/Chunks/Cut.antt =====
-- How `createEventChunks` and `partitionEvents` cut a list.
use go_temporal_timeline.Prelude.{
  ◌≡◌, refl, ap, sym, ◌∙◌, ℕ, zero, suc, ◌+◌, ◌-◌, ◌*◌, ◌/◌, ◌≤◌, ◌<◌, some, inl, inr, List, [],
  ◌∷◌, ◌++◌, map, append_assoc, append-nil, length, take, drop, take-append-drop, length-take,
  length-drop, ltb, leb, Bool-cases, ltb→lt, leb→le, ltb-false→le, arith, All,
}
use native.Mathlib.Nat.{suc-mul, mul-div_cancel, div-eq_of_lt-le}
use go_temporal_timeline.Temporal.Chunks.{
  EventChunk, chunk_end, slice, chunks_loop, create_event_chunks, partitions_loop, partition_events,
}

-- The number of chunks.
abbrev pub chunk_count : ℕ → ℕ → ℕ
chunk_count n size = (n + size - 1) / size

chunk_count_end :
    (n size k : ℕ) → 0 < size → k * size < n + size → n ≤ k * size → chunk_count n size ≡ k
chunk_count_end n size k h lt le =
    div-eq_of_lt-le size (omega arith) (omega (arith, suc-mul k size))

module _ {A : Type 0} where
  abbrev pub concat : List (List A) → List A
  concat [] = []
  concat (xs ∷ xss) = xs ++ concat xss

  drop_nil : (k : ℕ) → drop {A = A} k [] ≡ []
  drop_nil zero = refl
  drop_nil (suc k) = refl

  drop-drop : (m n : ℕ) (xs : List A) → drop m (drop n xs) ≡ drop (n + m) xs
  drop-drop m zero xs = ap (λ k. drop k xs) (omega arith)
  drop-drop m (suc n) [] = drop_nil m ∙ sym (drop_nil (suc n + m))
  drop-drop m (suc n) (x ∷ xs) =
      let e : suc (n + m) ≡ suc n + m = omega arith in
      drop-drop m n xs ∙ ap (λ k. drop k (x ∷ xs)) e

  drop_all : (n : ℕ) (xs : List A) → length xs ≤ n → drop n xs ≡ []
  drop_all zero [] h = refl
  drop_all zero (x ∷ xs) h = absurd (omega (arith, h))
  drop_all (suc n) [] h = refl
  drop_all (suc n) (x ∷ xs) h = drop_all n xs (omega (arith, h))

  take_all : (n : ℕ) (xs : List A) → length xs ≤ n → take n xs ≡ xs
  take_all zero [] h = refl
  take_all zero (x ∷ xs) h = absurd (omega (arith, h))
  take_all (suc n) [] h = refl
  take_all (suc n) (x ∷ xs) h = ap (◌∷◌ x) (take_all n xs (omega (arith, h)))

  -- A slice is as long as the size, or goes to the end.
  slice-take :
      (events : List A) (size i : ℕ)
      → slice events i (chunk_end i size (length events)) ≡ take size (drop i events)
  slice-take events size i = elim (Bool-cases (ltb (length events) (i + size))) [
    | inl short ↦ rw short (
        take_all (length events - i) (drop i events) (omega (arith, length-drop i events))
        ∙ sym (
            take_all size (drop i events)
              (omega (arith, length-drop i events, ltb→lt (length events) (i + size) short))))
    | inr long ↦ rw long (ap (λ k. take k (drop i events)) (omega arith))
  ]

  -- One slice and what follows it.
  slice-append-drop :
      (events : List A) (size i : ℕ)
      → slice events i (chunk_end i size (length events)) ++ drop (i + size) events ≡ drop i events
  slice-append-drop events size i =
      ap (λ l. l ++ drop (i + size) events) (slice-take events size i)
      ∙ ap (λ l. take size (drop i events) ++ l) (sym (drop-drop size i events))
      ∙ take-append-drop size (drop i events)

  slice_bounds :
      (events : List A) (size i : ℕ)
      → 0 < size
      → i < length events
      → (0 < length (slice events i (chunk_end i size (length events))))
        × (length (slice events i (chunk_end i size (length events))) ≤ size)
  slice_bounds events size i h k =
      let e = ap length (slice-take events size i) in
      (
        omega (arith, e, length-take size (drop i events), length-drop i events),
        omega (arith, e, length-take size (drop i events), length-drop i events),
      )

  -- The chunks from the number `k` on: in order, none empty, none larger than the size.
  abbrev pub IsNumbered : ℕ → ℕ → ℕ → List (EventChunk A) → Type 0
  IsNumbered size total k [] = total ≡ k
  IsNumbered size total k (c ∷ cs) =
      ((c.id ≡ k)
        × (c.chunk_index ≡ k)
        × (c.total_chunks ≡ total)
        × (0 < length c.events)
        × (length c.events ≤ size))
      × IsNumbered size total (suc k) cs

  chunks_loop-cut :
      (fuel : ℕ) (chunks : List (EventChunk A)) (events : List A) (size k : ℕ)
      → 0 < size
      → k * size < length events + size
      → length events - k * size < fuel
      → (cs : List (EventChunk A)) × (chunks_loop fuel chunks events size (k * size)
          ≡ some (chunks ++ cs))
        × (concat (map (λ c. c.events) cs) ≡ drop (k * size) events)
        × IsNumbered size (chunk_count (length events) size) k cs
  unfolding chunks_loop
  chunks_loop-cut zero chunks events size k h lt f = absurd (omega (arith, f))
  chunks_loop-cut (suc fuel) chunks events size k h lt f =
      elim (Bool-cases (ltb (k * size) (length events))) [
        | inr done ↦
            let le = ltb-false→le (k * size) (length events) done in
            (
              [],
              rw done (ap some (sym (append-nil chunks))),
              sym (drop_all (k * size) events le),
              chunk_count_end (length events) size k h lt le,
            )
        | inl more ↦
            let less = ltb→lt (k * size) (length events) more in
            let c : EventChunk A = record {
              id = k * size / size;
              events = slice events (k * size) (chunk_end (k * size) size (length events));
              total_chunks = chunk_count (length events) size;
              chunk_index = k * size / size;
            } in
            let next : suc k * size ≡ k * size + size = suc-mul k size in
            let r =
              chunks_loop-cut fuel (chunks ++ c ∷ []) events size (suc k) h
                (omega (arith, next, less)) (omega (arith, next, less, f)) in
            let b = slice_bounds events size (k * size) h less in
            let number : k * size / size ≡ k = mul-div_cancel k h in
            (
              c ∷ r.0,
              rw more (
                  ap (λ i. chunks_loop fuel (chunks ++ c ∷ []) events size i) (sym next)
                  ∙ r.1
                  ∙ ap some (append_assoc chunks (c ∷ []) r.0)),
              ap (λ l. c.events ++ l) (r.2 ∙ ap (λ i. drop i events) next)
                  ∙ slice-append-drop events size (k * size),
              ((number, number, refl, b.0, b.1), r.3),
            )
      ]

  -- With a positive size and more fuel than there are events, `createEventChunks` returns. The
  -- chunks hold all the events, in their order; none is empty and none holds more than `size`; they
  -- are numbered from 0, and each one knows how many there are.
  pub create_event_chunks-IsNumbered :
      (fuel : ℕ) (events : List A) (size : ℕ)
      → 0 < size
      → length events < fuel
      → (cs : List (EventChunk A)) × (create_event_chunks fuel events size ≡ some cs)
        × (concat (map (λ c. c.events) cs) ≡ events)
        × IsNumbered size (chunk_count (length events) size) 0 cs
  unfolding create_event_chunks
  create_event_chunks-IsNumbered fuel events size h f =
      let z : 0 ≡ 0 * size = omega arith in
      let r = chunks_loop-cut fuel [] events size 0 h (omega (arith, h)) (omega (arith, f)) in
      (
        r.0,
        ap (λ i. chunks_loop fuel [] events size i) z ∙ r.1,
        r.2 ∙ ap (λ i. drop i events) (sym z),
        r.3,
      )

  partitions_loop-cut :
      (fuel : ℕ) (partitions : List (List A)) (events : List A) (size i : ℕ)
      → 0 < size
      → length events - i < fuel
      → (ps : List (List A)) × (partitions_loop fuel partitions events size i
          ≡ some (partitions ++ ps))
        × (concat ps ≡ drop i events)
        × All (λ part. length part ≤ size) ps
  unfolding partitions_loop
  partitions_loop-cut zero partitions events size i h f = absurd (omega (arith, f))
  partitions_loop-cut (suc fuel) partitions events size i h f =
      elim (Bool-cases (ltb i (length events))) [
        | inr done ↦ (
          [],
          rw done (ap some (sym (append-nil partitions))),
          sym (drop_all i events (ltb-false→le i (length events) done)),
          tt,
        )
        | inl more ↦
            let less = ltb→lt i (length events) more in
            let part = slice events i (chunk_end i size (length events)) in
            let r =
              partitions_loop-cut fuel (partitions ++ part ∷ []) events size (i + size) h
                (omega (arith, less, f)) in
            (
              part ∷ r.0,
              rw more (r.1 ∙ ap some (append_assoc partitions (part ∷ []) r.0)),
              ap (λ l. part ++ l) r.2 ∙ slice-append-drop events size i,
              ((slice_bounds events size i h less).1, r.3),
            )
      ]

  -- With a positive size and more fuel than there are events, `partitionEvents` returns parts of at
  -- most `size` events that together hold all the events, in their order.
  pub partition_events-concat :
      (fuel : ℕ) (events : List A) (size : ℕ)
      → 0 < size
      → length events < fuel
      → (ps : List (List A)) × (partition_events fuel events size ≡ some ps)
        × (concat ps ≡ events)
        × All (λ part. length part ≤ size) ps
  unfolding partition_events
  partition_events-concat fuel events size h f = elim (Bool-cases (leb (length events) size)) [
    | inl small ↦
        (events ∷ [], rw small refl, append-nil events, (leb→le (length events) size small, tt))
    | inr large ↦
        let r = partitions_loop-cut fuel [] events size 0 h (omega (arith, f)) in
        (r.0, rw large r.1, r.2, r.3)
  ]
