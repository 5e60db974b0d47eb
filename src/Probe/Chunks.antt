-- ===== src/Probe/Chunks.antt =====
-- probe/probe.py, `_encoded_chunks`: a message as strings of bounded size. The pieces of the encoder
-- are given, the newline included, as lists of characters.
use node_monitor.Common.{
  ℕ, ◌+◌, ◌≤◌, ◌≡◌, refl, Bool, true, false, ◌&&◌, max, sym, ap, inl, inr, List, [], ◌∷◌, ◌++◌,
  append_assoc, append-nil, if◌then◌else◌, length, length-append, ltb, All, arith, Bool-cases,
}

abbrev pub emit_chunk_bytes : ℕ
emit_chunk_bytes = 65536

unfoldable pub is_pending {ℓ} : {A : Type ℓ} → List A → Bool
is_pending [] = false
is_pending (x ∷ xs) = true

-- `"".join(pieces)`
unfoldable pub join {ℓ} : {A : Type ℓ} → List (List A) → List A
join [] = []
join (piece ∷ pieces) = piece ++ join pieces

module _ {ℓ} {A : Type ℓ} where
  -- The loop, with what is pending and its size.
  unfoldable pub chunks_loop : List (List A) → ℕ → List (List A) → List (List A)
  chunks_loop pending size [] = join pending ∷ []
  chunks_loop pending size (piece ∷ pieces) =
      if is_pending pending && ltb emit_chunk_bytes (size + length piece)
      then join pending ∷ chunks_loop (piece ∷ []) (length piece) pieces
      else chunks_loop (pending ++ piece ∷ []) (size + length piece) pieces

  unfoldable pub encoded_chunks : List (List A) → List (List A)
  encoded_chunks pieces = chunks_loop [] 0 pieces

  join-append : (xs ys : List (List A)) → join (xs ++ ys) ≡ join xs ++ join ys
  unfolding join
  join-append [] ys = refl
  join-append (x ∷ xs) ys = rw (join-append xs ys, append_assoc x) refl

  -- The length of the longest piece.
  unfoldable pub longest : List (List A) → ℕ
  longest [] = 0
  longest (piece ∷ pieces) = max (length piece) (longest pieces)

  -- The chunks carry the text of the pieces, and none is longer than a bound.
  pub record IsChunking (bound : ℕ) (text : List A) (chunks : List (List A)) : Type ℓ where
    pub whole : join chunks ≡ text
    pub small : All (λ chunk. length chunk ≤ bound) chunks

  last_chunk : (bound : ℕ) (text : List A) → length text ≤ bound → IsChunking bound text (text ∷ [])
  last_chunk bound text h = record { whole = unfold join in append-nil text; small = (h, tt) }

  first_chunk :
      (bound : ℕ) (text rest : List A) (chunks : List (List A))
      → length text ≤ bound
      → IsChunking bound rest chunks
      → IsChunking bound (text ++ rest) (text ∷ chunks)
  first_chunk bound text rest chunks h k = record {
    whole = unfold join in ap (λ xs. text ++ xs) k.whole;
    small = (h, k.small);
  }

  length_snoc :
      (pending : List (List A)) (piece : List A)
      → length (join (pending ++ piece ∷ [])) ≡ length (join pending) + length piece
  length_snoc pending piece =
      rw (join-append pending (piece ∷ []))
        (unfold join in rw (append-nil piece) (length-append (join pending) piece))

  room_for :
      (bound : ℕ) (pending : List (List A)) (piece : List A)
      → emit_chunk_bytes ≤ bound
      → length piece ≤ bound
      → (is_pending pending && ltb emit_chunk_bytes (length (join pending) + length piece)) ≡ false
      → length (join pending) + length piece ≤ bound
  unfolding is_pending join
  room_for bound [] piece h k e = omega (arith, k)
  room_for bound (p ∷ pending) piece h k e = ground arith

  chunks_loop-IsChunking :
      (bound : ℕ) (pending pieces : List (List A)) (size : ℕ)
      → size ≡ length (join pending)
      → emit_chunk_bytes ≤ bound
      → size ≤ bound
      → longest pieces ≤ bound
      → IsChunking bound (join (pending ++ pieces)) (chunks_loop pending size pieces)
  unfolding chunks_loop longest
  chunks_loop-IsChunking bound pending [] size e h k l =
      rw (append-nil pending) (last_chunk bound (join pending) (omega (arith, e, k)))
  chunks_loop-IsChunking bound pending (piece ∷ pieces) size e h k l =
      elim (Bool-cases (is_pending pending && ltb emit_chunk_bytes (size + length piece))) [
        | inl full ↦
            rw (full, join-append pending (piece ∷ pieces))
              (first_chunk bound (join pending) (join (piece ∷ pieces))
                (chunks_loop (piece ∷ []) (length piece) pieces) (omega (arith, e, k))
                (chunks_loop-IsChunking bound (piece ∷ []) pieces (length piece)
                  (unfold join in ap length (sym (append-nil piece))) h (omega (arith, l))
                  (omega (arith, l))))
        | inr fits ↦
            rw (fits, sym (append_assoc pending (piece ∷ []) pieces))
              (chunks_loop-IsChunking bound (pending ++ piece ∷ []) pieces (size + length piece)
                (omega (arith, e, length_snoc pending piece)) h
                (rw e (room_for bound pending piece h (omega (arith, l)) (rw (sym e) fits)))
                (omega (arith, l)))
      ]

  -- The chunks are the line in pieces, in order and without loss, and no chunk is longer than the
  -- limit or than the longest piece of the encoder, whichever is more.
  pub encoded_chunks-IsChunking :
      (pieces : List (List A))
      → IsChunking (max emit_chunk_bytes (longest pieces)) (join pieces) (encoded_chunks pieces)
  unfolding encoded_chunks
  encoded_chunks-IsChunking pieces =
      chunks_loop-IsChunking (max emit_chunk_bytes (longest pieces)) [] pieces 0
        (unfold join in refl) (omega arith) (omega arith) (omega arith)
