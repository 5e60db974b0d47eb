-- ===== src/Database/Spool/Room.antt =====
-- database/spool.py, `_make_room`: what the spool gives up to make room.
use node_monitor.Common.{
  ℕ, ◌+◌, ◌-◌, ◌≤◌, ◌<◌, not, ◌≡◌, refl, sym, ap, ◌∙◌, ◌⊎◌, inl, inr, Bool, true, false, List, [],
  ◌∷◌, ◌++◌, keep, sum_by, leb, leb→le, arith, Bool-cases, if◌then◌else◌,
}
use node_monitor.Database.Spool.{
  is_live_only, Batch, Spool, room_loop, room, candidates, batch_files, size_bytes,
}

module _ {V : Type 0} where
  -- The new batch does not fit yet when each of these is tried.
  abbrev pub AreNeeded : ℕ → ℕ → ℕ → List (Batch V) → Type 0
  AreNeeded max_bytes needed total [] = Unit
  AreNeeded max_bytes needed total (b ∷ bs) =
      (max_bytes < total + needed)
      × AreNeeded max_bytes needed (if b.deletable then total - b.bytes else total) bs

  -- Of the candidates the first ones are tried, each only while there is too little room, those
  -- that can be deleted are, and it ends with room enough or with no candidate left.
  pub record IsRoom (max_bytes needed total : ℕ) (files dropped : List (Batch V)) : Type 0 where
    pub tried : List (Batch V)
    pub left : List (Batch V)
    pub split : files ≡ tried ++ left
    pub deleted : dropped ≡ keep Batch.deletable tried
    pub needs : AreNeeded max_bytes needed total tried
    pub enough : (total - sum_by Batch.bytes dropped + needed ≤ max_bytes) ⊎ (left ≡ [])

  module _ (max_bytes needed : ℕ) where
    stops :
        (total : ℕ) (b : Batch V) (bs : List (Batch V))
        → leb (total + needed) max_bytes ≡ true
        → room_loop max_bytes needed total (b ∷ bs) ≡ []
    unfolding room_loop
    stops total b bs fits = rw fits refl

    goes_on :
        (total : ℕ) (b : Batch V) (bs : List (Batch V)) (deletable : Bool)
        → leb (total + needed) max_bytes ≡ false
        → b.deletable ≡ deletable
        → room_loop max_bytes needed total (b ∷ bs) ≡ (
            if deletable
            then b ∷ room_loop max_bytes needed (total - b.bytes) bs
            else room_loop max_bytes needed total bs)
    unfolding room_loop
    goes_on total b bs deletable full e = rw full (
        ap
          (λ d.
            if d
            then b ∷ room_loop max_bytes needed (total - b.bytes) bs
            else room_loop max_bytes needed total bs)
          e)

    tries :
        (b : Batch V) (bs : List (Batch V)) (deletable : Bool)
        → b.deletable ≡ deletable
        → keep Batch.deletable (b ∷ bs)
          ≡ (if deletable then b ∷ keep Batch.deletable bs else keep Batch.deletable bs)
    tries b bs deletable e =
        ap (λ d. if d then b ∷ keep Batch.deletable bs else keep Batch.deletable bs) e

    room_loop-IsRoom :
        (total : ℕ) (files : List (Batch V))
        → IsRoom max_bytes needed total files (room_loop max_bytes needed total files)
    room_loop-IsRoom total [] = record {
      tried = [];
      left = [];
      split = refl;
      deleted = unfold room_loop in refl;
      needs = tt;
      enough = inr refl;
    }
    room_loop-IsRoom total (b ∷ bs) = elim (Bool-cases (leb (total + needed) max_bytes)) [
      | inl fits ↦ record {
        tried = [];
        left = b ∷ bs;
        split = refl;
        deleted = stops total b bs fits;
        needs = tt;
        enough = inl (omega (arith, leb→le (total + needed) max_bytes fits));
      }
      | inr full ↦ elim (Bool-cases b.deletable) [
        | inl gone ↦
            let h = room_loop-IsRoom (total - b.bytes) bs in
            let step = goes_on total b bs true full gone in
            record {
              tried = b ∷ h.tried;
              left = h.left;
              split = ap (λ cs. b ∷ cs) h.split;
              deleted = step ∙ ap (λ cs. b ∷ cs) h.deleted ∙ sym (tries b h.tried true gone);
              needs = (ground (arith, full), rw gone h.needs);
              enough = elim h.enough [
                | inl room ↦ inl (rw step (omega (arith, room)))
                | inr none_left ↦ inr none_left
              ];
            }
        | inr kept ↦
            let h = room_loop-IsRoom total bs in
            let step = goes_on total b bs false full kept in
            record {
              tried = b ∷ h.tried;
              left = h.left;
              split = ap (λ cs. b ∷ cs) h.split;
              deleted = step ∙ h.deleted ∙ sym (tries b h.tried false kept);
              needs = (ground (arith, full), rw kept h.needs);
              enough = elim h.enough [
                | inl room ↦ inl (rw step room)
                | inr none_left ↦ inr none_left
              ];
            }
      ]
    ]

    -- To make room the batches of live state are tried first and then the others, each kind in the
    -- order of the stored batches; one is tried only while the new batch does not fit, and those
    -- that can be deleted are; it ends when the new batch fits, or with every batch tried.
    pub room-IsRoom :
        (s : Spool V)
        → IsRoom max_bytes needed
            (size_bytes s)
            (keep is_live_only (batch_files s.files)
              ++ keep (λ b. not (is_live_only b)) (batch_files s.files))
            (room max_bytes needed s)
    unfolding room candidates
    room-IsRoom s = room_loop-IsRoom (size_bytes s) (candidates (batch_files s.files))
