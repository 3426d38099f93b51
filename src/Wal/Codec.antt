-- ===== src/Wal/Codec.antt =====
-- The bytes of `WalRecord` (crates/eidolon-world/src/wal.rs): decoding what was encoded.
use eidolon.Base.{
  ℕ, ◌+◌, ◌-◌, ◌≤◌, ◌≡◌, refl, ap, ◌∙◌, List, [], ◌∷◌, ◌++◌, arith, length, take, to_be,
  length-to_be, take-append, drop-append,
}
use eidolon.Wal.Record.{slice}

-- A slice behind the first chunk of a buffer, and the first chunk itself.
slice_later :
    (a n k : ℕ) (xs ys : List ℕ) → length xs ≡ k → k ≤ a → slice a n (xs ++ ys) ≡ slice (a - k) n ys
slice_later a n k xs ys h le =
    ap (take n) (drop-append a xs ys (omega arith)) ∙ ap (λ m. slice m n ys) (omega arith)

slice_first : (n : ℕ) (xs ys : List ℕ) → length xs ≡ n → slice 0 n (xs ++ ys) ≡ xs
slice_first n xs ys h = take-append n xs ys h

module _ (lsn tick account_id entity_id opcode payload_len checksum p : ℕ)
    (payload rest : List ℕ) where
  -- The chunks of an encoded record, and what follows.
  abbrev pub frame : List ℕ
  frame =
      to_be 8 lsn
      ++ (to_be 8 tick
          ++ (to_be 8 account_id
              ++ (to_be 4 entity_id
                  ++ ((opcode ∷ [])
                      ++ ((payload_len ∷ []) ++ (payload ++ (to_be 4 checksum ++ rest)))))))

  pub frame_lsn : slice 0 8 frame ≡ to_be 8 lsn
  frame_lsn = slice_first 8 (to_be 8 lsn) _ (length-to_be 8 lsn)

  pub frame_tick : slice 8 8 frame ≡ to_be 8 tick
  frame_tick =
      slice_later 8 8 8 (to_be 8 lsn) _ (length-to_be 8 lsn) (omega arith)
      ∙ slice_first 8 (to_be 8 tick) _ (length-to_be 8 tick)

  -- Behind the first two fields.
  frame_skip :
      (a n : ℕ) (x y : ℕ) (ys : List ℕ)
      → 16 ≤ a
      → slice a n (to_be 8 x ++ (to_be 8 y ++ ys)) ≡ slice (a - 16) n ys
  frame_skip a n x y ys h =
      slice_later a n 8 (to_be 8 x) _ (length-to_be 8 x) (omega arith)
      ∙ slice_later (a - 8) n 8 (to_be 8 y) ys (length-to_be 8 y) (omega arith)
      ∙ ap (λ m. slice m n ys) (omega arith)

  pub frame_account : slice 16 8 frame ≡ to_be 8 account_id
  frame_account =
      frame_skip 16 8 lsn tick _ (omega arith)
      ∙ slice_first 8 (to_be 8 account_id) _ (length-to_be 8 account_id)

  pub frame_entity : slice 24 4 frame ≡ to_be 4 entity_id
  frame_entity =
      frame_skip 24 4 lsn tick _ (omega arith)
      ∙ slice_later 8 4 8 (to_be 8 account_id) _ (length-to_be 8 account_id) (omega arith)
      ∙ slice_first 4 (to_be 4 entity_id) _ (length-to_be 4 entity_id)

  -- Behind the identifiers.
  frame_tail :
      (a n : ℕ)
      → slice (28 + a) n frame
        ≡ slice a n
            ((opcode ∷ []) ++ ((payload_len ∷ []) ++ (payload ++ (to_be 4 checksum ++ rest))))
  frame_tail a n =
      frame_skip (28 + a) n lsn tick _ (omega arith)
      ∙ slice_later (28 + a - 16) n 8 (to_be 8 account_id) _ (length-to_be 8 account_id)
          (omega arith)
      ∙ slice_later (28 + a - 16 - 8) n 4 (to_be 4 entity_id) _ (length-to_be 4 entity_id)
          (omega arith)
      ∙ ap
          (λ m.
            slice m n
              ((opcode ∷ []) ++ ((payload_len ∷ []) ++ (payload ++ (to_be 4 checksum ++ rest)))))
          (omega arith)

  pub frame_payload : length payload ≡ p → slice 30 p frame ≡ payload
  frame_payload h = frame_tail 2 p ∙ slice_first p payload _ h

  pub frame_checksum : length payload ≡ p → slice (30 + p) 4 frame ≡ to_be 4 checksum
  frame_checksum h =
      ap (λ m. slice m 4 frame) (omega arith)
      ∙ frame_tail (2 + p) 4
      ∙ slice_later (2 + p) 4 1 (opcode ∷ []) _ refl (omega arith)
      ∙ slice_later (2 + p - 1) 4 1 (payload_len ∷ []) _ refl (omega arith)
      ∙ slice_later (2 + p - 1 - 1) 4 p payload _ h (omega arith)
      ∙ ap (λ m. slice m 4 (to_be 4 checksum ++ rest)) {y = 0} (omega arith)
      ∙ slice_first 4 (to_be 4 checksum) rest (length-to_be 4 checksum)

  pub frame_opcode : slice 28 1 frame ≡ opcode ∷ []
  frame_opcode = frame_tail 0 1

  pub frame_payload_len : slice 29 1 frame ≡ payload_len ∷ []
  frame_payload_len = frame_tail 1 1
