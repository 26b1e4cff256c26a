-- ===== src/Rtc/Validity.antt =====
-- When the RTC image counts as valid, and what `dsp_rtc_state_restore` does with one that does not.
use dsp_embedded.Prelude.{
  AllBytes, ℕ, ◌+◌, ◌≡◌, ◌≢◌, refl, ap, [], some, pos, Text, Bool, if◌then◌else◌, not, ltb, set,
  length, length-set, Bool-cases, true, false, ◌⊎◌, inl, inr, arith, ◌==◌, ==_refl, sym, ◌∙◌, List,
  ◌++◌, ◌∷◌, ◌<◌,
}
use dsp_embedded.Prelude.Xor.{bit_xor-ne_self}
use dsp_embedded.Esp.{EspErr, ok, invalid_arg, invalid_state, invalid_crc}
use dsp_embedded.Neg
use dsp_embedded.Neg.{Negotiations}
use dsp_embedded.Neg.Lifecycle.{load_slot_cases}
use dsp_embedded.Xfer
use dsp_embedded.Xfer.{Transfers}
use dsp_embedded.Rtc.{
  Store, RtcNegSlot, RtcXferSlot, save, restore, clear, is_valid, corrupt_crc, compute_crc32,
  image_crc, rtc_magic, neg_bytes, xfer_bytes, restore_neg, restore_xfer,
}
use dsp_embedded.Rtc.Crc.{image_crc_detects}

-- What was just saved is valid, whatever the tables and the old store were.
save-is_valid : (m : Negotiations) (x : Transfers) → is_valid (save m x).1 ≡ true
unfolding save is_valid compute_crc32
save-is_valid m x = ground (arith, ==_refl (save m x).1.crc32)

length-load_slot :
    (m : Negotiations) (i : ℕ) (s : Neg.NegState) (c p : Text)
    → length (Neg.load_slot m (pos i) s (some c) (some p)).1.table ≡ length m.table
length-load_slot m i s c p = elim (load_slot_cases m i s c p) [
  | inl same ↦ ap (λ n. length n.table) same
  | inr new ↦
      ap (λ n. length n.table) new
      ∙ length-set m.table i (record (Neg.fresh_entry c p) { state = s })
]

length-either :
    (b : Bool) (m m' : Negotiations)
    → length m'.table ≡ length m.table
    → length (if b then m else m').table ≡ length m.table
length-either true m m' e = refl
length-either false m m' e = e

length-restore_neg :
    (i : ℕ) (ss : List RtcNegSlot) (m : Negotiations)
    → length (restore_neg i ss m).table ≡ length m.table
unfolding restore_neg
length-restore_neg i [] m = refl
length-restore_neg i (s ∷ ss) m =
    let m' = (Neg.load_slot m (pos i) s.state (some s.consumer_pid) (some s.provider_pid)).1 in
    length-restore_neg (i + 1) ss (if s.active == 0 then m else m')
    ∙ length-either (s.active == 0) m m'
        (length-load_slot m i s.state s.consumer_pid s.provider_pid)

length-guarded :
    (a b : Bool) (x x' : Transfers) (e f g : EspErr)
    → length x'.table ≡ length x.table
    → let r : EspErr × Transfers = if a then (e, x) else if b then (f, x) else (g, x') in
      length r.1.table ≡ length x.table
length-guarded true b x x' e f g h = refl
length-guarded false true x x' e f g h = refl
length-guarded false false x x' e f g h = h

length-xload_slot :
    (x : Transfers) (i : ℕ) (s : Xfer.XferState) (p : Text)
    → length (Xfer.load_slot x (pos i) s (some p)).1.table ≡ length x.table
unfolding Xfer.load_slot
length-xload_slot x i s p =
    let e : Xfer.XferEntry = record (Xfer.fresh_entry p) { state = s } in
    length-guarded (not (ltb i (length x.table))) (not x.initialized) x
      (record x { table = set x.table i e }) invalid_arg invalid_state ok (length-set x.table i e)

length-xeither :
    (b : Bool) (x x' : Transfers)
    → length x'.table ≡ length x.table
    → length (if b then x else x').table ≡ length x.table
length-xeither true x x' e = refl
length-xeither false x x' e = e

length-restore_xfer :
    (i : ℕ) (ss : List RtcXferSlot) (x : Transfers)
    → length (restore_xfer i ss x).table ≡ length x.table
unfolding restore_xfer
length-restore_xfer i [] x = refl
length-restore_xfer i (s ∷ ss) x =
    let x' = (Xfer.load_slot x (pos i) s.state (some s.process_id)).1 in
    length-restore_xfer (i + 1) ss (if s.active == 0 then x else x')
    ∙ length-xeither (s.active == 0) x x' (length-xload_slot x i s.state s.process_id)

-- `dsp_rtc_state_restore` returns `ESP_OK` exactly where dsp_rtc_state_is_valid accepts the store, which
-- has the magic number and the checksum of its slots then, and both tables keep their sizes. Where the magic is wrong it returns ESP_ERR_INVALID_STATE, where only the checksum is, it
-- returns ESP_ERR_INVALID_CRC, and in both cases it leaves both tables as they were.
pub restore_status :
    (s : Store) (m : Negotiations) (x : Transfers)
    → let (err, m', x') = restore s m x in
      ((is_valid s ≡ true)
        × (s.magic ≡ rtc_magic)
        × (compute_crc32 s ≡ s.crc32)
        × (err ≡ ok)
        × (length m'.table ≡ length m.table)
        × (length x'.table ≡ length x.table))
      ⊎ ((is_valid s ≡ false) × (s.magic ≢ rtc_magic) × (err ≡ invalid_state) × (m' ≡ m) × (x' ≡ x))
      ⊎ ((is_valid s ≡ false)
          × (s.magic ≡ rtc_magic)
          × (compute_crc32 s ≢ s.crc32)
          × (err ≡ invalid_crc)
          × (m' ≡ m)
          × (x' ≡ x))
unfolding restore is_valid
restore_status s m x = elim (Bool-cases (s.magic == rtc_magic)) [
  | inl a ↦ elim (Bool-cases (compute_crc32 s == s.crc32)) [
    | inl b ↦
        rw (a, b)
          (inl (
            refl,
            ground arith,
            ground arith,
            refl,
            length-restore_neg 0 s.neg m,
            length-restore_xfer 0 s.xfer x,
          ))
    | inr b ↦ rw (a, b) (inr (inr (refl, ground arith, ground arith, refl, refl, refl)))
  ]
  | inr a ↦ rw a (inr (inl (refl, ground arith, refl, refl, refl)))
]

-- A cleared store is not valid, and neither is a valid one whose checksum was flipped.
clear_corrupt_invalid :
    (s : Store)
    → is_valid s ≡ true
    → (is_valid (clear s) ≡ false) × (is_valid (corrupt_crc s) ≡ false)
unfolding is_valid clear corrupt_crc compute_crc32
clear_corrupt_invalid s h = ground (arith, bit_xor-ne_self s.crc32 0xFFFFFFFF (omega arith))

-- If one byte of the slot arrays of a valid store changes, and none else, the stored checksum no
-- longer matches.
pub single_byte_detected :
    (s : Store) (neg' xfer' pre post : List ℕ) (a b : ℕ)
    → is_valid s ≡ true
    → neg_bytes s.neg ++ xfer_bytes s.xfer ≡ pre ++ (a ∷ post)
    → neg' ++ xfer' ≡ pre ++ (b ∷ post)
    → AllBytes (pre ++ (a ∷ post))
    → b < 256
    → a ≢ b
    → image_crc neg' xfer' ≢ s.crc32
unfolding is_valid compute_crc32
single_byte_detected s neg' xfer' pre post a b v e e' bytes hb ne same =
    let intact : image_crc (neg_bytes s.neg) (xfer_bytes s.xfer) ≡ s.crc32 = ground arith in
    image_crc_detects (neg_bytes s.neg) (xfer_bytes s.xfer) neg' xfer' pre post a b e e' bytes hb ne
      (intact ∙ sym same)
