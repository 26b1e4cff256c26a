-- ===== src/Rtc/Restore.antt =====
-- The tables before and after deep sleep: `dsp_rtc_state_save`, then `dsp_rtc_state_restore`.
use dsp_embedded.Prelude.{
  ℕ, ◌+◌, ◌<◌, ◌≡◌, refl, ap, ◌∙◌, true, some, List, [], ◌∷◌, ◌++◌, map, arith, if◌then◌else◌,
  length, length-append, get_elem?, take, take_of_le, pos, Bool-cases, inl, inr, append_assoc,
  tabulate, ◌==◌, tabulate-map, ==_refl, set-middle,
}
use dsp_embedded.Esp.{ok}
use dsp_embedded.Xfer
use dsp_embedded.Xfer.{XferEntry, Transfers}
use dsp_embedded.Neg
use dsp_embedded.Neg.{
  NegEntry, Negotiations, zero_entry, is_active, get_state, get_consumer_pid, get_provider_pid,
  slot, load_slot, fresh_entry,
}
use dsp_embedded.Neg.Lifecycle.{AllFit, Fits}
use dsp_embedded.Rtc.{
  RtcNegSlot, zero_neg_slot, save_neg_slot, restore_neg, RtcXferSlot, zero_xfer_slot,
  save_xfer_slot, restore_xfer, restore, save, compute_crc32,
}

-- The saved form of an entry.
saved : NegEntry → RtcNegSlot
saved e =
    if e.active
    then record {
      active = 1;
      state = e.state;
      consumer_pid = take 63 e.consumer_pid;
      provider_pid = take 63 e.provider_pid;
    }
    else zero_neg_slot

-- A slot that is free comes back as a blank one.
abbrev pub kept : NegEntry → NegEntry
kept e = if e.active then e else zero_entry

save_neg_slot-at :
    (m : Negotiations) (i : ℕ) (e : NegEntry)
    → get_elem? m.table i ≡ some e
    → save_neg_slot m i ≡ saved e
unfolding save_neg_slot saved is_active get_state get_consumer_pid get_provider_pid slot
save_neg_slot-at m i e g = ground arith

-- The loop of the save.
save_neg-map :
    (m : Negotiations) → tabulate (save_neg_slot m) 0 (length m.table) ≡ map saved m.table
save_neg-map m = tabulate-map (save_neg_slot m) saved m.table (save_neg_slot-at m)

-- A table that is restored up to the entries `es`.
abbrev partly : List NegEntry → List NegEntry → Negotiations
partly pre post = record { table = pre ++ post; initialized = true }

load_slot-middle :
    (pre post : List NegEntry) (z e : NegEntry)
    → Fits e
    → load_slot
        (partly pre (z ∷ post))
        (pos (length pre))
        e.state
        (some (take 63 e.consumer_pid))
        (some (take 63 e.provider_pid))
      ≡ (ok, partly pre (record e { active = true } ∷ post))
unfolding load_slot
load_slot-middle pre post z e fits =
    let e' : NegEntry = record e { active = true } in
    ground (
      arith,
      length-append pre (z ∷ post),
      set-middle pre post z e',
      take_of_le 63 e.consumer_pid,
      take_of_le 63 e.provider_pid,
    )

abbrev restored_one : ℕ → RtcNegSlot → Negotiations → Negotiations
restored_one i s m =
    if s.active == 0
    then m
    else (load_slot m (pos i) s.state (some s.consumer_pid) (some s.provider_pid)).1

restored_one-middle :
    (pre post : List NegEntry) (e : NegEntry)
    → Fits e
    → restored_one (length pre) (saved e) (partly pre (zero_entry ∷ post))
      ≡ partly pre (kept e ∷ post)
unfolding saved
restored_one-middle pre post e fits = elim (Bool-cases e.active) [
  | inl a ↦ ground (arith, load_slot-middle pre post zero_entry e fits)
  | inr a ↦ ground arith
]

-- The loop of the restore, with the part of the table that is done.
restore_neg-map :
    (es : List NegEntry) (pre : List NegEntry)
    → AllFit es
    → restore_neg (length pre) (map saved es) (partly pre (map (λ e. zero_entry) es))
      ≡ partly pre (map kept es)
unfolding restore_neg
restore_neg-map [] pre f = refl
restore_neg-map (e ∷ es) pre f =
    let ih = restore_neg-map es (pre ++ (kept e ∷ [])) f.1 in
    let done : List NegEntry = kept e ∷ [] in
    let todo : List NegEntry = map (λ e. zero_entry) es in
    ap (restore_neg (length pre + 1) (map saved es)) (restored_one-middle pre todo e f.0)
    ∙ (simp (append_assoc, length-append) at ih)

-- The same for transfers.
xsaved : XferEntry → RtcXferSlot
xsaved e =
    if e.active
    then record { active = 1; state = e.state; process_id = take 63 e.process_id }
    else zero_xfer_slot

abbrev pub xkept : XferEntry → XferEntry
xkept e = if e.active then e else Xfer.zero_entry

abbrev pub AllFitXfer : List XferEntry → Type 0
AllFitXfer [] = Unit {0}
AllFitXfer (e ∷ t) = (length e.process_id < 64) × AllFitXfer t

save_xfer_slot-at :
    (x : Transfers) (i : ℕ) (e : XferEntry)
    → get_elem? x.table i ≡ some e
    → save_xfer_slot x i ≡ xsaved e
unfolding save_xfer_slot xsaved Xfer.is_active Xfer.get_state Xfer.get_process_id Xfer.slot
save_xfer_slot-at x i e g = ground arith

save_xfer-map :
    (x : Transfers) → tabulate (save_xfer_slot x) 0 (length x.table) ≡ map xsaved x.table
save_xfer-map x = tabulate-map (save_xfer_slot x) xsaved x.table (save_xfer_slot-at x)

-- The module `x` with the table of which the part `pre` is restored.
abbrev xpartly : Transfers → List XferEntry → List XferEntry → Transfers
xpartly x pre post = record x { table = pre ++ post }

xload_slot-middle :
    (x : Transfers) (pre post : List XferEntry) (z e : XferEntry)
    → x.initialized ≡ true
    → length e.process_id < 64
    → Xfer.load_slot
        (xpartly x pre (z ∷ post))
        (pos (length pre))
        e.state
        (some (take 63 e.process_id))
      ≡ (ok, xpartly x pre (record e { active = true } ∷ post))
unfolding Xfer.load_slot
xload_slot-middle x pre post z e up fits =
    let e' : XferEntry = record e { active = true } in
    ground
      (arith, length-append pre (z ∷ post), set-middle pre post z e', take_of_le 63 e.process_id)

abbrev xrestored_one : ℕ → RtcXferSlot → Transfers → Transfers
xrestored_one i s x =
    if s.active == 0 then x else (Xfer.load_slot x (pos i) s.state (some s.process_id)).1

xrestored_one-middle :
    (x : Transfers) (pre post : List XferEntry) (e : XferEntry)
    → x.initialized ≡ true
    → length e.process_id < 64
    → xrestored_one (length pre) (xsaved e) (xpartly x pre (Xfer.zero_entry ∷ post))
      ≡ xpartly x pre (xkept e ∷ post)
unfolding xsaved
xrestored_one-middle x pre post e up fits = elim (Bool-cases e.active) [
  | inl a ↦ ground (arith, xload_slot-middle x pre post Xfer.zero_entry e up fits)
  | inr a ↦ ground arith
]

restore_xfer-map :
    (x : Transfers) (es : List XferEntry) (pre : List XferEntry)
    → x.initialized ≡ true
    → AllFitXfer es
    → restore_xfer (length pre) (map xsaved es) (xpartly x pre (map (λ e. Xfer.zero_entry) es))
      ≡ xpartly x pre (map xkept es)
unfolding restore_xfer
restore_xfer-map x [] pre up f = refl
restore_xfer-map x (e ∷ es) pre up f =
    let ih = restore_xfer-map x es (pre ++ (xkept e ∷ [])) up f.1 in
    let todo : List XferEntry = map (λ e. Xfer.zero_entry) es in
    ap (restore_xfer (length pre + 1) (map xsaved es)) (xrestored_one-middle x pre todo e up f.0)
    ∙ (simp (append_assoc, length-append) at ih)

-- What was saved before deep sleep is what stands in the tables after it: on modules that were wiped
-- and initialised, with as many slots, `dsp_rtc_state_restore` succeeds on the store that
-- `dsp_rtc_state_save` left, and every slot that was in use has its entry again, at its index, and
-- every other slot is blank. The PIDs must fit their fields, and no notification is sent.
pub restore-save :
    (m : Negotiations) (x x' : Transfers)
    → AllFit m.table
    → AllFitXfer x.table
    → x'.initialized ≡ true
    → x'.table ≡ Xfer.wipe x.table
    → restore (save m x).1 (record { table = Neg.wipe m.table; initialized = true }) x' ≡ (
      ok,
      record { table = map kept m.table; initialized = true },
      record x' { table = map xkept x.table },
    )
unfolding restore save compute_crc32
restore-save m x x' f g up w =
    let n =
      ap (λ l. restore_neg 0 l (partly [] (Neg.wipe m.table))) (save_neg-map m)
      ∙ restore_neg-map m.table [] f in
    let k =
      ap
        (λ t.
          restore_xfer 0 (tabulate (save_xfer_slot x) 0 (length x.table)) (record x' { table = t }))
        w
      ∙ ap (λ l. restore_xfer 0 l (xpartly x' [] (Xfer.wipe x.table))) (save_xfer-map x)
      ∙ restore_xfer-map x' x.table [] up g in
    ground (arith, n, k, ==_refl (save m x).1.crc32)
