-- ===== src/Xfer/Tests.antt =====
-- dsp_xfer at concrete inputs.
use dsp_embedded.Prelude.{
  ◌≡◌, refl, ◌↔◌, some, [], ◌∷◌, List, pos, Text, get_elem?, ◌&&◌, if◌then◌else◌,
}
use dsp_embedded.Xfer.{
  XferEntry, transferring, initial, start, fresh_entry, sm_next, create, apply, slot, fire, init,
  set_notify,
}
use dsp_embedded.Xfer.Machine.{XferArrow, sm_next-XferArrow_iff}
use dsp_embedded.Xfer.Notify.{
  XferCall, creates, applies, step, run, ready, times, has_started, notified_once,
}

abbrev urn_a : Text
urn_a = 97 ∷ 49 ∷ []

-- A transfer that is started twice, and one that is refused for want of a slot.
abbrev calls : List XferCall
calls =
    creates (some urn_a) ∷ applies (pos 0) start ∷ applies (pos 0) start ∷ creates (some urn_a) ∷ []

abbrev entry : XferEntry
entry = record (fresh_entry urn_a) { state = transferring }

calls-table : get_elem? (run (ready 1) calls).table 0 ≡ some entry
unfolding run step create apply slot fire init set_notify sm_next
calls-table = refl

sm_next-XferArrow_iff_example :
    (sm_next initial start ≡ transferring) ↔ XferArrow initial start transferring
sm_next-XferArrow_iff_example = sm_next-XferArrow_iff initial start transferring (λ e. absurd (cc))

notified_once_example :
    times 0 (run (ready 1) calls).notified
    ≡ (if entry.active && has_started entry.state then 1 else 0)
notified_once_example = notified_once 1 calls 0 entry calls-table
