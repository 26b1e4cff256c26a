-- ===== src/Handlers/Backed/Transfer.antt =====
-- What the requests to dsp_xfer keep of the two slot tables (components/dsp_neg, components/dsp_xfer).
use dsp_embedded.Prelude.{
  ℕ, ◌<◌, ◌≡◌, refl, sym, subst, inl, inr, true, Option, none, some, [], ◌∷◌, arith, set, length,
  take_of_le, Bool-cases, ltb, Text, ℤ, pos, negsuc,
}
use dsp_embedded.Json.{CJson, get_string, string_value, copied}
use dsp_embedded.Jsonld.{field_process_id}
use dsp_embedded.Msg.{validate_transfer_request}
use dsp_embedded.Neg
use dsp_embedded.Neg.{NegState, agreed, Negotiations, find_by_cpid}
use dsp_embedded.Xfer
use dsp_embedded.Xfer.{XferState, XferEvent, XferEntry, Transfers, find_by_pid, is_transferring}
use dsp_embedded.Xfer.{initial, transferring, completed, failed}
use dsp_embedded.Xfer.Slots.{
  Creates, full, takes, create-Creates, Applies, missing, moves, apply-Applies, fire_table,
}
use dsp_embedded.Handlers.{Connector, is_msg_ok, read_pid, text_of}
use dsp_embedded.Handlers.Tables.{
  AgreedIn, Backing, IsBacked, found-Backing, AreSound, AreSound-set, get_elem?-IsBacked,
}
use dsp_embedded.Handlers.Negotiation.{respond, is_agreed}
use dsp_embedded.Handlers.Transfer.{
  respond_start, respond_completion, start_slot, start_agreed, start_pid, start_message, start_body,
  complete_slot, complete_id, respond_state, xfer_get_slot, xfer_get_id,
}
use dsp_embedded.Handlers.Backed.Negotiation.{HasSound}

-- A new transfer of a process ID that a negotiation stands behind.
created-AreSound :
    {W : Text → Type 0} {max : ℕ} {m : Negotiations} {x : Transfers} (pid : Text)
    {r : ℤ × Transfers}
    → length pid < 64
    → Backing W m.table pid
    → Creates x (Xfer.fresh_entry pid) r
    → AreSound W max m x
    → AreSound W max m r.1
created-AreSound pid fits b (full n) s = s
created-AreSound {W = W} {m = m} pid fits b (takes i old at free) s =
    AreSound-set i (Xfer.fresh_entry pid) refl
      (inr (subst (Backing W m.table) (sym (take_of_le 63 pid (omega (arith, fits)))) b)) s

applied-AreSound :
    {W : Text → Type 0} {max : ℕ} {m : Negotiations} {x : Transfers} (i : ℕ) (event : XferEvent)
    {r : XferState × Transfers}
    → Applies x i event r
    → AreSound W max m x
    → AreSound W max m r.1
applied-AreSound i event (missing n) s = s
applied-AreSound {W = W} {m = m} {x = x} i event (moves e at busy) s =
    let next = Xfer.sm_next e.state event in
    let e' : XferEntry = record e { state = next } in
    AreSound-set i e' (fire_table (record x { table = set x.table i e' }) i e.state next)
      (moved (get_elem?-IsBacked W m.table x.table i e s.backed at)) s
  where
    moved :
        IsBacked W m.table e → IsBacked W m.table (record e { state = Xfer.sm_next e.state event })
    moved (inl free) = inl free
    moved (inr b) = inr b

module _ (J : CJson) (max : ℕ) (W : Text → Type 0) where
  start_slot-HasSound :
      (c : Connector J) (stack pid : Text) (r : ℤ × Transfers)
      → AreSound W max c.neg r.1
      → HasSound J max W (start_slot J c stack pid r).1
  unfolding start_slot respond_start respond
  start_slot-HasSound c stack pid (negsuc n, x) s = s
  start_slot-HasSound c stack pid (pos i, x) s =
      applied-AreSound i Xfer.start (apply-Applies x i Xfer.start) s

  is_agreed_iff : (s : NegState) → is_agreed s ≡ true → s ≡ agreed
  is_agreed_iff agreed e = refl
  is_agreed_iff Neg.initial e = absurd (cc)
  is_agreed_iff Neg.requested e = absurd (cc)
  is_agreed_iff Neg.offered e = absurd (cc)
  is_agreed_iff Neg.verified e = absurd (cc)
  is_agreed_iff Neg.finalized e = absurd (cc)
  is_agreed_iff Neg.terminated e = absurd (cc)

  start_agreed-HasSound :
      (c : Connector J) (stack pid : Text) (idx : ℤ)
      → length pid < 64
      → find_by_cpid c.neg (some pid) ≡ idx
      → ((p : Text) → AgreedIn c.neg.table p → W p)
      → HasSound J max W c
      → HasSound J max W (start_agreed J c stack pid idx).1
  unfolding start_agreed
  start_agreed-HasSound c stack pid (negsuc n) fits found w s = s
  start_agreed-HasSound c stack pid (pos k) fits found w s =
      elim (Bool-cases (is_agreed (Neg.get_state c.neg (pos k)))) [
        | inl e ↦
            let b =
              found-Backing max c.neg pid k s.well_formed fits found
                (is_agreed_iff (Neg.get_state c.neg (pos k)) e) (w pid) in
            rw e (
              start_slot-HasSound c stack pid (Xfer.create c.xfer (some pid))
                (created-AreSound pid fits b (create-Creates c.xfer pid) s))
        | inr e ↦ rw e s
      ]

  start_pid-HasSound :
      (c : Connector J) (stack pid : Text)
      → length pid < 64
      → ((p : Text) → AgreedIn c.neg.table p → W p)
      → HasSound J max W c
      → HasSound J max W (start_pid J c stack pid).1
  unfolding start_pid
  start_pid-HasSound c stack [] fits w s = s
  start_pid-HasSound c stack (x ∷ t) fits w s =
      start_agreed-HasSound c stack (x ∷ t) (find_by_cpid c.neg (some (x ∷ t))) fits refl w s

  text_of-copied : (o : Option Text) → length (text_of (copied J 64 o).1) < 64
  text_of-copied none = omega arith
  text_of-copied (some t) = elim (Bool-cases (ltb (length t) 64)) [
    | inl e ↦ rw e (ground (arith, e))
    | inr e ↦ rw e (omega arith)
  ]

  -- The process ID that is read from a message fits a slot.
  read_pid_fits : (msg : J.Node) → length (read_pid J msg) < 64
  unfolding read_pid get_string
  read_pid_fits msg = text_of-copied (string_value J (J.get_item msg field_process_id))

  start_message-HasSound :
      (c : Connector J) (stack : Text) (r : Option J.Node × J.Heap)
      → ((p : Text) → AgreedIn c.neg.table p → W p)
      → HasSound J max W c
      → HasSound J max W (start_message J c stack r).1
  unfolding start_message
  start_message-HasSound c stack (none, h) w s = s
  start_message-HasSound c stack (some msg, h) w s =
      start_pid-HasSound (record c { heap = J.delete h msg }) stack (read_pid J msg)
        (read_pid_fits msg) w s

  pub start_body-HasSound :
      (c : Connector J) (stack : Text) (body : Option Text)
      → ((p : Text) → AgreedIn c.neg.table p → W p)
      → HasSound J max W c
      → HasSound J max W (start_body J c stack body).1
  unfolding start_body
  start_body-HasSound c stack none w s = s
  start_body-HasSound c stack (some body) w s =
      let v = validate_transfer_request J c.heap (some body) in
      elim (Bool-cases (is_msg_ok v.0)) [
        | inr e ↦ rw e s
        | inl e ↦
            rw e (start_message-HasSound (record c { heap = v.1 }) stack (J.parse v.1 body) w s)
      ]

  complete_slot-HasSound :
      (c : Connector J) (stack id : Text) (idx : ℤ)
      → HasSound J max W c
      → HasSound J max W (complete_slot J c stack id idx).1
  unfolding complete_slot respond_completion respond
  complete_slot-HasSound c stack id (negsuc n) s = s
  complete_slot-HasSound c stack id (pos i) s =
      elim (Bool-cases (is_transferring (Xfer.get_state c.xfer (pos i)))) [
        | inl e ↦ rw e (applied-AreSound i Xfer.complete (apply-Applies c.xfer i Xfer.complete) s)
        | inr e ↦ rw e s
      ]

  pub complete_id-HasSound :
      (c : Connector J) (stack id : Text)
      → HasSound J max W c
      → HasSound J max W (complete_id J c stack id).1
  unfolding complete_id
  complete_id-HasSound c stack [] s = s
  complete_id-HasSound c stack (x ∷ t) s =
      complete_slot-HasSound c stack (x ∷ t) (find_by_pid c.xfer (some (x ∷ t))) s

  respond_state-HasSound :
      (c : Connector J) (stack id : Text) (state : XferState)
      → HasSound J max W c
      → HasSound J max W (respond_state J c stack id state).1
  unfolding respond_state respond_start respond_completion respond
  respond_state-HasSound c stack id completed s = s
  respond_state-HasSound c stack id failed s = s
  respond_state-HasSound c stack id transferring s = s
  respond_state-HasSound c stack id initial s = s

  xfer_get_slot-HasSound :
      (c : Connector J) (stack id : Text) (idx : ℤ)
      → HasSound J max W c
      → HasSound J max W (xfer_get_slot J c stack id idx).1
  unfolding xfer_get_slot
  xfer_get_slot-HasSound c stack id (negsuc n) s = s
  xfer_get_slot-HasSound c stack id (pos i) s =
      respond_state-HasSound c stack id (Xfer.get_state c.xfer (pos i)) s

  pub xfer_get_id-HasSound :
      (c : Connector J) (stack id : Text)
      → HasSound J max W c
      → HasSound J max W (xfer_get_id J c stack id).1
  unfolding xfer_get_id
  xfer_get_id-HasSound c stack [] s = s
  xfer_get_id-HasSound c stack (x ∷ t) s =
      xfer_get_slot-HasSound c stack (x ∷ t) (find_by_pid c.xfer (some (x ∷ t))) s
