-- ===== src/Handlers/Live.antt =====
-- How a transfer comes to run: an offer (components/dsp_neg/dsp_neg.c), its agreement, and the request
-- to start (components/dsp_xfer/dsp_xfer.c).
use dsp_embedded.Prelude.{
  ℕ, ◌<◌, ◌≡◌, ◌≢◌, refl, ap, sym, subst, ◌∙◌, true, false, Option, none, some, List, ◌∷◌, arith,
  get_elem?, length, find_index, take_of_le, Text, ℤ, pos, negsuc,
}
use dsp_embedded.Json.{CJson, string_value, is_filled, get_string}
use dsp_embedded.Jsonld.{
  field_context, field_type, field_process_id, provider_id, type_catalog_request,
  type_transfer_request,
}
use dsp_embedded.Msg.{MsgErr, validate_catalog_request}
use dsp_embedded.Msg.Verdict.{
  Verdict, no_context, other_type, lacks_field, valid, catalog_request, transfer_request,
  has_fields, validate, validate-Verdict,
}
use dsp_embedded.Neg
use dsp_embedded.Neg.{NegState, Negotiations, offered, agreed, has_cpid, find_by_cpid, sm_next}
use dsp_embedded.Neg.Slots
use dsp_embedded.Neg.Stands.{
  Stands, StandsNew, Creates-StandsNew, Stands-find_by_cpid, Stands-get_state, apply-Stands,
}
use dsp_embedded.Xfer
use dsp_embedded.Xfer.{XferEntry, Transfers, transferring}
use dsp_embedded.Xfer.Slots.{TakenBy, Creates-TakenBy, apply-there}
use dsp_embedded.Handlers.{Connector, is_msg_ok, read_pid}
use dsp_embedded.Handlers.Negotiation.{
  respond, respond_event, offers_slot, offers_pid, offers_message, offers_body, agree_state,
  agree_slot, agree_id, is_agreed,
}
use dsp_embedded.Handlers.Transfer.{
  respond_start, start_slot, start_agreed, start_pid, start_message,
}

-- A transfer of the process ID that is under way.
pub record Runs (xs : List XferEntry) (pid : Text) : Type 0 where
  pub place : ℕ
  pub entry : XferEntry
  pub there : get_elem? xs place ≡ some entry
  pub in_use : entry.active ≡ true
  pub same_pid : entry.process_id ≡ pid
  pub under_way : entry.state ≡ transferring

module _ (J : CJson) where
  -- The negotiation of the PID stands in the table, and the transfers are those given.
  pub record Negotiated (c : Connector J) (pid : Text) (s : NegState) (x : Transfers) : Type 0 where
    pub place : ℕ
    pub stands : Stands c.neg pid place s
    pub same_xfer : c.xfer ≡ x

  pub read_pid_lem :
      (msg : J.Node) (pid : Text)
      → string_value J (J.get_item msg field_process_id) ≡ some pid
      → length pid < 64
      → read_pid J msg ≡ pid
  unfolding read_pid get_string
  read_pid_lem msg pid e fits = rw e (ground (arith, fits))

  offers_slot-Negotiated :
      (c : Connector J) (stack pid : Text) (r : ℤ × Negotiations)
      → StandsNew r pid
      → Negotiated (offers_slot J c stack pid r).1 pid offered c.xfer
  unfolding offers_slot respond_event respond sm_next
  offers_slot-Negotiated c stack pid (negsuc n, m) st = absurd st
  offers_slot-Negotiated c stack pid (pos i, m) st = record {
    place = i;
    stands = (apply-Stands Neg.offer st).0;
    same_xfer = refl;
  }

  -- The table has room for a negotiation of a PID that none has.
  abbrev pub HasRoom : Connector J → Text → Type 0
  HasRoom c pid =
      (find_index (has_cpid pid) c.neg.table ≡ none) × (Neg.count_active c.neg ≢ length c.neg.table)

  offers_pid-Negotiated :
      (c : Connector J) (stack : Text) (x : ℕ) (t : Text)
      → HasRoom c (x ∷ t)
      → length (x ∷ t) < 64
      → Negotiated (offers_pid J c stack (x ∷ t)).1 (x ∷ t) offered c.xfer
  unfolding offers_pid
  offers_pid-Negotiated c stack x t room fits =
      offers_slot-Negotiated c stack (x ∷ t) (Neg.create c.neg (some (x ∷ t)) (some provider_id)) (
        Creates-StandsNew (x ∷ t) provider_id room.0 fits room.1
          (Slots.create-Creates c.neg (x ∷ t) provider_id))

  offers_message-Negotiated :
      (c : Connector J) (stack : Text) (x : ℕ) (t : Text) (msg : J.Node)
      (r : Option J.Node × J.Heap)
      → r.0 ≡ some msg
      → read_pid J msg ≡ x ∷ t
      → HasRoom c (x ∷ t)
      → length (x ∷ t) < 64
      → Negotiated (offers_message J c stack r).1 (x ∷ t) offered c.xfer
  unfolding offers_message
  offers_message-Negotiated c stack x t msg (none, h) parsed pid room fits = absurd (cc)
  offers_message-Negotiated c stack x t msg (some m, h) parsed pid room fits =
      let same : m ≡ msg = ground (arith, parsed) in
      let c' : Connector J = record c { heap = J.delete h m } in
      subst (λ p. Negotiated (offers_pid J c' stack p).1 (x ∷ t) offered c.xfer)
        (sym (ap (read_pid J) same ∙ pid)) (offers_pid-Negotiated c' stack x t room fits)

  -- A message of another type is no catalogue request.
  other_type-refused :
      (n : J.Node) (e : MsgErr)
      → string_value J (J.get_item n field_type) ≢ some type_catalog_request
      → Verdict J catalog_request (some n) e
      → is_msg_ok e ≡ false
  other_type-refused n e d (no_context k c) = refl
  other_type-refused n e d (other_type k c u) = refl
  other_type-refused n e d (lacks_field k c u f) = refl
  other_type-refused n e d (valid k c u f) = absurd (d u)

  pub offers_body-Negotiated :
      (c : Connector J) (stack : Text) (x : ℕ) (t body : Text) (msg : J.Node)
      → ((h : J.Heap) → (J.parse h body).0 ≡ some msg)
      → string_value J (J.get_item msg field_type) ≢ some type_catalog_request
      → read_pid J msg ≡ x ∷ t
      → HasRoom c (x ∷ t)
      → length (x ∷ t) < 64
      → Negotiated (offers_body J c stack (some body)).1 (x ∷ t) offered c.xfer
  unfolding offers_body validate
  offers_body-Negotiated c stack x t body msg parses other pid room fits =
      let v = validate_catalog_request J c.heap (some body) in
      let verdict : Verdict J catalog_request (some msg) v.0 =
        subst (λ r. Verdict J catalog_request r v.0) (parses c.heap)
          (validate-Verdict J catalog_request c.heap body) in
      rw (other_type-refused msg v.0 other verdict) (
        offers_message-Negotiated (record c { heap = v.1 }) stack x t msg (J.parse v.1 body)
          (parses v.1) pid room fits)

  agree_state_done :
      (c : Connector J) (stack id : Text) (r : NegState × Negotiations)
      → r.0 ≡ agreed
      → ((agree_state J c stack id r).1.neg ≡ r.1) × ((agree_state J c stack id r).1.xfer ≡ c.xfer)
  unfolding agree_state respond_event respond
  agree_state_done c stack id (s, m) e =
      let yes_agreed : is_agreed s ≡ true = ap is_agreed e in rw yes_agreed (refl, refl)

  pub agree_id-Negotiated :
      (c : Connector J) (stack : Text) (x : ℕ) (t : Text) (y : Transfers)
      → Negotiated c (x ∷ t) offered y
      → Negotiated (agree_id J c stack (x ∷ t)).1 (x ∷ t) agreed y
  unfolding agree_id agree_slot sm_next
  agree_id-Negotiated c stack x t y n =
      let a = apply-Stands Neg.agree n.stands in
      let r = Neg.apply c.neg (pos n.place) Neg.agree in
      let done = agree_state_done c stack (x ∷ t) r a.1 in
      rw (Stands-find_by_cpid n.stands) (record {
        place = n.place;
        stands = subst (λ m. Stands m (x ∷ t) n.place agreed) (sym done.0) a.0;
        same_xfer = done.1 ∙ n.same_xfer;
      })

  start_slot-Runs :
      (c : Connector J) (stack pid : Text) (r : ℤ × Transfers)
      → TakenBy r (Xfer.fresh_entry pid)
      → length pid < 64
      → Runs (start_slot J c stack pid r).1.xfer.table pid
  unfolding start_slot respond_start respond Xfer.sm_next
  start_slot-Runs c stack pid (negsuc n, x) at fits = absurd at
  start_slot-Runs c stack pid (pos i, x) at fits = record {
    place = i;
    entry = record (Xfer.fresh_entry pid) { state = transferring };
    there = apply-there x i Xfer.start (Xfer.fresh_entry pid) at refl;
    in_use = refl;
    same_pid = take_of_le 63 pid (omega (arith, fits));
    under_way = refl;
  }

  start_pid-Runs :
      (c : Connector J) (stack : Text) (x : ℕ) (t : Text) (y : Transfers)
      → Negotiated c (x ∷ t) agreed y
      → Xfer.count_active y ≢ length y.table
      → length (x ∷ t) < 64
      → Runs (start_pid J c stack (x ∷ t)).1.xfer.table (x ∷ t)
  unfolding start_pid start_agreed
  start_pid-Runs c stack x t y n room fits =
      let state : is_agreed (Neg.get_state c.neg (pos n.place)) ≡ true =
        ap is_agreed (Stands-get_state n.stands) in
      let room' : Xfer.count_active c.xfer ≢ length c.xfer.table =
        subst (λ z. Xfer.count_active z ≢ length z.table) (sym n.same_xfer) room in
      rw (Stands-find_by_cpid n.stands, state)
        (start_slot-Runs c stack (x ∷ t) (Xfer.create c.xfer (some (x ∷ t)))
          (Creates-TakenBy room' (Xfer.Slots.create-Creates c.xfer (x ∷ t))) fits)

  pub start_message-Runs :
      (c : Connector J) (stack : Text) (x : ℕ) (t : Text) (y : Transfers) (msg : J.Node)
      (r : Option J.Node × J.Heap)
      → r.0 ≡ some msg
      → read_pid J msg ≡ x ∷ t
      → Negotiated c (x ∷ t) agreed y
      → Xfer.count_active y ≢ length y.table
      → length (x ∷ t) < 64
      → Runs (start_message J c stack r).1.xfer.table (x ∷ t)
  unfolding start_message
  start_message-Runs c stack x t y msg (none, h) parsed pid n room fits = absurd (cc)
  start_message-Runs c stack x t y msg (some m, h) parsed pid n room fits =
      let same : m ≡ msg = ground (arith, parsed) in
      let c' : Connector J = record c { heap = J.delete h m } in
      let n' : Negotiated c' (x ∷ t) agreed y = record {
        place = n.place;
        stands = n.stands;
        same_xfer = n.same_xfer;
      } in
      subst (λ p. Runs (start_pid J c' stack p).1.xfer.table (x ∷ t))
        (sym (ap (read_pid J) same ∙ pid)) (start_pid-Runs c' stack x t y n' room fits)

  -- A message with all that the validator asks for is accepted.
  pub valid-accepted :
      (n : J.Node) (e : MsgErr)
      → is_filled J (string_value J (J.get_item n field_context)) ≡ true
      → string_value J (J.get_item n field_type) ≡ some type_transfer_request
      → has_fields J transfer_request n ≡ true
      → Verdict J transfer_request (some n) e
      → is_msg_ok e ≡ true
  valid-accepted n e c u f (no_context k d) = absurd (ground (arith, c, d))
  valid-accepted n e c u f (other_type k d v) = absurd (v u)
  valid-accepted n e c u f (lacks_field k d v g) = absurd (ground (arith, f, g))
  valid-accepted n e c u f (valid k d v g) = refl
