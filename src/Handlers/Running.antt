-- ===== src/Handlers/Running.antt =====
-- A whole exchange through the handlers of components/dsp_neg/dsp_neg.c and
-- components/dsp_xfer/dsp_xfer.c.
use dsp_embedded.Prelude.{
  ℕ, ◌<◌, ◌≡◌, ◌≢◌, sym, subst, true, none, some, [], ◌∷◌, ◌++◌, length, Text, codes, take,
  take_of_le, arith,
}
use dsp_embedded.Json.{CJson, string_value, is_filled}
use dsp_embedded.Jsonld.{
  field_context, field_type, field_process_id, type_catalog_request, type_transfer_request,
}
use dsp_embedded.Msg.{validate_transfer_request}
use dsp_embedded.Msg.Verdict.{Verdict, transfer_request, has_fields, validate, validate-Verdict}
use dsp_embedded.Neg.{agreed, offered}
use dsp_embedded.Xfer
use dsp_embedded.Xfer.{Transfers}
use dsp_embedded.Handlers.{Connector, read_pid}
use dsp_embedded.Handlers.Negotiation.{
  offers_body, offers_post_handler, agree_id, agree_post_handler,
}
use dsp_embedded.Handlers.Transfer.{start_body, xfer_start_post_handler}
use dsp_embedded.Handlers.Serve.{Endpoint, Call, offers, agrees, starts, handle, serve}
use dsp_embedded.Handlers.Path.{HasNoSlash, segment_lem}
use dsp_embedded.Handlers.Live.{
  Runs, Negotiated, HasRoom, read_pid_lem, offers_body-Negotiated, agree_id-Negotiated,
  start_message-Runs, valid-accepted,
}

-- A request with a body, of which the server hands out what the buffer has room for, and one for `/negotiations/<pid>/<rest>`.
abbrev pub posted : Endpoint → Text → Text → Call
posted endpoint_ stack_ body = record {
  endpoint = endpoint_;
  req = record { uri = none; recv = λ n. some (take n body) };
  stack = stack_;
}

abbrev pub agreeing : Text → Text → Text → Call
agreeing pid rest stack_ = record {
  endpoint = agrees;
  req = record { uri = some (codes "/negotiations/" ++ (pid ++ (47 ∷ rest))); recv = λ n. none };
  stack = stack_;
}

module _ (J : CJson) where
  start_body-Runs :
      (c : Connector J) (stack : Text) (x : ℕ) (t body : Text) (y : Transfers) (msg : J.Node)
      → ((h : J.Heap) → (J.parse h body).0 ≡ some msg)
      → is_filled J (string_value J (J.get_item msg field_context)) ≡ true
      → string_value J (J.get_item msg field_type) ≡ some type_transfer_request
      → has_fields J transfer_request msg ≡ true
      → read_pid J msg ≡ x ∷ t
      → Negotiated J c (x ∷ t) agreed y
      → Xfer.count_active y ≢ length y.table
      → length (x ∷ t) < 64
      → Runs (start_body J c stack (some body)).1.xfer.table (x ∷ t)
  unfolding start_body validate
  start_body-Runs c stack x t body y msg parses ctx typed fields pid n room fits =
      let v = validate_transfer_request J c.heap (some body) in
      let verdict : Verdict J transfer_request (some msg) v.0 =
        subst (λ r. Verdict J transfer_request r v.0) (parses c.heap)
          (validate-Verdict J transfer_request c.heap body) in
      let n' : Negotiated J (record c { heap = v.1 }) (x ∷ t) agreed y = record {
        place = n.place;
        stands = n.stands;
        same_xfer = n.same_xfer;
      } in
      rw (valid-accepted J msg v.0 ctx typed fields verdict) (
        start_message-Runs J (record c { heap = v.1 }) stack x t y msg (J.parse v.1 body)
          (parses v.1) pid n' room fits)

  agree_post-Negotiated :
      (c : Connector J) (stack : Text) (x : ℕ) (t rest : Text) (y : Transfers)
      → HasNoSlash (x ∷ t)
      → length (x ∷ t) < 64
      → Negotiated J c (x ∷ t) offered y
      → Negotiated J (handle J c agrees stack (agreeing (x ∷ t) rest stack).req).1 (x ∷ t) agreed y
  unfolding handle agree_post_handler
  agree_post-Negotiated c stack x t rest y plain fits n =
      subst (λ id. Negotiated J (agree_id J c stack id).1 (x ∷ t) agreed y)
        (sym (segment_lem (codes "/negotiations/") (x ∷ t) rest 64 plain fits))
        (agree_id-Negotiated J c stack x t y n)

  -- A client gets its transfer: where cJSON parses the bodies and both tables have a free slot, an
  -- offer for a process ID that no negotiation has, its agreement and a well-formed
  -- TransferRequestMessage leave a transfer of that ID in TRANSFERRING. The ID is not empty, has no
  -- `/` and fits its field with its NUL, and both bodies fit the buffer of 1024 bytes with theirs.
  pub serve-Runs :
      (c : Connector J) (x : ℕ) (t rest s1 s2 s3 offer_text start_text : Text)
      (offer_msg start_msg : J.Node)
      → HasNoSlash (x ∷ t)
      → length (x ∷ t) < 64
      → length offer_text < 1024
      → length start_text < 1024
      → HasRoom J c (x ∷ t)
      → Xfer.count_active c.xfer ≢ length c.xfer.table
      → ((h : J.Heap) → (J.parse h offer_text).0 ≡ some offer_msg)
      → ((h : J.Heap) → (J.parse h start_text).0 ≡ some start_msg)
      → string_value J (J.get_item offer_msg field_type) ≢ some type_catalog_request
      → string_value J (J.get_item offer_msg field_process_id) ≡ some (x ∷ t)
      → is_filled J (string_value J (J.get_item start_msg field_context)) ≡ true
      → string_value J (J.get_item start_msg field_type) ≡ some type_transfer_request
      → has_fields J transfer_request start_msg ≡ true
      → string_value J (J.get_item start_msg field_process_id) ≡ some (x ∷ t)
      → Runs
          (serve J c (
            posted offers s1 offer_text
            ∷ agreeing (x ∷ t) rest s2
            ∷ posted starts s3 start_text
            ∷ [])).xfer.table
          (x ∷ t)
  unfolding serve handle offers_post_handler xfer_start_post_handler
  serve-Runs c x t rest s1 s2 s3 offer_text start_text offer_msg start_msg plain fits short1 short2
        room free p1 p2 other pid1 ctx typed fields pid2 =
      let r1 = handle J c offers s1 (posted offers s1 offer_text).req in
      let n1 : Negotiated J r1.1 (x ∷ t) offered c.xfer =
        subst (λ b. Negotiated J (offers_body J c s1 (some b)).1 (x ∷ t) offered c.xfer)
          (sym (take_of_le 1023 offer_text (omega (arith, short1))))
          (offers_body-Negotiated J c s1 x t offer_text offer_msg p1 other
            (read_pid_lem J offer_msg (x ∷ t) pid1 fits) room fits) in
      let r2 = handle J r1.1 agrees s2 (agreeing (x ∷ t) rest s2).req in
      let n2 = agree_post-Negotiated r1.1 s2 x t rest c.xfer plain fits n1 in
      subst (λ b. Runs (start_body J r2.1 s3 (some b)).1.xfer.table (x ∷ t))
        (sym (take_of_le 1023 start_text (omega (arith, short2))))
        (start_body-Runs r2.1 s3 x t start_text c.xfer start_msg p2 ctx typed fields
          (read_pid_lem J start_msg (x ∷ t) pid2 fits) n2 free fits)
