-- ===== src/Protocol/Lifecycle.antt =====
-- Start and stop of the protocol stack (components/dsp_protocol/dsp_protocol.c).
use dsp_embedded.Prelude.{
  ℕ, ◌+◌, ◌≡◌, refl, ap, ◌∙◌, inl, inr, Bool, true, false, not, ◌||◌, Option, none, arith,
  if◌then◌else◌, ◌==◌, length, Bool-cases,
}
use dsp_embedded.Esp.{EspErr, ok, invalid_arg, invalid_state}
use dsp_embedded.Shared.{Shared}
use dsp_embedded.Identity
use dsp_embedded.Identity.{Identity, Blobs, get_cert, get_key}
use dsp_embedded.Neg
use dsp_embedded.Xfer
use dsp_embedded.Endpoints
use dsp_embedded.Http.{Httpd}
use dsp_embedded.Http.Paired.{IsPaired, stopped_server}
use dsp_embedded.Protocol.Paired.{protocol_init-IsPaired}
use dsp_embedded.Protocol.{
  Protocol, Setting, set_ready, bring_up, with_identity, protocol_init, stop,
}

-- Nothing of the stack is up.
pub record IsDown (h : Httpd) (p : Protocol h) : Type 0 where
  pub not_running : p.running ≡ false
  pub no_task : p.task ≡ false
  pub unshared : p.sh ≡ none
  pub unprovisioned : p.identity.provisioned ≡ false
  pub no_tls : p.tls ≡ false
  pub no_catalog : p.catalog ≡ false
  pub no_negotiations : p.neg.initialized ≡ false
  pub no_transfers : p.xfer.initialized ≡ false
  pub no_server : p.http.server ≡ none
  pub not_serving : p.http.running ≡ false

-- All of it is up, and the other core is told so.
pub record IsUp (h : Httpd) (sh : Option Shared) (p : Protocol h) : Type 0 where
  pub runs : p.running ≡ true
  pub told : p.sh ≡ set_ready 1 sh
  pub provisioned : p.identity.provisioned ≡ true
  pub loaded : p.identity.loaded ≡ true
  pub has_catalog : p.catalog ≡ true
  pub has_negotiations : p.neg.initialized ≡ true
  pub has_transfers : p.xfer.initialized ≡ true

module _ (h : Httpd) where
  -- What `protocol_init` does.
  pub data Outcome (s : Setting) (p : Protocol h) : EspErr × Protocol h → Type 0 where
    no_files :
        (length s.blobs.cert == 0) || (length s.blobs.key == 0) ≡ true
        → Outcome s p (invalid_state, p)
    unparsed :
        (length s.blobs.cert == 0) || (length s.blobs.key == 0) ≡ false
        → s.blobs.parses ≡ false
        → Outcome s p (invalid_arg, record p { identity = record p.identity { loaded = false } })
    ready :
        (length s.blobs.cert == 0) || (length s.blobs.key == 0) ≡ false
        → s.blobs.parses ≡ true
        → (q : Protocol h) → IsUp h p.sh q
        → q.identity.chains ≡ p.identity.chains + 1
        → Outcome s p (ok, q)

  neg_init-initialized : (m : Neg.Negotiations) → (Neg.init m).1.initialized ≡ true
  unfolding Neg.init
  neg_init-initialized m = ground arith

  xfer_init-initialized : (x : Xfer.Transfers) → (Xfer.init x).1.initialized ≡ true
  unfolding Xfer.init
  xfer_init-initialized x = ground arith

  identity-no_files :
      (b : Blobs) (id : Identity)
      → (length b.cert == 0) || (length b.key == 0) ≡ true
      → Identity.init b id ≡ (invalid_state, id)
  unfolding Identity.init
  identity-no_files b id e = rw e refl

  identity-files :
      (b : Blobs) (id : Identity) (parsed : Bool)
      → (length b.cert == 0) || (length b.key == 0) ≡ false
      → b.parses ≡ parsed
      → Identity.init b id ≡ (
          if not parsed
          then (invalid_arg, record id { loaded = false })
          else (ok, record { provisioned = true; loaded = true; chains = id.chains + 1 }))
  unfolding Identity.init
  identity-files b id parsed e f = simp (e, f)

  bring_up-IsUp :
      (s : Setting) (p : Protocol h)
      → p.identity.provisioned ≡ true
      → p.identity.loaded ≡ true
      → IsUp h p.sh (bring_up h s p).1
  unfolding bring_up Endpoints.catalog_init
  bring_up-IsUp s p e l = record {
    runs = refl;
    told = refl;
    provisioned = e;
    loaded = l;
    has_catalog = refl;
    has_negotiations = neg_init-initialized p.neg;
    has_transfers = xfer_init-initialized p.xfer;
  }

  -- `protocol_init` fails if a file is empty or the certificate is not parsed, and changes nothing
  -- then, but that a certificate that is not parsed leaves none loaded; otherwise it returns `ESP_OK`,
  -- whatever TLS and the server answer, with the identity, the catalogue, the negotiations and the
  -- transfers initialised, one more certificate chain held, and the ready flag set for the other core.
  pub protocol_init-Outcome : (s : Setting) (p : Protocol h) → Outcome s p (protocol_init h s p)
  unfolding protocol_init with_identity bring_up
  protocol_init-Outcome s p =
      elim (Bool-cases ((length s.blobs.cert == 0) || (length s.blobs.key == 0))) [
        | inl e ↦ rw (identity-no_files s.blobs p.identity e) (no_files e)
        | inr e ↦ elim (Bool-cases s.blobs.parses) [
          | inr f ↦ rw (identity-files s.blobs p.identity false e f) (unparsed e f)
          | inl f ↦
              let p1 : Protocol h = record p {
                identity = record {
                  provisioned = true;
                  loaded = true;
                  chains = p.identity.chains + 1;
                };
              } in
              rw (identity-files s.blobs p.identity true e f)
                (ready e f (bring_up h s p1).1 (bring_up-IsUp s p1 refl refl) refl)
        ]
      ]

  deinit-chains :
      (id : Identity) (n : ℕ)
      → id.provisioned ≡ true
      → id.loaded ≡ true
      → id.chains ≡ n + 1
      → ((Identity.deinit id).provisioned ≡ false) × ((Identity.deinit id).chains ≡ n)
  unfolding Identity.deinit
  deinit-chains id n e l c = ground (arith, e, l, c)

  deinit-idle : (id : Identity) → id.provisioned ≡ false → Identity.deinit id ≡ id
  unfolding Identity.deinit
  deinit-idle id e = ground (arith, e)

  stopped :
      (p : Protocol h)
      → (Identity.deinit p.identity).provisioned ≡ false
      → IsPaired h p.http
      → IsDown h (stop h p).1
  unfolding stop Endpoints.catalog_deinit Neg.deinit Xfer.deinit
  stopped p e i = record {
    not_running = refl;
    no_task = refl;
    unshared = refl;
    unprovisioned = e;
    no_tls = refl;
    no_catalog = refl;
    no_negotiations = refl;
    no_transfers = refl;
    no_server = (stopped_server h p.http i).0;
    not_serving = (stopped_server h p.http i).1;
  }

  outcome-IsDown :
      (s : Setting) (p : Protocol h) (r : EspErr × Protocol h)
      → p.identity.provisioned ≡ false
      → IsPaired h r.1.http
      → Outcome s p r
      → IsDown h (stop h r.1).1 × ((stop h r.1).1.identity.chains ≡ p.identity.chains)
  unfolding stop
  outcome-IsDown s p r e i (no_files f) =
      let same = deinit-idle p.identity e in
      (stopped p (ap (λ i. i.provisioned) same ∙ e) i, ap (λ i. i.chains) same)
  outcome-IsDown s p r e i (unparsed f g) =
      let id : Identity = record p.identity { loaded = false } in
      let same = deinit-idle id e in
      (
        stopped (record p { identity = id }) (ap (λ i. i.provisioned) same ∙ e) i,
        ap (λ i. i.chains) same,
      )
  outcome-IsDown s p r e i (ready f g q up c) =
      let d = deinit-chains q.identity p.identity.chains up.provisioned up.loaded c in
      (stopped q d.0 i, d.1)

  -- Whatever `protocol_init` came to, from a stack whose identity was not loaded and whose HTTP server
  -- runs exactly if there is one, `dsp_protocol_stop` takes the whole stack down, the server included,
  -- and leaves no certificate chain behind.
  pub stop-protocol_init :
      (s : Setting) (p : Protocol h)
      → p.identity.provisioned ≡ false
      → IsPaired h p.http
      → IsDown h (stop h (protocol_init h s p).1).1
        × ((stop h (protocol_init h s p).1).1.identity.chains ≡ p.identity.chains)
  stop-protocol_init s p e i =
      outcome-IsDown s p (protocol_init h s p) e (protocol_init-IsPaired h s p i)
        (protocol_init-Outcome s p)
