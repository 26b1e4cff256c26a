-- ===== src/Handlers/Catalog.antt =====
-- The catalogue and the handlers of components/dsp_catalog/dsp_catalog.c, whose dataset and title
-- components/dsp_config/include/dsp_config.h names.
use dsp_embedded.Prelude.{ℕ, ◌-◌, not, Option, none, some, if◌then◌else◌, Text, codes}
use dsp_embedded.Json.{CJson}
use dsp_embedded.Msg.{validate_catalog_request}
use dsp_embedded.Build.{Built, build_ok, build_catalog}
use dsp_embedded.Handlers.{
  Request, bad_request, server_error, Reply, refused, json, Connector, is_msg_ok, text_of,
}

-- `CONFIG_DSP_CATALOG_DATASET_ID` and `CONFIG_DSP_CATALOG_TITLE`.
abbrev pub dataset_id : Text
dataset_id = codes "urn:uuid:dsp-embedded-sensor-dataset-1"

abbrev pub title : Text
title = codes "DSP Embedded Sensor Catalog"

-- `DSP_CATALOG_JSON_BUF_SIZE`.
abbrev pub catalog_buf_size : ℕ
catalog_buf_size = 512

module _ (J : CJson) where
  unfoldable pub catalog_get_json : J.Heap → Option Text → ℕ → Built J
  catalog_get_json h out cap = build_catalog J h out cap (some dataset_id) (some title)

  -- Both handlers send the catalogue, or an error if it was not built.
  unfoldable pub respond_catalog : Connector J → Built J → Reply × Connector J
  respond_catalog c (build_ok, resp, h) = (json none (text_of resp), record c { heap = h })
  respond_catalog c (rc, resp, h) =
      (refused server_error (codes "catalog error"), record c { heap = h })

  unfoldable pub catalog_get_handler : Connector J → Text → Request → Reply × Connector J
  catalog_get_handler c stack req =
      respond_catalog c (catalog_get_json c.heap (some stack) catalog_buf_size)

  unfoldable pub catalog_request_body : Connector J → Text → Option Text → Reply × Connector J
  catalog_request_body c stack none = (refused bad_request (codes "empty body"), c)
  catalog_request_body c stack (some body) =
      let (rc, h) = validate_catalog_request J c.heap (some body) in
      if not (is_msg_ok rc)
      then (refused bad_request (codes "invalid CatalogRequestMessage"), record c { heap = h })
      else respond_catalog (record c { heap = h })
          (catalog_get_json h (some stack) catalog_buf_size)

  unfoldable pub catalog_request_post_handler : Connector J → Text → Request → Reply × Connector J
  catalog_request_post_handler c stack req =
      catalog_request_body c stack (req.recv (catalog_buf_size - 1))
