-- ===== src/Lib.antt =====
-- dsp_embedded is a Dataspace Protocol connector for the ESP32-S3: a provider that negotiates
-- contracts and starts data transfers over HTTP on one core while the other core acquires sensor
-- samples. This library models the firmware from the state machines and tables up to the HTTP
-- handlers and the two tasks. Paths are from the root of the repository.
--
-- * Neg.antt and Neg/: components/dsp_neg. `sm_next` is dsp_neg_sm_next; `init`, `deinit`,
--   `create`, `apply`, `get_state`, `get_consumer_pid`, `get_provider_pid`, `find_by_cpid`,
--   `count_active`, `is_active` and `load_slot` are the functions of these names with the prefix
--   dsp_neg_. The static table is a list in the record Negotiations; its length stands for
--   DSP_NEG_MAX. Neg/Ledger.antt is the abstract view, a list of negotiations without slots, that
--   Neg/Refine.antt relates the table to; Neg/Lifecycle.antt and Neg/Lives.antt are about
--   histories of calls.
-- * Xfer.antt and Xfer/: components/dsp_xfer, in the same manner. The calls of the notification
--   hook are a log.
-- * Shared.antt and Shared/: components/dsp_shared. `ring_push`, `ring_pop` and `ring_drain` are
--   the critical sections of dsp_ring_buf_push, dsp_ring_buf_pop and dsp_ring_buf_drain; since
--   each is one step under the mutex, an interleaving of the two cores is a list of calls.
--   Shared/Queue.antt is the bounded queue that the ring stands for.
-- * Rtc.antt and Rtc/: components/dsp_rtc_state, the copy of the tables of dsp_neg and dsp_xfer
--   in the memory that survives deep sleep. It reads and fills those tables through their
--   functions.
-- * Jwt.antt and Jwt/: components/dsp_jwt. `split`, `base64url_decode`, `parse_alg`, `parse_exp`,
--   `validate_es256` and `validate_rs256` are the functions with the prefix dsp_jwt_,
--   `check_structure` is jwt_check_structure, and the record Crypto is what they call of mbedTLS.
-- * Wifi.antt and Wifi/: components/dsp_wifi, its state machine, transitions, event handler and
--   timer. The calls of the driver and of the callback are a log.
-- * Dht20.antt and Dht20/: components/dsp_dht20. The record I2c is the bus driver and the delay;
--   `poll` is the busy loop of dsp_dht20_read on fuel: it starts with 85 ms waited, adds 5 ms a
--   round and gives up at 1000 ms, so 184 rounds are enough.
-- * Http.antt and Http/: components/dsp_http. `start`, `stop` and `register_handler` are the
--   functions with the prefix dsp_http_; the record Httpd is the server of ESP-IDF.
-- * Endpoints.antt and Endpoints/: the functions of dsp_neg, dsp_xfer and dsp_catalog that
--   register their endpoints with dsp_http.
-- * Psk.antt and Psk/: components/dsp_psk, with mbedTLS as a parameter.
-- * Json.antt and Json/: components/dsp_json/dsp_json.c. The record CJson is the part of cJSON
--   that the program calls, with its heap as a value. Json/Accounts.antt and Json/Documents.antt
--   hold the two records of what its manual documents, Accounting (what a call allocates and
--   frees) and Documented (what a tree holds and what a printed text parses to); theorems that
--   need them take them as an argument. Json/Model.antt is a small library that has both, at
--   which they are applied. Jsonld.antt: the constants of components/dsp_jsonld and
--   components/dsp_config.
-- * Msg.antt and Msg/: components/dsp_msg, the validators of incoming messages. Build.antt and
--   Build/: components/dsp_build, the builders of outgoing ones; the string that stands in the
--   output buffer is an option that is passed on.
-- * Handlers.antt and Handlers/: the HTTP handlers of components/dsp_neg, dsp_xfer and
--   dsp_catalog, over the tables of Neg.antt and Xfer.antt and the heap of cJSON.
--   Handlers/Serve.antt hands a list of requests to them, one after the other, as the server does
--   in its one task. The `stack` of a request is what stands in the response buffer before a
--   builder writes to it.
-- * Power.antt and Power/: components/dsp_power, entering deep sleep and handling a wakeup, over
--   Wifi.antt, Http.antt, Rtc.antt and the tables.
-- * Application.antt and Application/: components/dsp_application, the acquisition task over
--   Dht20.antt and Shared.antt; a cycle polls the sensor on 184 rounds of fuel.
-- * Identity.antt and Daps.antt: components/dsp_identity and components/dsp_daps. Tls.antt and
--   Tls/: components/dsp_mbedtls, the server context, of which Protocol.antt keeps only whether
--   it is set up.
-- * Protocol.antt and Protocol/: components/dsp_protocol, which brings up and takes down the
--   identity, the tables, the catalogue and the server.
-- * Prelude.antt, Prelude/ and Esp.antt: the names shared by all modules, lemmas on lists and
--   loops, C strings, and the error codes of ESP-IDF that the code tests.
--
-- How C is modelled. A static variable is a field of a record that every operation takes and
-- returns. A pointer that may be NULL is an option. A string is the list of its bytes without the
-- NUL; a `char[64]` keeps the first 63 of what is copied to it. An `int` index is an integer over
-- the native naturals, and an unsigned counter wraps modulo 2^32. A loop over a table is a
-- recursion over the list, and needs no fuel; only the busy loop of dsp_dht20 has fuel, and the
-- parser of the concrete tree library in Json/Model.antt. The checksum works on the bytes of the
-- image as a little-endian machine lays them out.
--
-- Not modelled: the vendored cJSON and mbedTLS, which are parameters; the cipher suites and
-- versions that dsp_tls sets; the heap reports of components/dsp_mem; main/main.c, which starts
-- the parts in order; of dsp_wifi the set-up of the driver and the stored credentials; of
-- dsp_power the set-up of the watchdog and of light sleep; the conversion of a sensor reading to
-- float, which is a parameter of the acquisition task; the watchdog and the delays of the two
-- tasks. The variants that the sources compile for the host are stubs and are left out. Tests,
-- tools and build files are not code of the firmware.
pub mod Prelude
pub mod Esp
pub mod Json
pub mod Jsonld
pub mod Msg
pub mod Build
pub mod Neg
pub mod Xfer
pub mod Shared
pub mod Rtc
pub mod Jwt
pub mod Wifi
pub mod Dht20
pub mod Http
pub mod Psk
pub mod Endpoints
pub mod Handlers
pub mod Power
pub mod Application
pub mod Identity
pub mod Daps
pub mod Protocol
pub mod Tls
