-- ===== src/Lib.antt =====
-- MU5250-OpenUI: an agent that runs on a 5G router (agent), a helper and a library for eSIM profiles
-- (esim-helper, euicc), a desktop installer (installer) and a web interface (web-app). The web
-- interface calls the agent's HTTP handlers; these authenticate the call and change the router through
-- ubus, the message bus of its firmware. eSIM operations go from the agent to the helper, which talks
-- to the card in the DER elements of the euicc crate. Modelled are the parts that keep state or whose
-- failure locks the user out:
--
--   euicc/src/der.rs            Euicc.Der: tag-length-value elements. parse, iter, find, find_any,
--                               Node::encode, to_u64, from_u64, bit_names.
--   euicc/src/hex.rs            Euicc.Hex: encode, decode, iccid_to_bcd, bcd_to_iccid.
--   euicc/src/lib.rs            Euicc.Session: a session over the trait Apdu. open, the loop of
--                               transmit_collect, command, request, result_code, drop.
--   euicc/src/b64.rs            Euicc.B64: decode.
--   euicc/src/es10c.rs          Euicc.Es10c: the profile list, the calls on profiles, result_reason.
--   euicc/src/es10b.rs          Euicc.Es10b: the notifications of the card.
--   euicc/src/es8p.rs           Euicc.Es8p: the metadata of an offered profile.
--   euicc/src/rsp.rs            Euicc.Rsp: the values that the server and the card pass to each other.
--   euicc/src/download.rs       Euicc.Download: the requests of a download (Requests), the segments of a
--                               package (Segments), the card's answer to one (Installation), and the
--                               calls (Calls).
--   euicc/src/es9p.rs           Euicc.Es9p: the calls of the operator's server (Calls) over the trait Http
--                               (Exchange), the JSON they print (Strings) and parse (Parser), and the
--                               statuses of their failures (Status).
--   euicc/src/info2.rs          Euicc.Info2: the information of the card.
--   esim-helper/src/download.rs  Helper.Download: a whole download. DownloadCtl and the records Card, Server and
--                               Control that it runs on (Interface), Stop and Ending (Stops), the parts
--                               of steps (Steps), steps and download (Procedure); Parties fills Card and
--                               Server with the calls of Euicc.Download and Euicc.Es9p. ActivationCode
--                               has parse_activation_code and valid_confirmation_code.
--   esim-helper/src/https.rs    Helper.Address: valid_address.
--   agent/src/auth.rs           Agent.Auth: credentials, lockout by client address, sessions.
--                               login_password, login_pin, set_password, set_pin, validate.
--   agent/src/charge_policy.rs  Agent.ChargePolicy: the charge limit over the trait Charger. new,
--                               update, reconcile; Hardware.set_stopped in its child Hardware.
--   agent/src/lan.rs            Agent.Lan: confirmed LAN changes over the trait Backend, with a saved
--                               recovery record. recover, begin, apply_pending, expire,
--                               rollback_locked, confirm, status. Agent.Lan.Settings has the settings.
--   agent/src/router.rs         Agent.Router: validate_lan_settings, which Agent.Lan calls.
--   agent/src/uci_transaction.rs  Agent.UciTransaction: execute and apply (apply_changes) over its
--                               trait Backend, with the restoration after a failed commit.
--   agent/src/validate.rs       Agent.Validate: validate_ubus_input, for any type of JSON values with the
--                               view that a match gives.
--   agent/src/cache.rs          Agent.Cache: Cached and Observed, with the clock's readings as arguments.
--   agent/src/event_bus.rs      Agent.EventBus: subscribe, read_events, dispatch.
--   agent/src/csv_utils.rs      Agent.CsvUtils: csv_escape and device_datetime.
--
-- A function keeps its name. A method takes the state of its object, and the world behind a trait as a
-- value of any type W, and returns both; the parts of a method between two calls of a trait are
-- functions of their own. A trait is a record of functions, Charger, Backend and Apdu, and what the code
-- relies on of an implementation is a record of named hypotheses, IsFaithful, IsUci and, for a card that
-- keeps to the protocol, IsCard. The calls of Euicc.Session and of the files above it are written as do
-- blocks: ? is the bind of Outcome, which ends at the first error. An object is guarded
-- by one lock that its methods hold from start to end (in auth.rs by locks that are modelled as one),
-- so that a run of several threads is a sequence of calls; these are the relations Step and Reach. There
-- are two exceptions: recover in lan.rs takes the lock only for its last step, but runs before the listener
-- starts, and read_events in event_bus.rs takes it for each dispatch, while the receivers take from their
-- channels at any time; what they do is an argument there, the Schedule.
--
-- Numbers: u32 and u64 sums are taken modulo their width where the code lets them wrap, subtractions
-- that saturate are subtractions of natural numbers, and a usize has 64 bits. Clocks are arguments: an
-- Instant is in nanoseconds, epoch_secs in seconds. Bytes and texts are lists of numbers, a text being its
-- bytes but for an activation code, which is its characters; a HashMap is a list of entries with each
-- key once. Random bytes are arguments, and SHA-256, from a crate, is a parameter, as is the encoder of
-- the crate base64; from_utf8_lossy is modelled in Base.Utf8, split and rsplit_once in Base.Split. Error
-- texts are constructors with the texts that they quote.
--
-- Fuel: iter runs for as many rounds as the buffer has bytes, which is enough since an element has at
-- least two; the big-endian bytes of a length are 4 and of a u64 are 8. The blocks of a command are at
-- most as many as its bytes. The loop that follows 61xx goes on for as long as the card says so: its
-- fuel is an argument, running out of it is the outcome unfinished, and two more than the length of the
-- answer are enough for a card that keeps to the protocol. The loops over control lines of a download have
-- fuel too: they end when the lines or the time do, and Helper.Download.Bounded is the world in which they
-- do; the fuel has to exceed the number of lines and the milliseconds of the preview. The digits of a u64 are at most 20. The check
-- of nested JSON values ends at depth 9, where the code refuses them. All other loops recurse on their
-- data or on the constant of their for loop. The parser of JSON has a turn for each byte and one more.
--
-- Not modelled: sockets, files, processes, ubus itself, the JSON of the agent and its HTTP server, since
-- they are input and output or crates; the web interface and the scripts, since they are not the core.
-- The eSIM jobs of the agent, its logs and system services, the process of the helper, its QRTR socket and
-- HTTPS client, the process runner and the installer are left, since most of their code orders calls of
-- processes, files and sockets.
pub mod Base
pub mod Euicc
pub mod Helper
pub mod Agent
