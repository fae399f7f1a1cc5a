-- ===== src/Lib.antt =====
-- Verdikt holds providers of paid HTTP services to the SLA that they publish. An agent calls a
-- service through the proxy (proxy/src); a paid call is handed to a confidential workflow, which
-- makes the call, judges the response with the SLA engine (packages/sla, through cre/lib) and
-- writes a verdict to a registry on chain; an hourly workflow turns verdicts into reputation.
--
-- The modules stand for these parts.
-- - Base, Json: shared helpers; strings as lists of UTF-16 units, JSON values, a result type for
--   functions that throw, association lists for `Map` and for objects. A JavaScript number is
--   an integer over a power of two, an infinity or NaN; arithmetic does not round, but for the
--   chain id of a payment, which is read to the nearest double.
-- - Sla: packages/sla. JsonSchema is jsonschema.js (Assert is `assertSchema`, Validate is
--   `validate`), MetaSchema is schema.json, Observation, Document and Evaluate are index.js,
--   Clauses is clauses.js and Aggregate is aggregate.js. Where a message quotes or renders a
--   value, the model keeps the value.
-- - Cre: cre/lib. LogRange is log-range.js, RequestBody is http-request.js with `bodyToHex` of
--   proxy/src/http.js, Judge is judge.js, Reputation is reputation.js, RelayPayload is
--   relay-payload.js.
-- - Proxy: proxy/src. Address and Upstream are http.js, Route and Router are the parts of
--   router.js from the routing to the decision to relay or to verify, with `checkOwnership` of
--   challenge.js; Own is the proxy's own routes, `proxyRoute`, `handleSlaRead` and `passthrough`;
--   Paid is the paid leg, `verified`, with `decodeChallenge` of challenge.js and `buildEnvelope` of
--   evidence.js, Paid/Sent what an agent reads of its headers, and HeaderText its header texts. Discovery is discovery.js. Evidence is the store
--   of evidence.js and the Durable Object of evidence-do.js, Disclosure is `authorizeDisclosure`
--   with the evidence read of router.js. Pending is the registry of verification.js and the Durable
--   Object of pending-do.js, Callback is the workflow client and `parseWorkflowResult` of
--   verification.js with `handleCallback` of router.js.
-- - Sdk: packages/sdk. Registry is registry.js, Payment is payment.js, Scan is the log scan of
--   arc.js.
-- - Web: web/src. Amounts and Drafts are parts of forms/sla-draft.js, Format is the amounts and
--   bands of format.js; Decimals reads back the text
--   of a number.
--
-- How they meet: Router decides that a request is paid; Paid decodes the payment with Payment (in
-- Paid/Refund), asks the workflow and caches evidence; the workflow client of Callback waits in the
-- registry of Pending until the callback, a route of Own, settles it; Own also reads the evidence
-- and lists the marketplace of Discovery.
--
-- Parameters: `JSON.parse`, `JSON.stringify`, base64 and UTF-8, `Number`, `BigInt` and
-- `toUpperCase` of a text, the platform's URL parser, keccak256, the functions of viem that hash,
-- recover, encode and decode, the reader of a payment's chain, the network, the name service and
-- the registry reader. So are the store of evidence of a paid call, which may throw, whether
-- `new Response` takes a status, headers and a body, and what a reader gets of an object of headers,
-- whose `Headers` are taken to fold the case of names, to trim values and to join those of one name.
-- Time is an argument, and what happens while a caller waits is a sequence of
-- events.
--
-- Recursion that is not structural runs on fuel: the schema checker and the validator on the size
-- of the schema, of which each recursive call takes a smaller part; the splitter of block ranges
-- on the number of blocks and one more, of which each chunk covers at least one. The
-- trimming of a payload has the eight attempts that the source gives it. The search for the id of a
-- clause has as many steps as there are siblings, proved to be enough.
--
-- Not modelled: the Solidity contracts, the GenLayer claim judge, the pages of the web interface,
-- the scripts and the runner, and the TypeScript that binds cre/lib to the CRE runtime, since they
-- are in other languages or are input and output. Of the JavaScript, the ENS client, the rest of
-- the Arc client, the configuration and the tokens of the proxy are left out, and of
-- forms/sla-draft.js the tree of a schema and the document of a draft.
pub mod Base
pub mod Cre
pub mod Json
pub mod Proxy
pub mod Sdk
pub mod Sla
pub mod Web
