-- ===== src/Lib.antt =====
-- Verification of the Kafka REST proxy: from an HTTP request's path and body to records for Kafka,
-- through admission control and rate limits, to the results a caller gets.
--
-- A request's path is read (Api.Routes), its body is decoded to records (Api.Payload, Api.Decode),
-- its cost is taken from token buckets (RateLimit), and Produce (Franz) hands the records to the
-- Kafka client after the admission controller (Limits) has room for them. The client calls back
-- once for each record; Produce returns when all callbacks have run or the caller gave up, and what
-- was admitted is released exactly once.
--
-- Where things are, file by file; the paths are the repository's:
--   Limits: internal/limits/admission.go, Admission with TryAcquire, Release and Snapshot as
--     functions on the state, since the mutex makes each call one step.
--   RateLimit: internal/ratelimit/ratelimit.go, Limiter.Allow with the clock's reading as an argument.
--   Producer: internal/producer/producer.go, Record, Result and SizeBytes.
--   Franz.Partitions: internal/producer/franz/partitioner.go.
--   Franz.Requests: internal/producer/franz/producer.go, requestState and what Produce does before it
--     waits; Franz.System has Produce, the callbacks, cancellation and Close as a step relation over all
--     requests, with every interleaving.
--   Franz.Options: New of the same file with the settings of the client (acks, compression, TLS, SASL).
--   Api.Routes: produceTargetFromPath of internal/api/handler.go and v3ProduceTargetFromPath of
--     internal/api/v3.go.
--   Api.Payload, Api.Decode: internal/api/types.go up to decodeProduceRequestWithSchema.
--   Api.Respond: appendProduceResponse and countResultStatus of internal/api/types.go.
--   Api.Access: the topics and tokens of NewHandlerWithSchema, topicAllowed and authMiddleware of
--     internal/api/handler.go.
--   Api.Media, Api.Errors: internal/api/media.go and internal/api/errors.go.
--   Api.Handler: the configuration and construction of the handler of internal/api/handler.go;
--     Api.Handler.World has what requests share, and Api.Handler.TopicProduce is handleTopicProduce.
--   Metrics: internal/metrics/metrics.go, the observations as changes of counters.
--   Api.Batch: validateBatchID and the sorting of the entries in handleV3BatchBody of
--     internal/api/v3.go.
--   Api.V3: internal/api/v3.go. A record becomes an envelope in Api.V3 and a result a response in
--     Api.V3.Responses; Api.V3.BatchBody is handleV3BatchBody, Api.V3.Stream handleV3RecordStream with
--     a step for each record that the decoder reads, and Api.V3.Produce handleV3Produce.
--   Config: internal/config/config.go, LoadFromEnv; Config.Served has the configuration that run of
--     cmd/kafka-rest-proxy-go/main.go gives to the handler.
--   Schema: internal/schema/types.go. Schema.Encoder and Schema.Subjects:
--     internal/schema/encoder.go. Schema.Kinds and Schema.Memory: the names of schema types and
--     MemoryRegistry of internal/schema/registry.go; Schema.Http: HTTPRegistry
--     of the same file.
--   Go: the parts of the standard library that the code's meaning rests on (strings, net/url, strconv),
--     written after its documentation.
--   Common: lists, int64 and int with wrap-around, and results that may be errors.
--
-- Numbers: int64 is an integer with wrap-around at 2^63 (Common.Int). The theorems on admission that
-- exclude it ask that a batch holds less than 2^62, which any body the proxy reads does. Loops are
-- structural recursion; the digits of a number are written on fuel, and one step more than the number
-- is enough fuel for it.
--
-- Parameters: the operations of float64 with the facts of IEEE 754 that the bucket needs; what encoding/json
-- and encoding/base64 accept; json.Unmarshal into the request; how strconv quotes a text; the encoders of
-- Avro, JSON Schema and Protobuf, and the registry that the encoder asks; mime.ParseMediaType;
-- path.Join and the client of net/http that HTTPRegistry has; the files and certificates of
-- TLS; os.Getenv, strconv.ParseFloat and time.ParseDuration; for the
-- handlers, the producer, which answers a call and goes to another state; for Produce itself, the Kafka client, whose callbacks
-- are steps of the environment; the fallback partitioner of the client.
--
-- Not modelled: the handlers for health and readiness; the export of metrics, logging, the pool of records, the start of the
-- server, and the commands under cmd/, which are mostly I/O.
mod Common
pub mod Go
pub mod Limits
pub mod RateLimit
pub mod Producer
pub mod Franz
pub mod Schema
pub mod Metrics
pub mod Api
pub mod Config
