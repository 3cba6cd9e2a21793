-- ===== src/Api/Media/Accepted.antt =====
-- A client may ask for an answer in the type that it sends.
use kafka_rest_proxy_go.Common.{
  ◌≡◌, refl, true, Option, none, some, [], arith, inl, inr, Bool-cases,
}
use kafka_rest_proxy_go.Producer.{Bytes}
use kafka_rest_proxy_go.Go.Strings.{eq_bytes, trim_space, to_lower}
use kafka_rest_proxy_go.Go.Strings.Split.{split_last, Lacks}
use kafka_rest_proxy_go.Api.Payload.{PayloadFormat}
use kafka_rest_proxy_go.Api.Media.{
  format_of, is_acceptable, format_of_media, parse_content_type, accepts_media, accepts_some,
  accepts_response,
}

is_acceptable_of_format :
    (mt : Bytes) (f : PayloadFormat) → format_of mt ≡ some f → is_acceptable mt ≡ true
unfolding format_of is_acceptable
is_acceptable_of_format mt f e = ground arith

accepts_media_of_format :
    (media_type : Bytes → Option Bytes) (o : Option Bytes) (f : PayloadFormat)
    → format_of_media media_type o ≡ some f
    → accepts_media media_type o ≡ true
unfolding format_of_media accepts_media
accepts_media_of_format media_type none f e = cc
accepts_media_of_format media_type (some mt) f e = is_acceptable_of_format (to_lower mt) f e

-- A content type that the v2 API takes may stand in the Accept header too, when it holds no comma and
-- the parser of media types reads past white space at the ends of a header.
pub accepts_response-parse_content_type :
    (media_type : Bytes → Option Bytes) (header : Bytes) (f : PayloadFormat)
    → ((s : Bytes) → media_type (trim_space s) ≡ media_type s)
    → Lacks b',' (trim_space header)
    → parse_content_type media_type header ≡ some f
    → accepts_response media_type header ≡ true
unfolding parse_content_type accepts_response accepts_some
accepts_response-parse_content_type media_type header f trimmed one e =
    elim (Bool-cases (eq_bytes (trim_space header) [])) [
      | inl blank ↦ rw blank refl
      | inr given ↦
          rw
            (
              given,
              split_last b',' (trim_space header) one,
              trimmed (trim_space header),
              trimmed header,
              accepts_media_of_format media_type (media_type header) f (rw given at e),
            )
            refl
    ]
