-- ===== src/Http/ResponseParser/Printed.antt =====
-- The responses that HttpDataForwarder (src/core/http_data_forwarder.cpp) prints, as a parser reads them.
use loadbalancer.Base.{◌≡◌, refl, some, ◌∷◌, ◌++◌, Text, bytes, read_word}
use loadbalancer.Http.Message.{
  HttpVersion, http_1_0, http_1_1, http_2_0, unknown_version, version_to_string,
  version_from_string,
}
use loadbalancer.Http.ResponseParser.{ParsedHttpResponse, serialize_http_response}

-- The first word of a response that is printed.
abbrev printed_version : HttpVersion → Text
printed_version v = bytes "HTTP/" ++ version_to_string v

first_word :
    (v : HttpVersion) (t : Text)
    → read_word (bytes "HTTP/" ++ (version_to_string v ++ b' ' ∷ t))
      ≡ some (printed_version v, b' ' ∷ t)
unfolding version_to_string
first_word http_1_0 t = refl
first_word http_1_1 t = refl
first_word http_2_0 t = refl
first_word unknown_version t = refl

printed_unknown : (v : HttpVersion) → version_from_string (printed_version v) ≡ unknown_version
unfolding version_to_string version_from_string
printed_unknown http_1_0 = refl
printed_unknown http_1_1 = refl
printed_unknown http_2_0 = refl
printed_unknown unknown_version = refl

-- Every response that is printed begins with `HTTP/` twice: its first word is `HTTP/` and then the
-- version as it is printed, `HTTP/` included, which no parser here knows as a version.
pub serialize_http_response_misprints :
    (r : ParsedHttpResponse)
    → (rest : Text) × (read_word (serialize_http_response r)
        ≡ some (bytes "HTTP/" ++ version_to_string r.version, rest))
      × (version_from_string (bytes "HTTP/" ++ version_to_string r.version) ≡ unknown_version)
unfolding serialize_http_response
serialize_http_response_misprints r = (_, first_word r.version _, printed_unknown r.version)
