-- ===== src/Response/Codes.antt =====
-- src/linear_fcgi_http.h and src/linear_fcgi_response.h: status codes and media types.
use linear_fcgi.Common.{ℕ, List, codes}

-- enum Response::Code, without its end mark.
pub data Code : Type 0 where
  ok created accepted non_authoritative_information no_content reset_content partial_content
        multiple_choices moved_permanently found see_other not_modified use_proxy bad_request
        unauthorized payment_required forbidden not_found method_not_allowed not_acceptable
        proxy_authentication_required request_timeout conflict gone length_required
        precondition_faild request_entity_too_large request_uri_too_long unsupported_media_type
        request_range_not_satisfiable expectation_failed internal_server_error not_implemented
        bad_gateway service_unavailable gateway_timeout http_version_not_supported :
      Code

-- What an enumerator is printed as.
unfoldable pub number : Code → ℕ
number ok = 200
number created = 201
number accepted = 202
number non_authoritative_information = 203
number no_content = 204
number reset_content = 205
number partial_content = 206
number multiple_choices = 300
number moved_permanently = 301
number found = 302
number see_other = 303
number not_modified = 304
number use_proxy = 305
number bad_request = 400
number unauthorized = 401
number payment_required = 402
number forbidden = 403
number not_found = 404
number method_not_allowed = 405
number not_acceptable = 406
number proxy_authentication_required = 407
number request_timeout = 408
number conflict = 409
number gone = 410
number length_required = 411
number precondition_faild = 412
number request_entity_too_large = 413
number request_uri_too_long = 414
number unsupported_media_type = 415
number request_range_not_satisfiable = 416
number expectation_failed = 417
number internal_server_error = 500
number not_implemented = 501
number bad_gateway = 502
number service_unavailable = 503
number gateway_timeout = 504
number http_version_not_supported = 505

-- enum Http::MimeType.
pub data MimeType : Type 0 where
  text_plain text_javascript app_json app_javascript x_www_form_urlencoded unknown : MimeType

-- Response::getContentType.
unfoldable pub get_content_type : MimeType → List ℕ
get_content_type text_plain = codes "text/plain"
get_content_type text_javascript = codes "text/javascript"
get_content_type app_json = codes "application/json"
get_content_type app_javascript = codes "application/javascript"
get_content_type x_www_form_urlencoded = codes "application/x-www-form-urlencoded"
get_content_type unknown = codes "application/x-www-form-urlencoded"
