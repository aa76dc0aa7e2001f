-- ===== src/Http/Handler/Tests.antt =====
-- A request behind a proxy, and a header that goes.
use loadbalancer.Base.{
  ◌≡◌, refl, true, false, [], ◌∷◌, Text, text_keys, bytes, List, Memᴰ, find, assign,
}
use loadbalancer.Http.Message.{
  HttpRequest, new_request, get_header, header_found, get_host, find_letters,
}
use loadbalancer.Http.Handler.{
  modify_request_headers, apply_custom_headers, edit_headers, put_headers, put_header, erase_names,
  erase_name, set_forwarded_for, set_real_ip, set_forwarded_host, set_header, is_http_request,
}
use loadbalancer.Http.Handler.Forwarded.{IsForwarded, modify_request_headers-IsForwarded}
use loadbalancer.Http.Handler.Removal.{Without, apply_custom_headers-Without}

abbrev proxied : HttpRequest
proxied = record new_request {
  headers = (bytes "x-forwarded-for", bytes "10.0.0.1") ∷ (bytes "Server", bytes "s") ∷ [];
}

chained_run :
    get_header (bytes "X-Forwarded-For") (modify_request_headers (bytes "10.0.0.2") false proxied)
    ≡ bytes "10.0.0.1, 10.0.0.2"
unfolding modify_request_headers set_forwarded_for set_real_ip set_forwarded_host set_header
    get_header header_found find_letters get_host find assign
chained_run = refl

modify_request_headers-IsForwarded_example :
    IsForwarded
      (bytes "10.0.0.2")
      false
      proxied
      (modify_request_headers (bytes "10.0.0.2") false proxied)
modify_request_headers-IsForwarded_example =
    modify_request_headers-IsForwarded (bytes "10.0.0.2") false proxied refl

abbrev added : List (Text × Text)
added = (bytes "X-Added", bytes "1") ∷ []

removed_run :
    (apply_custom_headers added (bytes "SERVER" ∷ []) proxied).headers
    ≡ (bytes "x-forwarded-for", bytes "10.0.0.1") ∷ (bytes "X-Added", bytes "1") ∷ []
unfolding apply_custom_headers edit_headers put_headers put_header erase_names erase_name assign
removed_run = refl

apply_custom_headers-Without_example :
    Without (bytes "SERVER") (apply_custom_headers added (bytes "SERVER" ∷ []) proxied).headers
apply_custom_headers-Without_example =
    apply_custom_headers-Without added (bytes "SERVER" ∷ []) (bytes "SERVER") proxied
      (Memᴰ.head refl) (refl, tt)

method_run : is_http_request (bytes "PUT /") ≡ true
unfolding is_http_request
method_run = refl
