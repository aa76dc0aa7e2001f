-- ===== src/Http/Handler/Removal.antt =====
-- apply_custom_headers of src/http/http_handler.cpp: the names that are removed.
use loadbalancer.Base.{
  ◌≡◌, false, not, List, [], ◌∷◌, Text, text_keys, ◌==◌, Map, assign, All, Memᴰ, is_empty, if-keeps,
  Bool-cases, inl, inr, is_empty,
}
use loadbalancer.Http.Handler.{
  is_same_name, erase_name, erase_names, replace_first, has_name, put_header, put_headers,
  edit_headers, apply_custom_headers,
}
use loadbalancer.Http.Message.{HttpRequest}

-- No header has the name, in whatever letters.
abbrev pub Without : Text → Map Text Text → Type 0
Without name headers = All (λ e. is_same_name name e.0 ≡ false) headers

-- What removes headers keeps the property, and what adds others does.
erase_name-Without :
    (target name : Text) (hs : Map Text Text)
    → Without name hs
    → Without name (erase_name target hs)
unfolding erase_name
erase_name-Without target name [] h = tt
erase_name-Without target name ((k, v) ∷ hs) h =
    if-keeps (Without name) (not (is_same_name target k))
      (λ e. (h.0, erase_name-Without target name hs h.1))
      (λ e. erase_name-Without target name hs h.1)

erase_name_gone : (name : Text) (hs : Map Text Text) → Without name (erase_name name hs)
unfolding erase_name
erase_name_gone name [] = tt
erase_name_gone name ((k, v) ∷ hs) = elim (Bool-cases (is_same_name name k)) [
  | inl e ↦ rw e (erase_name_gone name hs)
  | inr e ↦ rw e (e, erase_name_gone name hs)
]

erase_names-Without :
    (names : List Text) (name : Text) (hs : Map Text Text)
    → Without name hs
    → Without name (erase_names names hs)
unfolding erase_names
erase_names-Without [] name hs h = h
erase_names-Without (target ∷ names) name hs h =
    erase_names-Without names name (erase_name target hs) (erase_name-Without target name hs h)

erase_names_gone :
    (names : List Text) (name : Text) (hs : Map Text Text)
    → Memᴰ name names
    → Without name (erase_names names hs)
unfolding erase_names
erase_names_gone [] name hs m = elim m [ ]
erase_names_gone (target ∷ names) name hs (Memᴰ.head e) =
    erase_names-Without names name (erase_name target hs) (rw e (erase_name_gone target hs))
erase_names_gone (target ∷ names) name hs (Memᴰ.tail m) =
    erase_names_gone names name (erase_name target hs) m

replace_first-Without :
    (other value name : Text) (hs : Map Text Text)
    → Without name hs
    → Without name (replace_first other value hs)
unfolding replace_first
replace_first-Without other value name [] h = tt
replace_first-Without other value name ((k, v) ∷ hs) h =
    if-keeps (Without name) (is_same_name other k) (λ e. (h.0, h.1))
      (λ e. (h.0, replace_first-Without other value name hs h.1))

assign-Without :
    (other value name : Text) (hs : Map Text Text)
    → is_same_name name other ≡ false
    → Without name hs
    → Without name (assign other value hs)
unfolding assign
assign-Without other value name [] e h = (e, tt)
assign-Without other value name ((k, v) ∷ hs) e h =
    if-keeps (Without name) (k == other) (λ f. (e, h.1))
      (λ f. (h.0, assign-Without other value name hs e h.1))

put_header-Without :
    (other value name : Text) (hs : Map Text Text)
    → is_same_name name other ≡ false
    → Without name hs
    → Without name (put_header other value hs)
unfolding put_header
put_header-Without other value name hs e h =
    if-keeps (Without name) (is_empty value) (λ f. erase_name-Without other name hs h)
      (λ f.
        if-keeps (Without name) (has_name other hs)
          (λ g. replace_first-Without other value name hs h)
          (λ g. assign-Without other value name hs e h))

put_headers-Without :
    (added : Map Text Text) (name : Text) (hs : Map Text Text)
    → Without name added
    → Without name hs
    → Without name (put_headers added hs)
unfolding put_headers
put_headers-Without [] name hs a h = h
put_headers-Without ((other, value) ∷ added) name hs a h =
    put_headers-Without added name (put_header other value hs) a.1
      (put_header-Without other value name hs a.0 h)

-- A name that is to be removed and, in whatever letters, not added is no header's name afterwards, in
-- whatever letters.
pub apply_custom_headers-Without :
    (added : Map Text Text) (removed : List Text) (name : Text) (r : HttpRequest)
    → Memᴰ name removed
    → Without name added
    → Without name (apply_custom_headers added removed r).headers
unfolding apply_custom_headers edit_headers
apply_custom_headers-Without added removed name r m a =
    put_headers-Without added name (erase_names removed r.headers) a
      (erase_names_gone removed name r.headers m)
