-- ===== src/Cookies/RoundTrip.antt =====
-- What `parseCookieHeader` of packages/core/src/cookies.ts reads of the cookies that `serializeCookie` prints.
use Prim.Native.String.{◌++◌}
use axiomify.Base.{
  String, true, false, Option, none, some, List, [], ◌∷◌, ◌≡◌, ◌≢◌, refl, sym, arith, eq_iff, All,
}
use mathlib.Core.List
use mathlib.Core.List.{append_assoc, append-nil}
use text.Mathlib.TextLemmas.{nil-append, cons-append}
use text.Mathlib.TextLemmas
use axiomify.JsMap
use axiomify.JsMap.{IsDistinct}
use axiomify.JsMap.Laws.{set_absent}
use axiomify.Cookies.{unquote, decoded, add_cookie, add_piece, add_pieces, parse_cookie_header}
use axiomify.Texts.Cutting.{
  contains-append, every-contains, cut-append, split-append, split_none, trim_solid, trim_space,
}
use axiomify.Cookies.Printing.{is_token, is_cookie_value, is_cookie_name, encoded, pair}
use axiomify.Texts.{contains, every, cut, split, trim, is_space}
use axiomify.Cookies.Reading.{
  every-weaken, value_solid, unquote_plain, name_facts, name_without, trim_name, IsCodec,
  IsReadable, more_cookies, cookie_header, IsCookie, Fresh, Fresh-later, Fresh-nil, get_nil,
}

module _ (encode : String → String) (decode : String → Option String) where
  encoded_safe :
      (value : String)
      → IsCodec encode decode value
      → every is_cookie_value (encoded encode value) ≡ true
  unfolding encoded
  encoded_safe value codec = ground (arith, codec.safe)

  decoded-encoded :
      (value : String)
      → IsReadable value
      → IsCodec encode decode value
      → decoded decode (encoded encode value) ≡ value
  unfolding decoded encoded
  decoded-encoded value r codec = ground (arith, codec.decodes, codec.plain)

  read_value :
      (value : String)
      → IsReadable value
      → IsCodec encode decode value
      → decoded decode (unquote (trim (encoded encode value))) ≡ value
  unfolding is_cookie_value
  read_value value r codec =
      let e = encoded_safe value codec in
      let t =
        trim_solid (encoded encode value) (every-weaken _ _ (encoded encode value) value_solid e) in
      let q =
        unquote_plain (encoded encode value)
          (every-contains is_cookie_value b'"' (encoded encode value) (refl) e) in
      rw (t, q) (decoded-encoded value r codec)

  add_cookie-append :
      (name value : String) (out : List (String × String))
      → name ≢ ""
      → IsReadable value
      → IsCodec encode decode value
      → JsMap.get name out ≡ none
      → add_cookie decode name (encoded encode value) out ≡ List.◌++◌ out ((name, value) ∷ [])
  unfolding add_cookie
  add_cookie-append name value out n r codec h =
      ground (arith, read_value value r codec, set_absent name value out h, eq_iff name "")

  add_piece-cut :
      (piece name value : String) (out : List (String × String))
      → cut b'=' piece ≡ some (name, value)
      → add_piece decode piece out ≡ add_cookie decode (trim name) value out
  unfolding add_piece
  add_piece-cut piece name value out h = ground arith

  add_piece-pair :
      (name value : String) (out : List (String × String))
      → is_cookie_name name ≡ true
      → IsReadable value
      → IsCodec encode decode value
      → JsMap.get name out ≡ none
      → add_piece decode (pair encode name value) out ≡ List.◌++◌ out ((name, value) ∷ [])
  unfolding pair is_token
  add_piece-pair name value out n r codec h =
      let k =
        cut-append b'=' name (encoded encode value) "=" (name_without b'=' name refl n) refl in
      rw
        (add_piece-cut (pair encode name value) name (encoded encode value) out k, trim_name name n)
        (add_cookie-append name value out (name_facts name n).0 r codec h)

  add_piece-spaced :
      (name value : String) (out : List (String × String))
      → is_cookie_name name ≡ true
      → IsReadable value
      → IsCodec encode decode value
      → JsMap.get name out ≡ none
      → add_piece decode (String.◌∷◌ " " (pair encode name value)) out
        ≡ List.◌++◌ out ((name, value) ∷ [])
  unfolding pair is_token cut is_space
  add_piece-spaced name value out n r codec h =
      let k =
        cut-append b'=' name (encoded encode value) "=" (name_without b'=' name refl n) refl in
      let t = trim_space " " name refl in
      let piece = String.◌∷◌ " " (pair encode name value) in
      let c : cut b'=' piece ≡ some (String.◌∷◌ " " name, encoded encode value) =
        ground (arith, k) in
      rw
        (
          add_piece-cut piece (String.◌∷◌ " " name) (encoded encode value) out c,
          t,
          trim_name name n,
        )
        (add_cookie-append name value out (name_facts name n).0 r codec h)

  pair_without :
      (name value : String)
      → IsCodec encode decode value
      → is_cookie_name name ≡ true
      → contains b';' (pair encode name value) ≡ false
  unfolding pair contains is_token is_cookie_value
  pair_without name value codec n =
      let a = contains-append b';' name (String.◌∷◌ "=" (encoded encode value)) in
      let b = name_without b';' name refl n in
      let c =
        every-contains is_cookie_value b';' (encoded encode value) refl
          (encoded_safe value codec) in
      ground arith

  add_rest :
      (name value : String) (pieces : List String) (out : List (String × String))
      → is_cookie_name name ≡ true
      → IsReadable value
      → IsCodec encode decode value
      → JsMap.get name out ≡ none
      → add_pieces decode (String.◌∷◌ " " (pair encode name value) ∷ pieces) out
        ≡ add_pieces decode pieces (List.◌++◌ out ((name, value) ∷ []))
  unfolding add_pieces
  add_rest name value pieces out n r codec h = rw (add_piece-spaced name value out n r codec h) refl

  add_first :
      (name value : String) (pieces : List String) (out : List (String × String))
      → is_cookie_name name ≡ true
      → IsReadable value
      → IsCodec encode decode value
      → JsMap.get name out ≡ none
      → add_pieces decode (pair encode name value ∷ pieces) out
        ≡ add_pieces decode pieces (List.◌++◌ out ((name, value) ∷ []))
  unfolding add_pieces
  add_first name value pieces out n r codec h = rw (add_piece-pair name value out n r codec h) refl

  -- The pieces of the header behind one cookie.
  unfoldable more_pieces : List (String × String) → List String
  more_pieces [] = []
  more_pieces ((name, value) ∷ cookies) =
      String.◌∷◌ " " (pair encode name value) ∷ more_pieces cookies

  split-more :
      (name value : String) (cookies : List (String × String))
      → All (IsCookie encode decode) ((name, value) ∷ cookies)
      → split b';' (pair encode name value ++ more_cookies encode cookies)
        ≡ pair encode name value ∷ more_pieces cookies
  unfolding more_cookies more_pieces split
  split-more name value [] ((n, (r, codec)), a) =
      rw (TextLemmas.append-nil (pair encode name value))
        (split_none b';' (pair encode name value) (pair_without name value codec n))
  split-more name value ((k, v) ∷ cookies) ((n, (r, codec)), a) =
      let rest = String.◌∷◌ " " (pair encode k v ++ more_cookies encode cookies) in
      let here =
        split-append b';' (pair encode name value) rest ";" (pair_without name value codec n)
          refl in
      rw (here, split-more k v cookies a) refl

  -- What the pieces behind the first one give.
  add_more :
      (cookies out : List (String × String))
      → All (IsCookie encode decode) cookies
      → IsDistinct cookies
      → Fresh cookies out
      → add_pieces decode (more_pieces cookies) out ≡ List.◌++◌ out cookies
  unfolding more_pieces add_pieces
  add_more [] out a d f = sym (append-nil out)
  add_more ((name, value) ∷ cookies) out ((n, (r, codec)), a) (e, d) (h, f) =
      rw
        (
          add_rest name value (more_pieces cookies) out n r codec h,
          add_more cookies (List.◌++◌ out ((name, value) ∷ [])) a d
              (Fresh-later name value cookies out e f),
        )
        (append_assoc out ((name, value) ∷ []) cookies)

  parse_empty : parse_cookie_header decode "" ≡ []
  unfolding parse_cookie_header add_pieces split add_piece cut
  parse_empty = refl

  -- A `Cookie` header of cookies with different names is parsed to these cookies in their order, where each
  -- name is a token, each value was printed as it is without a percent sign or was encoded, and
  -- decoding undoes the encoding of it.
  pub parse_cookie_header-cookie_header :
      (cookies : List (String × String))
      → All (IsCookie encode decode) cookies
      → IsDistinct cookies
      → parse_cookie_header decode (cookie_header encode cookies) ≡ cookies
  unfolding parse_cookie_header cookie_header add_pieces more_cookies
  parse_cookie_header-cookie_header [] a d = parse_empty
  parse_cookie_header-cookie_header ((name, value) ∷ cookies) a d =
      rw
        (
          split-more name value cookies a,
          add_first name value (more_pieces cookies) [] a.0.0 a.0.1.0 a.0.1.1 (get_nil name),
          add_more cookies ((name, value) ∷ []) a.1 d.1
              (Fresh-later name value cookies [] d.0 (Fresh-nil cookies)),
        )
        refl
