-- ===== src/Dispatcher/Responses.antt =====
-- The responses of packages/core/src/dispatcher.ts: what is thrown, what is sent, the interface of an
-- adapter's response, and the wrapper `ValidatingResponse`.
use axiomify.Base.{ℕ, String, Bool, false, Option, none, some, if◌then◌else◌}
use axiomify.Hooks.{Hook, and_then}

-- The properties of a thrown value that the dispatcher reads, and whether it is `null` or `undefined`, of
-- which no property can be read.
pub record Thrown (D : Type 0) : Type 0 where
  pub is_nullish : Bool
  pub status_code : Option ℕ
  pub status : Option ℕ
  pub message : Option String
  pub is_validation : Bool
  pub errors : Option D
  pub issues : Option D
  pub stack : Option String

-- `null`, data or `undefined`, and the body of an internal error in production.
pub data Body (D : Type 0) : Type 0 where
  null_body : Body D
  data_body : Option D → Body D
  generic_body : Body D

-- Methods that an adapter may lack are optional.
pub record Response (S D O : Type 0) : Type 0 where
  pub status : ℕ → S → S
  pub status_code : S → ℕ
  pub header : String → String → S → S
  pub get_header : String → S → Option String
  pub remove_header : String → S → S
  pub headers_sent : S → Bool
  pub send : Body D → Option String → Hook S (Thrown D)
  pub send_raw : O → Option String → Hook S (Thrown D)
  pub stream : O → Option String → Hook S (Thrown D)
  pub set_streaming : S → S
  pub cookie : Option (String → String → O → Hook S (Thrown D))
  pub clear_cookie : Option (String → O → Hook S (Thrown D))
  pub has_sse : S → Bool
  pub sse_init : Option (Option ℕ → Hook S (Thrown D))
  pub sse_send : Option (D → Option String → Hook S (Thrown D))

-- `new Error(text)`.
unfoldable pub plain_error : {D : Type 0} → String → Thrown D
plain_error text = record {
  is_nullish = false;
  status_code = none;
  status = none;
  message = some text;
  is_validation = false;
  errors = none;
  issues = none;
  stack = none;
}

abbrev no_cookie : String
no_cookie = "[Axiomify] The active adapter does not implement res.cookie()."

abbrev no_clear_cookie : String
no_clear_cookie = "[Axiomify] The active adapter does not implement res.clearCookie()."

abbrev no_sse : String
no_sse = "[Axiomify] The active adapter does not implement SSE responses."

module _ {S D : Type 0} where
  unfoldable pub forward_sse_init :
      (S → Bool) → Option (Option ℕ → Hook S (Thrown D)) → Option ℕ → Hook S (Thrown D)
  forward_sse_init has none ms s = (s, some (plain_error no_sse))
  forward_sse_init has (some init) ms s =
      if has s then init ms s else (s, some (plain_error no_sse))

  unfoldable pub forward_sse_send :
      (S → Bool)
      → Option (D → Option String → Hook S (Thrown D))
      → D
      → Option String
      → Hook S (Thrown D)
  forward_sse_send has none d event s = (s, some (plain_error no_sse))
  forward_sse_send has (some send) d event s =
      if has s then send d event s else (s, some (plain_error no_sse))

module _ {S D O : Type 0} where
  unfoldable pub forward_cookie :
      Option (String → String → O → Hook S (Thrown D)) → String → String → O → Hook S (Thrown D)
  forward_cookie none name value options s = (s, some (plain_error no_cookie))
  forward_cookie (some cookie) name value options s = cookie name value options s

  unfoldable pub forward_clear_cookie :
      Option (String → O → Hook S (Thrown D)) → String → O → Hook S (Thrown D)
  forward_clear_cookie none name options s = (s, some (plain_error no_clear_cookie))
  forward_clear_cookie (some clear_cookie) name options s = clear_cookie name options s

  module _ (is_sent : S → Bool) (mark_sent : S → S)
      (validate_response : String → Body D → ℕ → Hook S (Thrown D)) (route_id : String)
      (inner : Response S D O) where
    -- The first body is validated before it is handed on.
    unfoldable pub send_validated : Body D → Option String → Hook S (Thrown D)
    send_validated body message s =
        if is_sent s
        then inner.send body message s
        else and_then
            (validate_response route_id body (inner.status_code (mark_sent s)) (mark_sent s))
            (inner.send body message)

    unfoldable pub validating : Response S D O
    validating = record inner {
      send = send_validated;
      stream =
          λ readable content_type s. inner.stream readable content_type (inner.set_streaming s);
      cookie = some (forward_cookie inner.cookie);
      clear_cookie = some (forward_clear_cookie inner.clear_cookie);
      sse_init = some (forward_sse_init inner.has_sse inner.sse_init);
      sse_send = some (forward_sse_send inner.has_sse inner.sse_send);
    }
