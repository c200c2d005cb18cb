-- ===== src/Web/Session/Laws.antt =====
-- Which answers of the Rust API open a session.
use zamapay.Prelude.{◌≡◌, refl, sym, ◌∙◌, Bool, true, not, Option, none, some, [], ◌∷◌, arith}
use zamapay.Prelude.Text.{Text, lit, nonempty}
use zamapay.Js.{Value, string, boolean, member, is_nullish}
use zamapay.Web.Errors.{Attempt, ok, Passes, Passes-ok, >>=-Passes, if-Passes}
use zamapay.Web.Transport.{
  Network, IncomingRequest, UpstreamResponse, fetch_rust_from_request, rust_text_response,
}
use zamapay.Web.Session.{
  SessionCookie, SessionReply, with_text, with_error, empty_reply, redirect, json_fallback,
  session_of, read_session_response, authenticated_session, is_secure_request, opened, answered,
  post_verify,
}

session_of-string :
    (v w : Value) {id : Text}
    → session_of v w ≡ some id
    → (v ≡ boolean true) × (w ≡ string id) × (nonempty id ≡ true)
session_of-string (boolean true) (string []) h = cc
session_of-string (boolean true) (string (c ∷ s)) h = ground arith
session_of-string v w h = cc

module _ (network : Network) (protocol : Text → Attempt Text) (request : IncomingRequest) where
  -- The answer is the Rust API's, and it says that the session is authenticated.
  abbrev pub OpensSession : UpstreamResponse → Text → SessionCookie → Type 0
  OpensSession response text cookie =
      (fetch_rust_from_request network request (lit "/api/auth/verify") json_fallback ≡ ok response)
      × (response.text ≡ ok text)
      × (response.is_ok ≡ true)
      × (member (read_session_response network protocol text) (lit "authenticated") ≡ boolean true)
      × (member (member (read_session_response network protocol text) (lit "user"))
            (lit "sessionId")
          ≡ string cookie.session)
      × (nonempty cookie.session ≡ true)

  -- A reply that sets a cookie passes on the answer that opens the session.
  abbrev pub SetsSession : SessionReply → Type 0
  SetsSession (with_text reply none) = Unit
  SetsSession (with_text reply (some cookie)) =
      (response : UpstreamResponse) × OpensSession response reply.reply_text cookie
  SetsSession (with_error reply) = Unit
  SetsSession (empty_reply cookie) = ⊥
  SetsSession (redirect location cookie) = ⊥

  authenticated-session_of :
      (v : Value)
      → Passes
          (λ found.
            found
            ≡ session_of
                (member v (lit "authenticated"))
                (member (member v (lit "user")) (lit "sessionId")))
          (authenticated_session network protocol v)
  unfolding authenticated_session
  authenticated-session_of v = if-Passes _ (is_nullish v) _ _ (λ _. tt) λ _. refl

  opened-SetsSession :
      (response : UpstreamResponse) (text : Text) (found : Option Text)
      → ((id : Text) (is_secure : Bool)
          → found ≡ some id
          → OpensSession response text
              (record { session = id; max_age = none; secure = is_secure }))
      → Passes SetsSession (opened network protocol request response text found)
  unfolding rust_text_response
  opened-SetsSession response text none evidence = tt
  opened-SetsSession response text (some id) evidence =
      >>=-Passes _ (is_secure_request network protocol request) _
        λ is_secure _. (response, evidence id is_secure refl)

  answered-SetsSession :
      (response : UpstreamResponse) (text : Text)
      → fetch_rust_from_request network request (lit "/api/auth/verify") json_fallback ≡ ok response
      → response.text ≡ ok text
      → Passes SetsSession (answered network protocol request response text)
  unfolding rust_text_response
  answered-SetsSession response text fetched read =
      if-Passes SetsSession (not response.is_ok) _ _ (λ _. tt)
        λ shown. >>=-Passes SetsSession (authenticated_session network protocol _) _ λ found e.
          opened-SetsSession response text found λ id is_secure some_id.
            let agrees =
              Passes-ok _ (authenticated-session_of (read_session_response network protocol text))
                e in
            let (authenticated, named, long) = session_of-string _ _ (sym agrees ∙ some_id) in
            (fetched, read, ground arith, authenticated, named, long)

  -- `auth/verify` sets the session's cookie only with the id of an authenticated answer of the Rust API,
  -- whose text it passes on.
  pub post_verify-SetsSession : Passes SetsSession (post_verify network protocol request)
  unfolding post_verify
  post_verify-SetsSession =
      >>=-Passes _ (fetch_rust_from_request network request _ json_fallback) _ λ response fetched.
        >>=-Passes _ response.text _ λ text read. answered-SetsSession response text fetched read
