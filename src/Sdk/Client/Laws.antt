-- ===== src/Sdk/Client/Laws.antt =====
-- The client's state: the bootstrap is asked for once, bad input sends nothing, and what a created
-- checkout sends.
use zamapay.Prelude.{
  ◌≡◌, refl, sym, ap, ◌∙◌, ◌⊎◌, inl, inr, true, none, some, ◌++◌, [], ◌∷◌, arith, Option-cases,
}
use zamapay.Prelude.Text.{Text, lit, nonempty, trim, to_upper}
use zamapay.Js.{Value, is_nullish, member, IsWithin, string}
use zamapay.Sdk.Result.{Thrown, Result, ok, throw}
use zamapay.Sdk.Request.{Event, sent, slept, Response, RequestOptions, Sender}
use zamapay.Sdk.Request.ResponseHeaders.{header}
use zamapay.Sdk.Request.Loop.Laws.{Grows, Grows-map, same}
use zamapay.Sdk.Request.Laws.{IsAttempt, request_headers-key, request-Grows, Result-cases}
use zamapay.Sdk.Client.{
  ClientHost, CallOptions, send, bootstrap_settled, bootstrap_now, bootstrap_from,
  bootstrap_project, cannot_read_project_id, resolve_project_id, create_checkout_session,
  call_options, sessions_path, no_options,
}
use zamapay.Sdk.Client.State.{World, Method, ◌>>=◌, lift, >>=-throw, >>=-ok}
use zamapay.Sdk.Client.BodyLaws.{validate_nonempty_string-ok}
use zamapay.Sdk.Client.Body.{validate_nonempty_string, checkout_session_body}

upper_post : to_upper (lit "POST") ≡ lit "POST"
unfolding to_upper
upper_post = refl

nonempty-trim : (s : Text) → nonempty (trim s) ≡ true → nonempty s ≡ true
unfolding trim
nonempty-trim [] h = h
nonempty-trim (c ∷ s) h = refl

module _ (c : ClientHost) (sender : Sender) where
  bootstrap_project-cached :
      (w : World) {r : Result Response}
      → w.bootstrap ≡ some r
      → bootstrap_project c sender w ≡ (r, w)
  unfolding bootstrap_project
  bootstrap_project-cached w h = ap (λ o. bootstrap_from c sender o w) h

  bootstrap_project-fresh :
      (w : World) → w.bootstrap ≡ none → bootstrap_project c sender w ≡ bootstrap_now c sender w
  unfolding bootstrap_project
  bootstrap_project-fresh w h = ap (λ o. bootstrap_from c sender o w) h

  settled-kept :
      (r : Result Response) (w : World) {a : Response}
      → (bootstrap_settled c sender r w).0 ≡ ok a
      → (bootstrap_settled c sender r w).1.bootstrap ≡ some (ok a)
  unfolding bootstrap_settled
  settled-kept (throw e) w h = cc
  settled-kept (ok r) w h = ground arith

  now-kept :
      (w : World) {a : Response}
      → (bootstrap_now c sender w).0 ≡ ok a
      → (bootstrap_now c sender w).1.bootstrap ≡ some (ok a)
  unfolding bootstrap_now
  now-kept w h = settled-kept _ _ h

  -- Once a bootstrap has succeeded, the next one gives the same response and changes nothing: it
  -- sends no request.
  pub bootstrap_once :
      (w : World) {a : Response}
      → (bootstrap_project c sender w).0 ≡ ok a
      → bootstrap_project c sender (bootstrap_project c sender w).1
        ≡ (ok a, (bootstrap_project c sender w).1)
  bootstrap_once w {a} h = elim (Option-cases w.bootstrap) [
    | inl e ↦
        let fresh = bootstrap_project-fresh w e in
        rw fresh (bootstrap_project-cached _ (now-kept w (ap (λ p. p.0) (sym fresh) ∙ h)))
    | inr (r, e) ↦
        let cached = bootstrap_project-cached w e in
        let same_result : r ≡ ok a = ap (λ p. p.0) (sym cached) ∙ h in
        rw cached (cached ∙ ap (λ x. (x, w)) same_result)
  ]

  settled-stuck :
      (r : Response) (w : World)
      → is_nullish r.value ≡ true
      → bootstrap_settled c sender (ok r) w ≡ (
        throw cannot_read_project_id,
        record w { bootstrap = some (throw cannot_read_project_id) },
      )
  unfolding bootstrap_settled
  settled-stuck r w n = rw n

  now-stuck :
      (w : World) {r : Response}
      → (send c sender (lit "GET") (lit "/api/project-secret/bootstrap") no_options w).0 ≡ ok r
      → is_nullish r.value ≡ true
      → ((bootstrap_now c sender w).0 ≡ throw cannot_read_project_id)
        × ((bootstrap_now c sender w).1.bootstrap ≡ some (throw cannot_read_project_id))
  unfolding bootstrap_now
  now-stuck w {r} h n = rw (h, settled-stuck r _ n) (refl, refl)

  -- A response without a body, or with the body `null`, reaches the callback that reads its
  -- `projectId`: the bootstrap throws a `TypeError`, the promise that keeps it is never cleared, and
  -- every later bootstrap throws it again and sends no request.
  pub bootstrap_stuck :
      (w : World) {r : Response}
      → w.bootstrap ≡ none
      → (send c sender (lit "GET") (lit "/api/project-secret/bootstrap") no_options w).0 ≡ ok r
      → is_nullish r.value ≡ true
      → ((bootstrap_project c sender w).0 ≡ throw cannot_read_project_id)
        × (bootstrap_project c sender (bootstrap_project c sender w).1
            ≡ (throw cannot_read_project_id, (bootstrap_project c sender w).1))
  bootstrap_stuck w {r} e h n =
      let fresh = bootstrap_project-fresh w e in
      let (thrown, kept) = now-stuck w h n in rw fresh (thrown, bootstrap_project-cached _ kept)

  -- The end of `createCheckoutSession`, once the project is known.
  create_for : Value → CallOptions → Value → Method Response
  create_for input o project = do
    key ←
        lift (validate_nonempty_string (member input (lit "idempotencyKey")) (lit "idempotencyKey"))
    body ← lift (checkout_session_body input)
    let o' = call_options o
    send c sender (lit "POST") (sessions_path c sender project)
        (record o' { body = some body; idempotency_key = some key })

  create-resolve-throw :
      (input : Value) (o : CallOptions) (w : World) {e : Thrown}
      → (resolve_project_id c sender o.project_id w).0 ≡ throw e
      → create_checkout_session c sender input o w
        ≡ (throw e, (resolve_project_id c sender o.project_id w).1)
  unfolding create_checkout_session create_for
  create-resolve-throw input o w h =
      >>=-throw (resolve_project_id c sender o.project_id) (create_for input o) w h

  create-resolve-ok :
      (input : Value) (o : CallOptions) (w : World) {project : Value}
      → (resolve_project_id c sender o.project_id w).0 ≡ ok project
      → create_checkout_session c sender input o w
        ≡ create_for input o project (resolve_project_id c sender o.project_id w).1
  unfolding create_checkout_session create_for
  create-resolve-ok input o w h =
      >>=-ok (resolve_project_id c sender o.project_id) (create_for input o) w h

  create_for-invalid :
      (input : Value) (o : CallOptions) (project : Value) (w : World) {e : Thrown}
      → (validate_nonempty_string (member input (lit "idempotencyKey")) (lit "idempotencyKey")
          ≡ throw e)
        ⊎ (checkout_session_body input ≡ throw e)
      → (create_for input o project w).1 ≡ w
  unfolding create_for
  create_for-invalid input o project w bad = ground arith

  -- A checkout whose idempotency key or body does not pass the checks sends nothing: the client is
  -- left as it was when its project was known.
  pub create-invalid_sends_nothing :
      (input : Value) (o : CallOptions) (w : World) {e : Thrown}
      → (validate_nonempty_string (member input (lit "idempotencyKey")) (lit "idempotencyKey")
          ≡ throw e)
        ⊎ (checkout_session_body input ≡ throw e)
      → (create_checkout_session c sender input o w).1
        ≡ (resolve_project_id c sender o.project_id w).1
  create-invalid_sends_nothing input o w bad =
      elim (Result-cases (resolve_project_id c sender o.project_id w).0) [
        | inr (e, h) ↦ ap (λ p. p.1) (create-resolve-throw input o w h)
        | inl (project, h) ↦
            ap (λ p. p.1) (create-resolve-ok input o w h) ∙ create_for-invalid input o project _ bad
      ]

  -- What `createCheckoutSession` adds to the history once the project is known: a POST to the
  -- project's checkout sessions with a valid body and the input's idempotency key in its header, or
  -- a sleep.
  abbrev pub IsCreate : Value → Value → Event → Type 0
  IsCreate input project (sent r) =
      (key : Text) × (body : Value) × (member input (lit "idempotencyKey") ≡ string key)
      × (checkout_session_body input ≡ ok body)
      × (r.method ≡ lit "POST")
      × (r.url ≡ sender.base_url ++ sessions_path c sender project)
      × (header (lit "idempotency-key") r.headers ≡ some key)
  IsCreate input project (slept d) = IsWithin 60000 d

  abbrev post_options : CallOptions → Text → Value → RequestOptions
  post_options o key body =
      let o' = call_options o in record o' { body = some body; idempotency_key = some key }

  create_for-valid :
      (input : Value) (o : CallOptions) (project : Value) (w : World) {key : Text} {body : Value}
      → validate_nonempty_string (member input (lit "idempotencyKey")) (lit "idempotencyKey")
        ≡ ok key
      → checkout_session_body input ≡ ok body
      → create_for input o project w
        ≡ send c sender (lit "POST") (sessions_path c sender project) (post_options o key body) w
  unfolding create_for
  create_for-valid input o project w h h' = rw (h, create_for, h')

  send-Grows :
      (input : Value) (o : CallOptions) (project : Value) (w : World) {key : Text} {body : Value}
      → validate_nonempty_string (member input (lit "idempotencyKey")) (lit "idempotencyKey")
        ≡ ok key
      → checkout_session_body input ≡ ok body
      → Grows
          (IsCreate input project)
          w.history
          (send c sender
            (lit "POST")
            (sessions_path c sender project)
            (post_options o key body)
            w).1.history
  unfolding send
  send-Grows input o project w {key} {body} h h' = Grows-map attempt-IsCreate (
      request-Grows c.host sender (lit "POST") (sessions_path c sender project)
        (post_options o key body) w.history)
    where
      attempt-IsCreate :
          (e : Event)
          → IsAttempt c.host sender
              (lit "POST")
              (sessions_path c sender project)
              (post_options o key body)
              w.history
              e
          → IsCreate input project e
      attempt-IsCreate (sent r) (url, method, headers, same_body, same_timeout) =
          let (is_string, full) = validate_nonempty_string-ok _ _ h in
          (
            key,
            body,
            is_string,
            h',
            method ∙ upper_post,
            url,
            rw headers (request_headers-key sender true key (nonempty-trim key full)),
          )
      attempt-IsCreate (slept d) w = w

  create_for-Grows :
      (input : Value) (o : CallOptions) (project : Value) (w : World)
      → Grows (IsCreate input project) w.history (create_for input o project w).1.history
  create_for-Grows input o project w =
      elim (Result-cases
        (validate_nonempty_string (member input (lit "idempotencyKey")) (lit "idempotencyKey"))) [
          | inr (e, h) ↦ rw (create_for-invalid input o project w (inl h)) same
          | inl (key, h) ↦ elim (Result-cases (checkout_session_body input)) [
            | inr (e, h') ↦ rw (create_for-invalid input o project w (inr h')) same
            | inl (body, h') ↦
                rw (create_for-valid input o project w h h') (send-Grows input o project w h h')
          ]
        ]

  -- Once the project is known, `createCheckoutSession` sends only POSTs to the checkout sessions of
  -- that project, for an input whose key and body passed the checks, each with the input's key in
  -- its `idempotency-key` header; between them it sleeps for 60 seconds at most.
  pub create_checkout_session-Grows :
      (input : Value) (o : CallOptions) (w : World) {project : Value}
      → (resolve_project_id c sender o.project_id w).0 ≡ ok project
      → Grows
          (IsCreate input project)
          (resolve_project_id c sender o.project_id w).1.history
          (create_checkout_session c sender input o w).1.history
  create_checkout_session-Grows input o w {project} h =
      rw (create-resolve-ok input o w h) (create_for-Grows input o project _)
