-- ===== src/Relay/Server/Guard.antt =====
-- services/dozzle/alert_relay.py: which requests `do_POST` lets through.
use nas_platform.Common.{
  ℕ, ◌≤◌, ◌<◌, ◌≡◌, ◌⊎◌, refl, sym, inl, inr, true, false, ◌||◌, some, ltb, ◌==◌, arith, Bool-cases,
  Option-cases, ==→eq, ltb→le,
}
use nas_platform.Common.Text.{codes, text_eq, text_eq→eq, text_eq_iff}
use nas_platform.Common.Value.{Value}
use nas_platform.Relay.Settings.{Config}
use nas_platform.Relay.Process.{Relay, Weather, process_event}
use nas_platform.Relay.Event.{Event}
use nas_platform.Relay.Beszel.Process.{process_beszel}
use nas_platform.Relay.Envelope.{Alert, validate_envelope, validate_beszel_envelope}
use nas_platform.Relay.Server.{
  Loaded, value, malformed, uncaught, no_answer, Request, is_authorized, is_json,
  expected_authorization, max_body_bytes, answer_status, handle_beszel, handle_alerts, read_body,
  do_post,
}

-- A status with which the relay never was asked to do anything; there is no answer only where
-- json.loads raised what the handler does not catch.
abbrev pub IsRefusal : Request → ℕ → Type 0
IsRefusal request status =
    (status ≡ 400)
    ⊎ ((status ≡ 401)
        ⊎ ((status ≡ 404)
            ⊎ ((status ≡ 413)
                ⊎ ((status ≡ 503) ⊎ ((status ≡ no_answer) × (request.loaded ≡ uncaught))))))

loaded_cases : (l : Loaded) → ((v : Value) × (l ≡ value v)) ⊎ ((l ≡ malformed) ⊎ (l ≡ uncaught))
loaded_cases (value v) = inl (v, refl)
loaded_cases malformed = inr (inl refl)
loaded_cases uncaught = inr (inr refl)

-- A request with the token, for JSON, with a body of the length that it says, within the bound.
pub record IsAdmitted (config : Config) (request : Request) : Type 0 where
  pub authorized : request.authorization ≡ expected_authorization config
  pub json : is_json request.content_type ≡ true
  pub size :
      (n : ℕ) × (request.content_length ≡ some n)
      × (request.received ≡ n)
      × (0 < n)
      × (n ≤ max_body_bytes)

-- The envelope of an admitted request is handled by the routine of its path, whose answer is `out`.
abbrev pub IsHandled : Config → Weather → Request → Relay → ℕ × Relay → Type 0
IsHandled config w request r out =
    ((v : Value) × (request.loaded ≡ value v)
      × (((request.path ≡ codes "/alerts")
            × (e : Event) × (validate_envelope v ≡ some e)
            × (out ≡ answer_status (process_event config w e r)))
          ⊎ ((request.path ≡ codes "/beszel")
              × (a : Alert) × (validate_beszel_envelope v ≡ some a)
              × (out ≡ answer_status (process_beszel config w a r)))))

abbrev pub IsRefused : Request → Relay → ℕ × Relay → Type 0
IsRefused request r out = IsRefusal request (out.0) × (out.1 ≡ r)

positive : (n : ℕ) → (n == 0) ≡ false → 0 < n
positive n h = ground arith

refuse_400 :
    (request : Request) (r : Relay) (out : ℕ × Relay) → (400, r) ≡ out → IsRefused request r out
refuse_400 request r out e = (inl (ground arith), ground arith)

module _ (config : Config) (w : Weather) (request : Request) (r : Relay) where
  alerts-IsHandled :
      request.path ≡ codes "/alerts"
      → (out : ℕ × Relay) → handle_alerts config w request.loaded r ≡ out
      → IsRefused request r out ⊎ IsHandled config w request r out
  unfolding handle_alerts
  alerts-IsHandled p out e = elim (loaded_cases request.loaded) [
    | inr (inl unread) ↦ inl (refuse_400 request r out (rw unread at e))
    | inr (inr raised) ↦
        let silent : (no_answer, r) ≡ out = rw raised at e in
        inl (inr (inr (inr (inr (inr (ground arith, raised))))), ground arith)
    | inl (v, read) ↦ elim (Option-cases (validate_envelope v)) [
      | inl bad ↦ inl (refuse_400 request r out (rw (bad, handle_alerts) at (rw read at e)))
      | inr (event, valid) ↦
          inr (v, read, inl (p, event, valid, sym (rw (valid, handle_alerts) at (rw read at e))))
    ]
  ]

  beszel-IsHandled :
      request.path ≡ codes "/beszel"
      → (out : ℕ × Relay) → handle_beszel config w request.loaded r ≡ out
      → IsRefused request r out ⊎ IsHandled config w request r out
  unfolding handle_beszel
  beszel-IsHandled p out e = elim (loaded_cases request.loaded) [
    | inr (inl unread) ↦ inl (refuse_400 request r out (rw unread at e))
    | inr (inr raised) ↦
        let silent : (no_answer, r) ≡ out = rw raised at e in
        inl (inr (inr (inr (inr (inr (ground arith, raised))))), ground arith)
    | inl (v, read) ↦ elim (Option-cases (validate_beszel_envelope v)) [
      | inl bad ↦ inl (refuse_400 request r out (rw (bad, handle_beszel) at (rw read at e)))
      | inr (a, valid) ↦ elim (Option-cases config.pushover_alerts_token) [
        | inl unset ↦
            let refused : (503, r) ≡ out =
              rw unset at (rw (valid, handle_beszel) at (rw read at e)) in
            inl (inr (inr (inr (inr (inl (ground arith))))), ground arith)
        | inr (token, set) ↦ inr (
          v,
          read,
          inr (p, a, valid, sym (rw set at (rw (valid, handle_beszel) at (rw read at e)))),
        )
      ]
    ]
  ]

  not_beszel :
      (request.path ≡ codes "/alerts") ⊎ (request.path ≡ codes "/beszel")
      → text_eq request.path (codes "/beszel") ≡ false
      → request.path ≡ codes "/alerts"
  not_beszel (inl alerts) other = alerts
  not_beszel (inr beszel) other = ground (arith, text_eq_iff request.path (codes "/beszel"))

  read_body-IsHandled :
      (n : ℕ)
      → (request.path ≡ codes "/alerts") ⊎ (request.path ≡ codes "/beszel")
      → (out : ℕ × Relay) → read_body config w request n r ≡ out
      → IsRefused request r out
        ⊎ ((request.received ≡ n)
            × (0 < n)
            × (n ≤ max_body_bytes)
            × IsHandled config w request r out)
  unfolding read_body
  read_body-IsHandled n p out e = elim (Bool-cases (n == 0)) [
    | inl empty ↦ inl (refuse_400 request r out (rw empty at e))
    | inr some_bytes ↦ elim (Bool-cases (ltb max_body_bytes n)) [
      | inl big ↦
          let refused : (413, r) ≡ out = rw (some_bytes, big) at e in
          inl (inr (inr (inr (inl (ground arith)))), ground arith)
      | inr small ↦ elim (Bool-cases (request.received == n)) [
        | inr short ↦ inl (refuse_400 request r out (rw (some_bytes, small, short) at e))
        | inl whole ↦
            let handled : IsRefused request r out ⊎ IsHandled config w request r out =
              elim (Bool-cases (text_eq request.path (codes "/beszel"))) [
                | inl beszel ↦
                    beszel-IsHandled (text_eq→eq request.path (codes "/beszel") beszel) out
                      (rw (some_bytes, small, whole, beszel) at e)
                | inr other ↦
                    alerts-IsHandled (not_beszel p other) out
                      (rw (some_bytes, small, whole, other) at e)
              ] in
            elim handled [
              | inl refused ↦ inl refused
              | inr done ↦ inr (
                ==→eq request.received n whole,
                positive n some_bytes,
                ltb→le max_body_bytes n small,
                done,
              )
            ]
      ]
    ]
  ]

  admitted_path :
      (text_eq request.path (codes "/alerts") || text_eq request.path (codes "/beszel")) ≡ true
      → (request.path ≡ codes "/alerts") ⊎ (request.path ≡ codes "/beszel")
  admitted_path h = elim (Bool-cases (text_eq request.path (codes "/alerts"))) [
    | inl alerts ↦ inl (text_eq→eq request.path (codes "/alerts") alerts)
    | inr other ↦ inr (text_eq→eq request.path (codes "/beszel") (ground arith))
  ]

  authorized_token :
      is_authorized config request.authorization ≡ true
      → request.authorization ≡ expected_authorization config
  unfolding is_authorized
  authorized_token h =
      text_eq→eq request.authorization (expected_authorization config) (ground arith)

  do_post-out :
      (out : ℕ × Relay)
      → do_post config w request r ≡ out
      → IsRefused request r out ⊎ (IsAdmitted config request × IsHandled config w request r out)
  unfolding do_post
  do_post-out out e =
      elim (Bool-cases
        (text_eq request.path (codes "/alerts") || text_eq request.path (codes "/beszel"))) [
          | inr elsewhere ↦
              let refused : (404, r) ≡ out = rw elsewhere at e in
              inl (inr (inr (inl (ground arith))), ground arith)
          | inl path ↦ elim (Bool-cases (is_authorized config request.authorization)) [
            | inr stranger ↦
                let refused : (401, r) ≡ out = rw (path, stranger) at e in
                inl (inr (inl (ground arith)), ground arith)
            | inl known ↦ elim (Bool-cases (is_json request.content_type)) [
              | inr other ↦ inl (refuse_400 request r out (rw (path, known, other) at e))
              | inl json ↦ elim (Option-cases request.content_length) [
                | inl unread ↦ inl (
                    refuse_400 request r out
                      (rw (unread, do_post) at (rw (path, known, json) at e)))
                | inr (n, size) ↦
                    elim (read_body-IsHandled n (admitted_path path) out
                      (rw (size, do_post) at (rw (path, known, json) at e))) [
                        | inl refused ↦ inl refused
                        | inr (received, positive, bounded, handled) ↦ inr (
                          record {
                            authorized = authorized_token known;
                            json = json;
                            size = (n, size, received, positive, bounded);
                          },
                          handled,
                        )
                      ]
              ]
            ]
          ]
        ]

  -- A request is refused, with 400, 401, 404, 413 or 503, or with no answer where json.loads raises
  -- what is not caught, and the relay stays as it is; or it has the
  -- token, is for JSON, has a body of the length that it says, of at most 16 KiB, with a valid
  -- envelope of its path, and the answer and the relay are what the routine of the path makes of it.
  pub do_post-IsHandled :
      IsRefused request r (do_post config w request r)
      ⊎ (IsAdmitted config request × IsHandled config w request r (do_post config w request r))
  do_post-IsHandled = do_post-out (do_post config w request r) refl
