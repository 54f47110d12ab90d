-- ===== src/HttpServer/Engine/Tests.antt =====
-- Requests through the engine, with a response writer of its own.
use financial_ai_platform.Prelude.{
  ℕ, suc, ◌-◌, ◌/◌, format, Bool, true, false, ◌≡◌, ◌⊎◌, inl, inr, refl, arith, [], ◌∷◌, map,
  Option, none, some, Text, lit, if◌then◌else◌, Dict, get, put, get-put_self, ap, sym,
}
use mathlib.Core.List.{flat_map}
use financial_ai_platform.Auth.Middleware.{Context}
use financial_ai_platform.Auth.Fixtures.{service, spelled_jwt}
use financial_ai_platform.RateLimit.{TokenBucket, Limiter, new_limiter}
use financial_ai_platform.HttpServer.{me, Request}
use financial_ai_platform.HttpServer.Access.{access, IsAdmitted}
use financial_ai_platform.HttpServer.Refusals.{IsRefusal}
use financial_ai_platform.HttpServer.Engine.{
  request_id_header, ResponseWriter, Call, Handled, returns, panics, Draw, Handler, http_request,
}
use financial_ai_platform.HttpServer.Engine.Records.{
  Arrival, Observed, outcome, entry_of, served, serve_all, serve_http-Answers, serve_all-recorded,
}
use financial_ai_platform.HttpServer.Engine.Guarded.{arrives, served-guarded}

record Response : Type 0 where
  code : ℕ
  sent : Bool
  headers : Dict Text
  error_text : Text

abbrev or_empty : Option Text → Text
or_empty none = []
or_empty (some t) = t

abbrev get_header : Response → Text → Text
get_header w name = or_empty (get w.headers name)

abbrev put_header : Response → Text → Text → Response
put_header w name value = record w { headers = put w.headers name value }

abbrev abort : Response → ℕ → Text → Response
abort w code message =
    if w.sent then w else record w { code = code; sent = true; error_text = message }

abort-status :
    (w : Response) (code : ℕ) (message : Text) → w.sent ≡ false → (abort w code message).code ≡ code
abort-status w code message fresh = ground arith

abort-get_header :
    (w : Response) (code : ℕ) (message : Text)
    → get_header (abort w code message) request_id_header ≡ get_header w request_id_header
abort-get_header w code message = ground arith

abbrev writer : ResponseWriter
writer = record {
  Writer = Response;
  status = λ w. w.code;
  is_written = λ w. w.sent;
  header = get_header;
  set_header = put_header;
  abort_with_error = abort;
  header-set_header = λ w name value. ap or_empty (get-put_self w.headers name value);
  status-abort = abort-status;
  request_id-abort = abort-get_header;
}

abbrev fresh_response : Response
fresh_response = record { code = 200; sent = false; headers = []; error_text = [] }

abbrev draw : Draw
draw = record {
  minted = lit "r1";
  logging_start = 1000000;
  metrics_start = 1000002;
  metrics_end = 4000002;
  logging_end = 4000004;
}

abbrev anonymous : Request
anonymous = record {
  client_ip = lit "10.0.0.1";
  id_header = [];
  context = record { authorization = []; claims = none };
}

abbrev me_call : Call
me_call = record {
  method = lit "GET";
  path = lit "/api/v1/me";
  query = [];
  endpoint = some me;
  request = anonymous;
}

-- A path without a route, with a method of the client's choice.
abbrev stray_call : Call
stray_call = record me_call { method = lit "ABC"; path = lit "/x"; endpoint = none }

abbrev breaks : Arrival writer
breaks = record {
  draw = draw;
  call = me_call;
  handler = λ id w. panics w (lit "nil map");
  response = fresh_response;
}

abbrev strays : Arrival writer
strays = record {
  draw = draw;
  call = stray_call;
  handler = λ id w. returns (abort w 404 (lit "not found"));
  response = fresh_response;
}

abbrev nothing : Observed writer
nothing = record { entries = []; samples = [] }

abbrev handled_writer : Handled Response → Response
handled_writer (returns w) = w
handled_writer (panics w panic) = w

serve_http-Answers_example :
    (((w : Response) × (outcome writer breaks ≡ returns w)
        × ((served writer breaks nothing).writer ≡ w))
      ⊎ ((w : Response) × (panic : Text) × (outcome writer breaks ≡ panics w panic)
          × ((w.sent ≡ true) ⊎ ((served writer breaks nothing).writer.code ≡ 500))))
    × (get_header (served writer breaks nothing).writer request_id_header ≡ lit "r1")
serve_http-Answers_example = serve_http-Answers writer breaks nothing keeps
  where
    keeps :
        (w : Response)
        → (outcome writer breaks ≡ returns w)
          ⊎ ((panic : Text) × (outcome writer breaks ≡ panics w panic))
        → get_header w request_id_header
          ≡ get_header (put_header fresh_response request_id_header (lit "r1")) request_id_header
    keeps w (inl e) = cc
    keeps w (inr (panic, e)) = ap (λ h. get_header (handled_writer h) request_id_header) (sym e)

-- The request that panics is not counted, and the method of the stray one is a label.
serve_all-recorded_example :
    ((serve_all writer (breaks ∷ strays ∷ []) nothing).entries
      ≡ map (λ a. entry_of writer a (outcome writer a)) (breaks ∷ strays ∷ []))
    × ((serve_all writer (breaks ∷ strays ∷ []) nothing).samples
        ≡ (record {
          method = lit "ABC";
          route = lit "unmatched";
          status = lit "404";
          duration = draw.metrics_end - draw.metrics_start;
        })
          ∷ [])
unfolding flat_map format
serve_all-recorded_example = serve_all-recorded writer (breaks ∷ strays ∷ []) nothing

abbrev bucket : TokenBucket
bucket = record { Bucket = ℕ; new_bucket = 0; allow_bucket = λ now b. (suc b, true) }

abbrev limiter : Limiter bucket
limiter = new_limiter bucket

abbrev answer_me : Context → Handler writer
answer_me c id w = returns w

abbrev refused_me : Arrival writer
refused_me =
    arrives writer bucket spelled_jwt service.tokens 0 limiter answer_me draw (lit "GET")
      (lit "/api/v1/me") [] me anonymous fresh_response

served-guarded_example :
    ((l' : Limiter bucket) × (c' : Context) × IsAdmitted bucket spelled_jwt service.tokens 0 limiter
        anonymous l' c'
        (access me)
      × (outcome writer refused_me
          ≡ answer_me c' (lit "r1") (put_header fresh_response request_id_header (lit "r1"))))
    ⊎ (((l' : Limiter bucket) (c' : Context)
          → ¬ IsAdmitted bucket spelled_jwt service.tokens 0 limiter anonymous l' c' (access me))
        × ((code : ℕ) × IsRefusal code
            × ((served writer refused_me nothing).writer.code ≡ code)
            × ((served writer refused_me nothing).entries
                ≡ http_request
                    (lit "GET")
                    (lit "/api/v1/me")
                    (lit "/api/v1/me")
                    []
                    code
                    ((draw.logging_end - draw.logging_start) / 1000000)
                    me_call.request.client_ip
                    (lit "r1")
                  ∷ [])
            × ((served writer refused_me nothing).samples
                ≡ (record {
                  method = lit "GET";
                  route = lit "/api/v1/me";
                  status = format code;
                  duration = draw.metrics_end - draw.metrics_start;
                })
                  ∷ [])))
unfolding put
served-guarded_example =
    served-guarded writer bucket spelled_jwt service.tokens 0 limiter answer_me draw (lit "GET")
      (lit "/api/v1/me") [] me anonymous fresh_response nothing refl
