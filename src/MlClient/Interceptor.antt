-- ===== src/MlClient/Interceptor.antt =====
-- The interceptors of every call to the ML service, gateway-go/internal/mlclient/interceptor.go, with the
-- request id of gateway-go/internal/reqid. Durations are not observed.
pub mod Observed
use financial_ai_platform.Prelude.{
  Bool, true, false, ◌&&◌, not, if◌then◌else◌, Option, none, some, List, [], ◌∷◌, ◌++◌, ℕ, Text,
  lit,
}

-- A status code of gRPC; that of the nil error is 0.
abbrev pub Code : Type 0
Code = ℕ

abbrev pub code_of : Option Code → Code
code_of none = 0
code_of (some code) = code

abbrev pub request_id_metadata_key : Text
request_id_metadata_key = lit "x-request-id"

-- The metadata that goes out, by the request id in the context.
unfoldable pub attach_request_id : Option Text → List (Text × Text) → List (Text × Text)
attach_request_id none metadata = metadata
attach_request_id (some id) metadata = metadata ++ (request_id_metadata_key, id) ∷ []

-- The counter of the requests, as the calls that it counted.
abbrev pub Calls : Type 0
Calls = List (Text × Code)

unfoldable pub record_call : Text → Option Code → Calls → Calls
record_call method e calls = calls ++ (method, code_of e) ∷ []

-- A unary call: the invoker yields an error or none for the metadata that goes out.
unfoldable pub unary_call :
    Option Text
    → List (Text × Text)
    → (List (Text × Text) → Option Code)
    → Text
    → Calls
    → Calls × Option Code
unfolding attach_request_id record_call
unary_call id metadata invoker method calls =
    let e = invoker (attach_request_id id metadata) in (record_call method e calls, e)

-- What `RecvMsg` of the stream below yields: a message, io.EOF, or an error with its code.
pub data Received : Type 0 where
  message end_of_file : Received
  failed : Code → Received

abbrev pub is_error : Received → Bool
is_error message = false
is_error end_of_file = true
is_error (failed code) = true

abbrev pub io_eof_as_nil : Received → Option Code
io_eof_as_nil message = none
io_eof_as_nil end_of_file = none
io_eof_as_nil (failed code) = some code

pub record ObservedClientStream : Type 0 where
  pub method : Text
  pub done : Bool

abbrev pub opened : Text → Calls → Option Code → Calls × Option ObservedClientStream
unfolding record_call
opened method calls none = (calls, some (record { method = method; done = false }))
opened method calls (some code) = (record_call method (some code) calls, none)

-- Opening a stream records only a failure.
unfoldable pub open_stream :
    Option Text
    → List (Text × Text)
    → (List (Text × Text) → Option Code)
    → Text
    → Calls
    → Calls × Option ObservedClientStream
unfolding attach_request_id
open_stream id metadata streamer method calls =
    opened method calls (streamer (attach_request_id id metadata))

unfoldable pub recv_msg : ObservedClientStream → Received → Calls → ObservedClientStream × Calls
unfolding record_call
recv_msg s r calls =
    if is_error r && not s.done
    then (record s { done = true }, record_call s.method (io_eof_as_nil r) calls)
    else (s, calls)
